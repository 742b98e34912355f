-- ===== src/Wim/Tree/Listing.antt =====
-- The tree that the walk of src/format/wim.rs goes through.
use newtua_core.Base.{
  ◌==◌, ==_iff, ℕ, zero, suc, ◌<◌, max, ◌≡◌, refl, true, false, Option, none, some, [], ◌∷◌, arith,
}
use newtua_core.Base.Bytes.{Bytes}
use newtua_core.PathSafety.Paths.{push}
use newtua_core.Error.{ok, stuck}
use newtua_core.Wim.Fields.{ResourceHeader}
use newtua_core.Wim.Dentry.{RawDentry, parse_dirent}
use newtua_core.Wim.Tree.{Lookup, Listed, body_of, entry_of, joined, walk_children}

-- A list of siblings: an entry with its body, what lies below it, and the rest of the list.
pub data Siblings : Type 0 where
  last : Siblings
  entry : RawDentry → Option ResourceHeader → Siblings → Siblings → Siblings

-- How deep a reader goes into the tree, and how far along it.
abbrev pub height : Siblings → ℕ
height last = 0
height (entry d body below rest) = suc (max (height below) (height rest))

-- An entry stands in front of what is below it, and that in front of its siblings.
abbrev pub listing : Bytes → Siblings → Listed
listing parent last = ([], [])
listing parent (entry d body below rest) =
    joined (entry_of (push parent d.name) d body ∷ [], body ∷ [])
      (joined (listing (push parent d.name) below) (listing parent rest))

-- What the metadata holds at a place, and below an entry with that offset of its children.
module _ (meta : Bytes) (lookup : Lookup) where
  pub data IsStored : ℕ → Siblings → Type 0 where
    stored_last : {off : ℕ} → parse_dirent meta off ≡ ok none → IsStored off last
    stored_leaf :
        {off next : ℕ} {d : RawDentry} {body : Option ResourceHeader} {rest : Siblings}
        → parse_dirent meta off ≡ ok (some (d, next))
        → body_of lookup d ≡ ok body
        → d.subdir_offset ≡ 0
        → IsStored next rest
        → IsStored off (entry d body last rest)
    stored_entry :
        {off next : ℕ} {d : RawDentry} {body : Option ResourceHeader} {below rest : Siblings}
        → parse_dirent meta off ≡ ok (some (d, next))
        → body_of lookup d ≡ ok body
        → (d.subdir_offset == 0) ≡ false
        → IsStored d.subdir_offset below
        → IsStored next rest
        → IsStored off (entry d body below rest)

  -- Where a tree is stored at a place, the walk from there gives the listing of the tree, with fuel
  -- above the height of the tree.
  pub walk_children-IsStored :
      (fuel off : ℕ) (parent : Bytes) (t : Siblings)
      → height t < fuel
      → IsStored off t
      → walk_children meta lookup fuel off parent ≡ ok (listing parent t)
  unfolding walk_children
  walk_children-IsStored zero off parent t f h = absurd (omega (arith, f))
  walk_children-IsStored (suc fuel) off parent last f (stored_last p) = rw p refl
  walk_children-IsStored (suc fuel) off parent (entry d body last rest) f
        (stored_leaf {next} p b z r) =
      let z' : (d.subdir_offset == 0) ≡ true = (==_iff _ _).1 z in
      let later = walk_children-IsStored fuel next parent rest (omega (arith, f)) r in
      rw p (rw b (rw z' (rw later refl)))
  walk_children-IsStored (suc fuel) off parent (entry d body below rest) f
        (stored_entry {next} p b z s r) =
      let inner =
        walk_children-IsStored fuel d.subdir_offset (push parent d.name) below (omega (arith, f))
          s in
      let later = walk_children-IsStored fuel next parent rest (omega (arith, f)) r in
      rw p (rw b (rw z (rw inner (rw later refl))))

  -- Where an entry has its own place as the place of its children, the walk from there does not come
  -- to an end with any fuel.
  pub walk_children_self :
      (fuel off next : ℕ) (parent : Bytes) (d : RawDentry) (body : Option ResourceHeader)
      → parse_dirent meta off ≡ ok (some (d, next))
      → body_of lookup d ≡ ok body
      → d.subdir_offset ≡ off
      → (off == 0) ≡ false
      → walk_children meta lookup fuel off parent ≡ stuck
  unfolding walk_children
  walk_children_self zero off next parent d body p b e n = refl
  walk_children_self (suc fuel) off next parent d body p b e n =
      let again = walk_children_self fuel off next (push parent d.name) d body p b e n in
      rw p (rw b (rw e (rw n (rw again refl))))
