-- ===== src/Wim/Tree/Pairs.antt =====
-- The entries and the bodies that src/format/wim.rs lists stand side by side.
use newtua_core.Wim.Fields.{ResourceHeader}
use newtua_core.PathSafety.Paths.{push}
use newtua_core.Archive.{EntryKind, Entry}
use newtua_core.Base.{
  ◌==◌, Bool-cases, Option-cases, equal, length, ℕ, suc, ◌<◌, ◌≡◌, refl, ap, ◌∙◌, ◌⊎◌, inl, inr,
  true, false, Option, none, some, List, [], ◌∷◌, ◌++◌,
}
use newtua_core.Base.Bytes.{Bytes}
use newtua_core.Error.{ok}
use newtua_core.Wim.Dentry.{RawDentry, security_block_len, parse_dirent}
use newtua_core.Wim.Tree.{
  Lookup, find_hash, Listed, zero_hash, found_body, body_of, size_of, entry_of, build_dir_tree,
}
use newtua_core.Wim.Tree.Listing.{
  Siblings, last, entry, height, listing, IsStored, stored_last, stored_leaf, stored_entry,
  walk_children-IsStored,
}
use newtua_core.Wim.Tree.Walks.{
  allowed, Allows-ok, Allows-map, Allows-bind, Lists, walk_children-Lists,
}

module _ (meta : Bytes) (lookup : Lookup) where
  -- The tree below the root of an image, which is empty where there is no root or it has no
  -- children.
  pub data IsRooted : Siblings → Type 0 where
    rootless :
        {sec : ℕ}
        → security_block_len meta ≡ ok sec
        → parse_dirent meta sec ≡ ok none
        → IsRooted last
    childless :
        {sec next : ℕ} {d : RawDentry}
        → security_block_len meta ≡ ok sec
        → parse_dirent meta sec ≡ ok (some (d, next))
        → (d.subdir_offset == 0) ≡ true
        → IsRooted last
    rooted :
        {sec next : ℕ} {d : RawDentry} {t : Siblings}
        → security_block_len meta ≡ ok sec
        → parse_dirent meta sec ≡ ok (some (d, next))
        → (d.subdir_offset == 0) ≡ false
        → IsStored meta lookup d.subdir_offset t
        → IsRooted t

  -- Where the metadata holds a tree below the root of the image, build_dir_tree gives its listing,
  -- with fuel above the height of the tree.
  pub build_dir_tree-IsRooted :
      (fuel : ℕ) (t : Siblings)
      → height t < fuel
      → IsRooted t
      → build_dir_tree meta lookup fuel ≡ ok (listing [] t)
  unfolding build_dir_tree
  build_dir_tree-IsRooted fuel last f (rootless s p) = rw s (rw p refl)
  build_dir_tree-IsRooted fuel last f (childless s p z) = rw s (rw p (rw z refl))
  build_dir_tree-IsRooted fuel t f (rooted {d} s p z h) =
      rw s (rw p (rw z (walk_children-IsStored meta lookup fuel d.subdir_offset [] t f h)))

  -- What build_dir_tree gives is the listing of a tree that the metadata holds below the root of
  -- the image, each entry in front of what lies below it.
  pub build_dir_tree-listing :
      (fuel : ℕ) (listed : Listed)
      → build_dir_tree meta lookup fuel ≡ ok listed
      → (t : Siblings) × IsRooted t × (listed ≡ listing [] t)
  unfolding build_dir_tree
  build_dir_tree-listing fuel listed e =
      let P : Listed → Type 0 = λ r. (t : Siblings) × IsRooted t × (r ≡ listing [] t) in
      Allows-ok P
        (Allows-bind P (security_block_len meta) _ (λ (sec : ℕ) s.
          Allows-bind P (parse_dirent meta sec) _ (λ (r : Option (RawDentry × ℕ)) p.
            elim (Option-cases r) [
              | inl n ↦ rw n (allowed (last, rootless s (p ∙ ap ok n), refl))
              | inr ((d, next), n) ↦
                  let p' : parse_dirent meta sec ≡ ok (some (d, next)) = p ∙ ap ok n in
                  elim (Bool-cases (d.subdir_offset == 0)) [
                    | inl z ↦ rw (n, z) (allowed (last, childless s p' z, refl))
                    | inr z ↦
                        rw (n, z)
                          (Allows-map (Lists meta lookup d.subdir_offset []) P
                            (λ (r : Listed) (w : Lists meta lookup d.subdir_offset [] r).
                              (w.0, rooted s p' z w.1, w.2))
                            (walk_children-Lists meta lookup fuel d.subdir_offset []))
                  ]
            ])))
        e

-- What stands beside an entry: no body, or the one that the lookup table has for a hash, whose
-- size the entry reports. A directory has none.
abbrev pub IsBody : Lookup → Entry → Option ResourceHeader → Type 0
IsBody lookup e body =
    (e.size ≡ size_of body)
    × ((body ≡ none)
        ⊎ ((e.kind ≡ EntryKind.file) × (hash : Bytes) × (find_hash lookup hash ≡ body)))

pub data Paired (lookup : Lookup) : List Entry → List (Option ResourceHeader) → Type 0 where
  no_pairs : Paired lookup [] []
  pair_of :
      {e : Entry} {body : Option ResourceHeader} {es : List Entry}
      {bs : List (Option ResourceHeader)}
      → IsBody lookup e body
      → Paired lookup es bs
      → Paired lookup (e ∷ es) (body ∷ bs)

module _ (lookup : Lookup) where
  Paired-append :
      (es fs : List Entry) (bs cs : List (Option ResourceHeader))
      → Paired lookup es bs
      → Paired lookup fs cs
      → Paired lookup (es ++ fs) (bs ++ cs)
  Paired-append [] fs [] cs no_pairs q = q
  Paired-append [] fs (b ∷ bs) cs p q = elim p [ ]
  Paired-append (e ∷ es) fs [] cs p q = elim p [ ]
  Paired-append (e ∷ es) fs (b ∷ bs) cs (pair_of h p) q = pair_of h (Paired-append es fs bs cs p q)

  found_body_lem : (o body : Option ResourceHeader) → found_body o ≡ ok body → o ≡ body
  found_body_lem none body e = absurd (cc)
  found_body_lem (some rh) body e = cc

  body_of-IsBody :
      (path : Bytes) (d : RawDentry) (body : Option ResourceHeader)
      → body_of lookup d ≡ ok body
      → IsBody lookup (entry_of path d body) body
  unfolding body_of entry_of
  body_of-IsBody path d body e = elim (Bool-cases d.is_dir) [
    | inl t ↦ let e' = rw t at e in (refl, inl (cc))
    | inr t ↦ elim (Bool-cases (equal d.hash zero_hash)) [
      | inl z ↦ let e' = rw (t, z) at e in (refl, inl (cc))
      | inr z ↦
          let e' = rw (t, z) at e in
          (refl, inr (rw t refl, d.hash, found_body_lem (find_hash lookup d.hash) body e'))
    ]
  ]

  listing-Paired :
      (meta : Bytes) (off : ℕ) (parent : Bytes) (t : Siblings)
      → IsStored meta lookup off t
      → Paired lookup (listing parent t).0 (listing parent t).1
  listing-Paired meta off parent last (stored_last p) = no_pairs
  listing-Paired meta off parent (entry d body last rest) (stored_leaf {next} p b z r) =
      pair_of (body_of-IsBody (push parent d.name) d body b)
        (listing-Paired meta next parent rest r)
  listing-Paired meta off parent (entry d body below rest) (stored_entry {next} p b z s r) =
      pair_of (body_of-IsBody (push parent d.name) d body b) (
        Paired-append _ _ _ _ (listing-Paired meta d.subdir_offset (push parent d.name) below s)
          (listing-Paired meta next parent rest r))

  rooted-Paired :
      (meta : Bytes) (t : Siblings)
      → IsRooted meta lookup t
      → Paired lookup (listing [] t).0 (listing [] t).1
  rooted-Paired meta last (rootless s p) = no_pairs
  rooted-Paired meta last (childless s p z) = no_pairs
  rooted-Paired meta t (rooted {d} s p z h) = listing-Paired meta d.subdir_offset [] t h

  pub build_dir_tree-Paired :
      (meta : Bytes) (fuel : ℕ) (listed : Listed)
      → build_dir_tree meta lookup fuel ≡ ok listed
      → Paired lookup listed.0 listed.1
  build_dir_tree-Paired meta fuel listed e =
      let (t, h, f) = build_dir_tree-listing meta lookup fuel listed e in
      rw f (rooted-Paired meta t h)

pub length-Paired :
    (lookup : Lookup) (es : List Entry) (bs : List (Option ResourceHeader))
    → Paired lookup es bs
    → length es ≡ length bs
length-Paired lookup [] [] no_pairs = refl
length-Paired lookup [] (b ∷ bs) p = elim p [ ]
length-Paired lookup (e ∷ es) [] p = elim p [ ]
length-Paired lookup (e ∷ es) (b ∷ bs) (pair_of h p) = ap suc (length-Paired lookup es bs p)
