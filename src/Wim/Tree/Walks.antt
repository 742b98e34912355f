-- ===== src/Wim/Tree/Walks.antt =====
-- What a walk of src/format/wim.rs that returns has gone through.
use mathlib.Core.Path.{subst}
use newtua_core.Base.{
  ◌==◌, ==_iff, Bool-cases, Option-cases, ℕ, zero, suc, ◌≡◌, refl, ap, ◌∙◌, inl, inr, true, false,
  Option, some, [], ◌∷◌,
}
use newtua_core.Base.Bytes.{Bytes}
use newtua_core.PathSafety.Paths.{push}
use newtua_core.Error.{Error, Result, ok, err, stuck, ◌>>=◌}
use newtua_core.Wim.Fields.{ResourceHeader}
use newtua_core.Wim.Dentry.{RawDentry, parse_dirent}
use newtua_core.Wim.Tree.{Lookup, Listed, body_of, entry_of, joined, children_of, walk_children}
use newtua_core.Wim.Tree.Listing.{
  Siblings, last, entry, listing, IsStored, stored_last, stored_leaf, stored_entry,
}

-- A value that is returned has the property; an error or an endless run has no value.
pub data Allows {ℓ κ} {A : Type ℓ} (P : A → Type κ) : Result A → Type (ℓ ⊔ κ) where
  allowed : {a : A} → P a → Allows P (ok a)
  erring : {e : Error} → Allows P (err e)
  endless : Allows P stuck

module _ {ℓ κ} {A : Type ℓ} (P : A → Type κ) where
  pub Allows-ok : {r : Result A} {a : A} → Allows P r → r ≡ ok a → P a
  Allows-ok (allowed {a} p) e = subst P (cc) p
  Allows-ok erring e = absurd (cc)
  Allows-ok endless e = absurd (cc)

module _ {ℓ κ κ'} {A : Type ℓ} (P : A → Type κ) (Q : A → Type κ') where
  pub Allows-map : {r : Result A} → ((a : A) → P a → Q a) → Allows P r → Allows Q r
  Allows-map f (allowed {a} p) = allowed (f a p)
  Allows-map f erring = erring
  Allows-map f endless = endless

module _ {ℓ ℓ' κ} {A : Type ℓ} {B : Type ℓ'} (Q : B → Type κ) where
  -- What follows may go by what was returned.
  pub Allows-bind :
      (m : Result A) (f : A → Result B) → ((a : A) → m ≡ ok a → Allows Q (f a)) → Allows Q (m >>= f)
  Allows-bind (ok a) f k = k a refl
  Allows-bind (err e) f k = erring
  Allows-bind stuck f k = endless

module _ (meta : Bytes) (lookup : Lookup) where
  -- A tree that is stored at the place, and that the value lists.
  abbrev pub Lists : ℕ → Bytes → Listed → Type 0
  Lists off parent r = (t : Siblings) × IsStored meta lookup off t × (r ≡ listing parent t)

  Lists-entry :
      (off next : ℕ) (parent : Bytes) (d : RawDentry) (body : Option ResourceHeader)
      (below rest : Listed)
      → parse_dirent meta off ≡ ok (some (d, next))
      → body_of lookup d ≡ ok body
      → (d.subdir_offset == 0) ≡ false
      → Lists d.subdir_offset (push parent d.name) below
      → Lists next parent rest
      → Lists off parent
          (joined (entry_of (push parent d.name) d body ∷ [], body ∷ []) (joined below rest))
  Lists-entry off next parent d body below rest p b z (t, s, e) (u, r, f) =
      (entry d body t u, stored_entry p b z s r, rw (e, f) refl)

  Lists-leaf :
      (off next : ℕ) (parent : Bytes) (d : RawDentry) (body : Option ResourceHeader)
      (below rest : Listed)
      → parse_dirent meta off ≡ ok (some (d, next))
      → body_of lookup d ≡ ok body
      → (d.subdir_offset == 0) ≡ true
      → ok ([], []) ≡ ok below
      → Lists next parent rest
      → Lists off parent
          (joined (entry_of (push parent d.name) d body ∷ [], body ∷ []) (joined below rest))
  Lists-leaf off next parent d body below rest p b z e (u, r, f) =
      let e' : below ≡ ([], []) = cc in
      (entry d body last u, stored_leaf p b ((==_iff _ _).0 z) r, rw (e', f) refl)

  pub walk_children-Lists :
      (fuel off : ℕ) (parent : Bytes)
      → Allows (Lists off parent) (walk_children meta lookup fuel off parent)
  unfolding walk_children
  walk_children-Lists zero off parent = endless
  walk_children-Lists (suc fuel) off parent =
      let Q : Listed → Type 0 = Lists off parent in
      Allows-bind Q (parse_dirent meta off) _ (λ (r : Option (RawDentry × ℕ)) p.
        elim (Option-cases r) [
          | inl n ↦ rw n (allowed (last, stored_last (p ∙ ap ok n), refl))
          | inr ((d, next), n) ↦
              let p' : parse_dirent meta off ≡ ok (some (d, next)) = p ∙ ap ok n in
              rw n (
                Allows-bind Q (body_of lookup d) _ (λ (body : Option ResourceHeader) b.
                  Allows-bind Q
                    (children_of (walk_children meta lookup fuel) d.subdir_offset
                      (push parent d.name))
                    _
                    (λ (below : Listed) w.
                      Allows-bind Q (walk_children meta lookup fuel next parent) _
                        (λ (rest : Listed) v.
                          let later =
                            Allows-ok (Lists next parent) (walk_children-Lists fuel next parent)
                              v in
                          elim (Bool-cases (d.subdir_offset == 0)) [
                            | inl z ↦
                                let w' = rw z at w in
                                allowed
                                  (Lists-leaf off next parent d body below rest p' b z w' later)
                            | inr z ↦
                                let w' = rw z at w in
                                allowed (
                                  Lists-entry off next parent d body below rest p' b z
                                    (Allows-ok (Lists d.subdir_offset (push parent d.name))
                                      (walk_children-Lists fuel d.subdir_offset
                                        (push parent d.name))
                                      w')
                                    later)
                          ]))))
        ])
