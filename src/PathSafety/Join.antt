-- ===== src/PathSafety/Join.antt =====
-- `safe_join` of src/path_safety.rs: where the joined path lies.
use newtua_core.Error.{path_traversal, Result, ok, err}
use newtua_core.PathSafety.{normalized, join_loop, safe_join}
use newtua_core.Base.{
  Bool-cases, equal, All, All-append, ◌≡◌, refl, sym, ◌∙◌, inl, inr, Bool, true, false, List, [],
  ◌∷◌, ◌++◌, append-nil, append_assoc, arith,
}
use newtua_core.Base.Bytes.{Bytes}
use newtua_core.PathSafety.Pushed.{Unbroken, split-Unbroken, IsPart, components-push}
use newtua_core.PathSafety.Paths.{
  Component, root_dir, cur_dir, parent_dir, normal, dot, dot_dot, is_slash, piece, pieces, lead,
  components, push,
}

abbrev IsPartOf : Component → Type 0
IsPartOf (normal s) = IsPart s
IsPartOf _ = Unit

piece-IsPartOf : (s : Bytes) → Unbroken is_slash s → All IsPartOf (piece s)
piece-IsPartOf s h = elim (Bool-cases (equal s [])) [
  | inl e ↦ unfold piece in rw e tt
  | inr e ↦ elim (Bool-cases (equal s dot)) [
    | inl f ↦ unfold piece in rw (e, f) tt
    | inr f ↦ elim (Bool-cases (equal s dot_dot)) [
      | inl g ↦ unfold piece in rw (e, f, g) (tt, tt)
      | inr g ↦
          unfold piece in
          rw (e, f, g) (record { whole = h; kept = unfold piece in rw (e, f, g) }, tt)
    ]
  ]
]

pieces-IsPartOf : (ss : List Bytes) → All (Unbroken is_slash) ss → All IsPartOf (pieces ss)
unfolding pieces
pieces-IsPartOf [] h = tt
pieces-IsPartOf (s ∷ ss) h =
    All-append IsPartOf (piece s) (pieces ss) (piece-IsPartOf s h.0) (pieces-IsPartOf ss h.1)

lead-IsPartOf : (p s : Bytes) → All IsPartOf (lead p s)
unfolding lead
lead-IsPartOf p s = ground arith

components-IsPartOf : (p : Bytes) → All IsPartOf (components p)
unfolding components
components-IsPartOf p =
    All-append IsPartOf (lead p _) (pieces _) (lead-IsPartOf p _)
      (pieces-IsPartOf _ (split-Unbroken is_slash p))

-- Whether a component leads out of the directory that it is read in.
abbrev pub escapes : List Component → Bool
escapes [] = false
escapes (normal _ ∷ cs) = escapes cs
escapes (cur_dir ∷ cs) = escapes cs
escapes (parent_dir ∷ cs) = true
escapes (root_dir ∷ cs) = true

-- The components that name something.
abbrev pub parts : List Component → List Component
parts [] = []
parts (normal s ∷ cs) = normal s ∷ parts cs
parts (_ ∷ cs) = parts cs

-- What joining the components to a path comes to.
pub data Joined (name dest : Bytes) (cs : List Component) : Result Bytes → Type 0 where
  inside :
      {out : Bytes}
      → escapes cs ≡ false
      → components out ≡ components dest ++ parts cs
      → Joined name dest cs (ok out)
  refused : escapes cs ≡ true → Joined name dest cs (err (path_traversal name))

Joined-normal :
    (name dest s : Bytes) (cs : List Component) {r : Result Bytes}
    → IsPart s
    → Joined name (push dest s) cs r
    → Joined name dest (normal s ∷ cs) r
Joined-normal name dest s cs h (inside e c) =
    inside e (c ∙ rw (components-push dest s h) (simp append_assoc))
Joined-normal name dest s cs h (refused e) = refused e

Joined-cur_dir :
    (name dest : Bytes) (cs : List Component) {r : Result Bytes}
    → Joined name dest cs r
    → Joined name dest (cur_dir ∷ cs) r
Joined-cur_dir name dest cs (inside e c) = inside e c
Joined-cur_dir name dest cs (refused e) = refused e

join_loop-Joined :
    (name dest : Bytes) (cs : List Component)
    → All IsPartOf cs
    → Joined name dest cs (join_loop name dest cs)
unfolding join_loop
join_loop-Joined name dest [] h = inside refl (sym (append-nil _))
join_loop-Joined name dest (normal s ∷ cs) h =
    Joined-normal name dest s cs h.0 (join_loop-Joined name (push dest s) cs h.1)
join_loop-Joined name dest (cur_dir ∷ cs) h =
    Joined-cur_dir name dest cs (join_loop-Joined name dest cs h.1)
join_loop-Joined name dest (parent_dir ∷ cs) h = refused refl
join_loop-Joined name dest (root_dir ∷ cs) h = refused refl

-- `safe_join` gives a path exactly when the normalised text of the entry's path has no root and no
-- `..` component, and that path has the components of the destination followed by the named
-- components of the entry's path and by nothing else; otherwise it refuses the path with that
-- text.
pub safe_join-Joined :
    (dest_root entry_path : Bytes)
    → Joined
        (normalized entry_path)
        dest_root
        (components (normalized entry_path))
        (safe_join dest_root entry_path)
unfolding safe_join
safe_join-Joined dest_root entry_path =
    join_loop-Joined (normalized entry_path) dest_root (components (normalized entry_path))
      (components-IsPartOf (normalized entry_path))
