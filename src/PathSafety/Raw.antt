-- ===== src/PathSafety/Raw.antt =====
-- `raw_path_escapes` of src/path_safety.rs, against `safe_join`.
use newtua_core.Base.{
  equal, equal_iff, ◌≡◌, refl, sym, ap, ◌∙◌, Bool, true, false, ◌||◌, List, [], ◌∷◌, ◌++◌, map,
  arith,
}
use newtua_core.Base.Bytes.{Bytes}
use newtua_core.Base.Utf8.{is_utf8, from_utf8_lossy-valid}
use newtua_core.Error.{path_traversal, Result, err}
use newtua_core.PathSafety.Paths.{
  Component, root_dir, cur_dir, parent_dir, normal, dot, dot_dot, is_slash, split, segments,
  is_absolute, piece, pieces, lead, components,
}
use newtua_core.PathSafety.Join.{escapes, Joined, inside, refused, safe_join-Joined}
use newtua_core.PathSafety.{
  slashed, safe_join, is_separator, any_dot_dot, first_is_separator, raw_path_escapes,
}

-- Cutting at both separators is cutting at slashes after the replacement.
split-slashed : (raw : Bytes) → split is_slash (map slashed raw) ≡ split is_separator raw
unfolding split
split-slashed [] = refl
split-slashed (c ∷ cs) = ground (arith, split-slashed cs)

absolute-slashed : (raw : Bytes) → is_absolute (map slashed raw) ≡ first_is_separator raw
absolute-slashed [] = refl
absolute-slashed (c ∷ cs) = ground arith

escapes-append : (a b : List Component) → escapes (a ++ b) ≡ (escapes a || escapes b)
escapes-append [] b = refl
escapes-append (normal s ∷ a) b = escapes-append a b
escapes-append (cur_dir ∷ a) b = escapes-append a b
escapes-append (parent_dir ∷ a) b = refl
escapes-append (root_dir ∷ a) b = refl

escapes-piece : (s : Bytes) → escapes (piece s) ≡ equal s dot_dot
unfolding piece
escapes-piece s = ground (arith, equal_iff s [], equal_iff s dot, equal_iff s dot_dot)

escapes-pieces : (ss : List Bytes) → escapes (pieces ss) ≡ any_dot_dot ss
unfolding pieces any_dot_dot
escapes-pieces [] = refl
escapes-pieces (s ∷ ss) = rw (escapes-append, escapes-piece s, escapes-pieces ss)

pub escapes-components :
    (raw : Bytes) → escapes (components (map slashed raw)) ≡ raw_path_escapes raw
unfolding components lead raw_path_escapes
escapes-components raw =
    rw (split-slashed raw, absolute-slashed raw, escapes-append)
      (ground (arith, escapes-pieces (segments is_separator raw)))

-- Whether a join was refused as a path that leads out.
abbrev pub is_refused : Result Bytes → Bool
is_refused (err (path_traversal _)) = true
is_refused _ = false

is_refused-Joined :
    (name dest : Bytes) (cs : List Component) {r : Result Bytes}
    → Joined name dest cs r
    → escapes cs ≡ is_refused r
is_refused-Joined name dest cs (inside e c) = e
is_refused-Joined name dest cs (refused e) = e

-- On a name that is valid UTF-8, `raw_path_escapes` says that the raw bytes escape exactly when
-- `safe_join` refuses the decoded path, whatever the destination.
pub raw_path_escapes-safe_join :
    (dest_root raw : Bytes)
    → is_utf8 raw ≡ true
    → raw_path_escapes raw ≡ is_refused (safe_join dest_root raw)
raw_path_escapes-safe_join dest_root raw h =
    sym (escapes-components raw)
    ∙ ap (λ n. escapes (components (map slashed n))) (sym (from_utf8_lossy-valid raw h))
    ∙ is_refused-Joined _ _ _ (safe_join-Joined dest_root raw)
