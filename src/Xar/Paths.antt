-- ===== src/Xar/Paths.antt =====
-- No path that src/format/xar.rs lists leads out of the destination.
use mathlib.Core.Path.{subst}
use newtua_core.Base.{
  if◌then◌else◌, Bool-cases, Option-cases, equal, All, All-append, ℕ, zero, suc, ◌≡◌, refl, sym,
  ◌∙◌, inl, inr, false, Option, none, some, List, [], ◌∷◌, ◌++◌, map,
}
use newtua_core.Base.Bytes.{Bytes}
use newtua_core.Archive.{Entry}
use newtua_core.PathSafety.{slashed, any_dot_dot, raw_path_escapes}
use newtua_core.PathSafety.Paths.{split, components, push}
use newtua_core.PathSafety.Raw.{escapes-components}
use newtua_core.Error.Run.{
  Run, done, failed, panicked, unended, Gives, giving, failing, panicking, unending, Gives-done,
  Gives-bind,
}
use newtua_core.Xar.Nodes.{Nodes, nil, cons, has_tag_name, or_default, child_text, file_name}
use newtua_core.Xar.Toc.{
  file_tag, type_tag, mtime_tag, any_unsafe, colon_for, time_of, body_of, Visited, Listed, visit_at,
  files_of, path_in, collect_loop,
}
use newtua_core.Xar.Opening.{Tools, count_nodes, collect}
use newtua_core.Xar.Safety.{
  any_unsafe-escapes, first-colon, any_dot_dot-colon, Stays, Stays-raw, raw-Stays,
  first_is_separator-colon, Stays-push,
}

Stays-colon : (s : Bytes) → Stays s → Stays (map colon_for s)
Stays-colon s (a, b, c) = (first_is_separator-colon s a, first-colon s b, any_dot_dot-colon s c)

Stays-name : (name : Bytes) → any_unsafe (components (map slashed name)) ≡ false → Stays name
Stays-name name h =
    raw-Stays name
      (sym (escapes-components name) ∙ sym (any_unsafe-escapes (components (map slashed name))) ∙ h)

name_path :
    (parent name path : Bytes)
    → Stays parent
    → (if any_unsafe (components (map slashed name))
        then none
        else some (push parent (map colon_for name)))
      ≡ some path
    → Stays path
name_path parent name path s h = elim (Bool-cases (any_unsafe (components (map slashed name)))) [
  | inl e ↦ let h' = rw e at h in absurd (cc)
  | inr e ↦
      let h' = rw e at h in
      let e' : push parent (map colon_for name) ≡ path = cc in
      subst Stays e'
        (Stays-push parent (map colon_for name) s (Stays-colon name (Stays-name name e)))
]

module _ (base64 : Bytes → Option Bytes) where
  path_in-Stays :
      (kids : Nodes) (parent path : Bytes)
      → Stays parent
      → path_in base64 kids parent ≡ some path
      → Stays path
  unfolding path_in
  path_in-Stays kids parent path s h = elim (Option-cases (file_name base64 kids)) [
    | inl e ↦ let h' = rw e at h in absurd (cc)
    | inr (name, e) ↦ let h' = rw e at h in name_path parent name path s h'
  ]

  abbrev AreInside : Listed → Type 0
  AreInside listed = All (λ (e : Entry). Stays e.path) listed.0

  abbrev AreParents : List (Nodes × Bytes) → Type 0
  AreParents stack = All (λ (k : Nodes × Bytes). Stays k.1) stack

  files_of-AreParents : (ns : Nodes) (path : Bytes) → Stays path → AreParents (files_of ns path)
  unfolding files_of
  files_of-AreParents nil path s = tt
  files_of-AreParents (cons n ns) path s = elim (Bool-cases (has_tag_name n file_tag)) [
    | inl e ↦ rw e (s, files_of-AreParents ns path s)
    | inr e ↦ rw e (files_of-AreParents ns path s)
  ]

  of_any : {A : Type 0} (r : Run A) → Gives (λ _. Unit {0}) r
  of_any (done a) = giving tt
  of_any (failed e) = failing
  of_any panicked = panicking
  of_any unended = unending

  visit_at-path :
      (kids : Nodes) (path : Bytes) → Gives (λ (v : Visited). v.0.path ≡ path) (visit_at kids path)
  unfolding visit_at
  visit_at-path kids path =
      Gives-bind _ _ (time_of (child_text kids mtime_tag)) _ (of_any _) (λ modified u.
        Gives-bind _ _ (body_of kids (or_default (child_text kids type_tag) file_tag)) _ (of_any _)
          (λ body v. giving refl))

  collect_loop-AreInside :
      (fuel : ℕ) (stack : List (Nodes × Bytes))
      → AreParents stack
      → Gives AreInside (collect_loop base64 fuel stack)
  unfolding collect_loop
  collect_loop-AreInside zero stack h = unending
  collect_loop-AreInside (suc fuel) [] h = giving tt
  collect_loop-AreInside (suc fuel) ((kids, parent) ∷ rest) h =
      elim (Option-cases (path_in base64 kids parent)) [
        | inl e ↦ rw e (collect_loop-AreInside fuel rest h.1)
        | inr (path, e) ↦
            let s : Stays path = path_in-Stays kids parent path h.0 e in
            rw e (
              Gives-bind _ AreInside (visit_at kids path) _ (visit_at-path kids path) (λ v p.
                Gives-bind AreInside AreInside
                  (collect_loop base64 fuel (files_of kids path ++ rest)) _
                  (collect_loop-AreInside fuel (files_of kids path ++ rest) (
                    All-append (λ (k : Nodes × Bytes). Stays k.1) (files_of kids path) rest
                      (files_of-AreParents kids path s) h.1))
                  (λ more q. giving (subst Stays (sym p) s, q))))
      ]

Stays-raw_All :
    (es : List Entry)
    → All (λ (e : Entry). Stays e.path) es
    → All (λ (e : Entry). raw_path_escapes e.path ≡ false) es
Stays-raw_All [] h = tt
Stays-raw_All (e ∷ es) h = (Stays-raw e.path h.0, Stays-raw_All es h.1)

-- No path that collect lists from a table of contents leads out of the destination by the check of
-- raw names, whatever names the elements have and however they are coded.
pub collect_inside :
    (tools : Tools) (toc : Nodes) (listed : Listed)
    → collect tools toc ≡ done listed
    → All (λ (e : Entry). raw_path_escapes e.path ≡ false) listed.0
unfolding collect
collect_inside tools toc listed e = Stays-raw_All listed.0 (
    Gives-done (AreInside tools.base64)
      (collect_loop-AreInside tools.base64 (suc (count_nodes toc)) (files_of toc []) (
        files_of-AreParents tools.base64 toc []
          (refl, unfold equal split in refl, unfold any_dot_dot split in refl)))
      e)
