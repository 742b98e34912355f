-- ===== src/PathSafety/Symlink.antt =====
-- `safe_symlink_target` of src/path_safety.rs, against a walk over directory names.
use newtua_core.Base.{
  Bool-cases, length, ℕ, zero, suc, ◌+◌, ◌≡◌, refl, sym, ap, ◌∙◌, inl, inr, true, false, Option,
  none, some, List, [], ◌∷◌, arith,
}
use newtua_core.Base.Bytes.{Bytes}
use newtua_core.Error.{path_traversal, Result, ok, err}
use newtua_core.PathSafety.Paths.{
  Component, root_dir, cur_dir, parent_dir, normal, is_absolute, lead, components,
}
use newtua_core.PathSafety.Join.{escapes, Joined, inside, refused, safe_join-Joined}
use newtua_core.PathSafety.{normalized, safe_join, count_normal, depth_loop, safe_symlink_target}

-- The names of the directories between the root and the place that a path leads to, innermost
-- first; `none` when the walk leaves the root.
abbrev pub walk : List Bytes → List Component → Option (List Bytes)
walk dirs [] = some dirs
walk dirs (normal s ∷ cs) = walk (s ∷ dirs) cs
walk dirs (cur_dir ∷ cs) = walk dirs cs
walk [] (parent_dir ∷ cs) = none
walk (d ∷ dirs) (parent_dir ∷ cs) = walk dirs cs
walk dirs (root_dir ∷ cs) = none

-- A walk along a path without root and `..` ends as deep as the path has names.
length-walk :
    (dirs ends : List Bytes) (cs : List Component)
    → escapes cs ≡ false
    → walk dirs cs ≡ some ends
    → length ends ≡ length dirs + count_normal cs
unfolding count_normal
length-walk dirs ends [] e w = let same : dirs ≡ ends = cc in omega (arith, ap length same)
length-walk dirs ends (normal s ∷ cs) e w = omega (arith, length-walk (s ∷ dirs) ends cs e w)
length-walk dirs ends (cur_dir ∷ cs) e w = length-walk dirs ends cs e w
length-walk dirs ends (parent_dir ∷ cs) e w = absurd (cc)
length-walk dirs ends (root_dir ∷ cs) e w = absurd (cc)

accepted :
    (name dest out : Bytes) (cs : List Component) {r : Result Bytes}
    → Joined name dest cs r
    → r ≡ ok out
    → escapes cs ≡ false
accepted name dest out cs (inside e _) f = e
accepted name dest out cs (refused _) f = absurd (cc)

abbrev pub verdict : Bytes → Option (List Bytes) → Result (Unit {0})
verdict name none = err (path_traversal name)
verdict name (some dirs) = ok tt

depth_loop-walk :
    (name : Bytes) (dirs : List Bytes) (depth : ℕ) (cs : List Component)
    → length dirs ≡ depth
    → depth_loop name depth cs ≡ verdict name (walk dirs cs)
unfolding depth_loop
depth_loop-walk name dirs depth [] e = refl
depth_loop-walk name dirs depth (normal s ∷ cs) e =
    depth_loop-walk name (s ∷ dirs) (suc depth) cs (ap suc e)
depth_loop-walk name dirs depth (cur_dir ∷ cs) e = depth_loop-walk name dirs depth cs e
depth_loop-walk name [] zero (parent_dir ∷ cs) e = refl
depth_loop-walk name [] (suc depth) (parent_dir ∷ cs) e = absurd (omega arith)
depth_loop-walk name (d ∷ dirs) zero (parent_dir ∷ cs) e = absurd (omega arith)
depth_loop-walk name (d ∷ dirs) (suc depth) (parent_dir ∷ cs) e =
    depth_loop-walk name dirs depth cs (omega arith)
depth_loop-walk name [] zero (root_dir ∷ cs) e = refl
depth_loop-walk name [] (suc depth) (root_dir ∷ cs) e = refl
depth_loop-walk name (d ∷ dirs) zero (root_dir ∷ cs) e = refl
depth_loop-walk name (d ∷ dirs) (suc depth) (root_dir ∷ cs) e = refl

walk-absolute :
    (name : Bytes) (dirs : List Bytes)
    → is_absolute name ≡ true
    → walk dirs (components name) ≡ none
unfolding components lead
walk-absolute name [] e = rw e
walk-absolute name (d ∷ dirs) e = rw e

-- For a link whose path `safe_join` accepts and normalising does not change, so that it is UTF-8
-- without a backslash, and whose walk from the extraction root ends at a name in a directory,
-- `safe_symlink_target`, which keeps only a depth, accepts a target exactly when the walk from
-- that directory along the components of the target's normalised text never leaves the extraction
-- root, and otherwise refuses it with that text.
pub safe_symlink_target-walk :
    (dest_root link_rel target out name : Bytes) (dirs : List Bytes)
    → safe_join dest_root link_rel ≡ ok out
    → normalized link_rel ≡ link_rel
    → walk [] (components link_rel) ≡ some (name ∷ dirs)
    → safe_symlink_target dest_root link_rel target
      ≡ verdict (normalized target) (walk dirs (components (normalized target)))
unfolding safe_symlink_target
safe_symlink_target-walk dest_root link_rel target out name dirs joined same at =
    let link_in : escapes (components link_rel) ≡ false =
      ap (λ p. escapes (components p)) (sym same)
      ∙ accepted _ dest_root out _ (safe_join-Joined dest_root link_rel) joined in
    elim (Bool-cases (is_absolute (normalized target))) [
      | inl e ↦ rw (e, walk-absolute (normalized target) dirs e)
      | inr e ↦ rw e (
          depth_loop-walk (normalized target) dirs _ (components (normalized target))
            (omega (arith, length-walk [] (name ∷ dirs) (components link_rel) link_in at)))
    ]
