-- ===== src/PathSafety.antt =====
-- src/path_safety.rs: joining an entry's path to the extraction root, and the verdicts on raw
-- names and on symlink targets. Paths are those of Unix, as byte strings.
pub mod Paths
pub mod Pushed
pub mod Join
pub mod Symlink
pub mod Raw
mod Tests
use newtua_core.Base.{
  ◌==◌, if◌then◌else◌, equal, ℕ, zero, suc, ◌-◌, Bool, true, false, ◌||◌, List, [], ◌∷◌, map,
}
use newtua_core.Base.Bytes.{Bytes}
use newtua_core.Base.Utf8.{from_utf8_lossy}
use newtua_core.Error.{path_traversal, Result, ok, err}
use newtua_core.PathSafety.Paths.{
  Component, root_dir, cur_dir, parent_dir, normal, dot_dot, segments, is_absolute, components,
  push,
}

-- `replace('\\', "/")`, on one byte.
abbrev pub slashed : ℕ → ℕ
slashed c = if c == b'\\' then b'/' else c

abbrev pub normalized : Bytes → Bytes
normalized entry_path = map slashed (from_utf8_lossy entry_path)

-- The loop of `safe_join` over the components.
unfoldable pub join_loop : Bytes → Bytes → List Component → Result Bytes
join_loop name out [] = ok out
join_loop name out (normal part ∷ comps) = join_loop name (push out part) comps
join_loop name out (cur_dir ∷ comps) = join_loop name out comps
join_loop name out (parent_dir ∷ comps) = err (path_traversal name)
join_loop name out (root_dir ∷ comps) = err (path_traversal name)

unfoldable pub safe_join : Bytes → Bytes → Result Bytes
unfolding join_loop
safe_join dest_root entry_path =
    let name : Bytes = normalized entry_path in join_loop name dest_root (components name)

abbrev pub is_separator : ℕ → Bool
is_separator b = b == b'/' || b == b'\\'

unfoldable pub any_dot_dot : List Bytes → Bool
any_dot_dot [] = false
any_dot_dot (s ∷ ss) = equal s dot_dot || any_dot_dot ss

abbrev pub first_is_separator : Bytes → Bool
first_is_separator [] = false
first_is_separator (b ∷ bs) = is_separator b

unfoldable pub raw_path_escapes : Bytes → Bool
unfolding any_dot_dot
raw_path_escapes raw =
    if first_is_separator raw then true else any_dot_dot (segments is_separator raw)

unfoldable pub count_normal : List Component → ℕ
count_normal [] = 0
count_normal (normal _ ∷ comps) = suc (count_normal comps)
count_normal (_ ∷ comps) = count_normal comps

-- The loop of `safe_symlink_target` over the target's components. The depth is never negative at
-- the head of the loop, and `depth -= 1` below 0 is the refusal.
unfoldable pub depth_loop : Bytes → ℕ → List Component → Result (Unit {0})
depth_loop name depth [] = ok tt
depth_loop name depth (normal _ ∷ comps) = depth_loop name (suc depth) comps
depth_loop name depth (cur_dir ∷ comps) = depth_loop name depth comps
depth_loop name zero (parent_dir ∷ comps) = err (path_traversal name)
depth_loop name (suc depth) (parent_dir ∷ comps) = depth_loop name depth comps
depth_loop name depth (root_dir ∷ comps) = err (path_traversal name)

unfoldable pub safe_symlink_target : Bytes → Bytes → Bytes → Result (Unit {0})
unfolding depth_loop count_normal
safe_symlink_target _ link_rel target =
    let name : Bytes = normalized target in
    if is_absolute name
    then err (path_traversal name)
    else depth_loop name (count_normal (components link_rel) - 1) (components name)
