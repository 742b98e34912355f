-- ===== src/PathSafety/Tests.antt =====
-- Runs of src/path_safety.rs on small paths.
use newtua_core.Base.{equal, ◌≡◌, refl, true, some, [], ◌∷◌}
use newtua_core.Base.Bytes.{Bytes}
use newtua_core.Base.Utf8.{from_utf8_lossy, is_utf8}
use newtua_core.Error.{path_traversal, ok, err}
use newtua_core.PathSafety.{
  normalized, safe_join, raw_path_escapes, count_normal, depth_loop, safe_symlink_target,
}
use newtua_core.PathSafety.Paths.{split, piece, pieces, lead, components, needs_separator, push}
use newtua_core.PathSafety.Join.{Joined, safe_join-Joined}
use newtua_core.PathSafety.Symlink.{walk, verdict, safe_symlink_target-walk}
use newtua_core.PathSafety.Raw.{is_refused, raw_path_escapes-safe_join}

-- "/out"
abbrev out_dir : Bytes
out_dir = b'/' ∷ b'o' ∷ b'u' ∷ b't' ∷ []

-- "./a\\b"
abbrev nested : Bytes
nested = b'.' ∷ b'/' ∷ b'a' ∷ b'\\' ∷ b'b' ∷ []

-- "a\\..\\b"
abbrev climbing : Bytes
climbing = b'a' ∷ b'\\' ∷ b'.' ∷ b'.' ∷ b'\\' ∷ b'b' ∷ []

nested-joined :
    safe_join out_dir nested ≡ ok (b'/' ∷ b'o' ∷ b'u' ∷ b't' ∷ b'/' ∷ b'a' ∷ b'/' ∷ b'b' ∷ [])
unfolding safe_join components lead split pieces piece equal push needs_separator from_utf8_lossy
nested-joined = refl

climbing-escapes : raw_path_escapes climbing ≡ true
unfolding raw_path_escapes split equal
climbing-escapes = refl

safe_join-Joined_example :
    Joined
      (normalized climbing)
      out_dir
      (components (normalized climbing))
      (safe_join out_dir climbing)
safe_join-Joined_example = safe_join-Joined out_dir climbing

-- "a/b"
abbrev link : Bytes
link = b'a' ∷ b'/' ∷ b'b' ∷ []

link-joined :
    safe_join out_dir link ≡ ok (b'/' ∷ b'o' ∷ b'u' ∷ b't' ∷ b'/' ∷ b'a' ∷ b'/' ∷ b'b' ∷ [])
unfolding safe_join components lead split pieces piece equal push needs_separator from_utf8_lossy
link-joined = refl

link-same : normalized link ≡ link
unfolding from_utf8_lossy
link-same = refl

link-at : walk [] (components link) ≡ some ((b'b' ∷ []) ∷ (b'a' ∷ []) ∷ [])
unfolding components lead split pieces piece equal
link-at = refl

safe_symlink_target-walk_example :
    safe_symlink_target out_dir link climbing
    ≡ verdict (normalized climbing) (walk ((b'a' ∷ []) ∷ []) (components (normalized climbing)))
safe_symlink_target-walk_example =
    safe_symlink_target-walk out_dir link climbing _ (b'b' ∷ []) ((b'a' ∷ []) ∷ []) link-joined
      link-same link-at

raw_path_escapes-safe_join_example :
    raw_path_escapes climbing ≡ is_refused (safe_join out_dir climbing)
raw_path_escapes-safe_join_example =
    raw_path_escapes-safe_join out_dir climbing (unfold is_utf8 in refl)

-- A link named "a\b" is placed at "a/b" by `safe_join`, yet its target "../x", which stays inside
-- the destination, is refused: the link's own name is counted as one component.
link-refused :
    safe_symlink_target out_dir (b'a' ∷ b'\\' ∷ b'b' ∷ []) (b'.' ∷ b'.' ∷ b'/' ∷ b'x' ∷ [])
    ≡ err (path_traversal (b'.' ∷ b'.' ∷ b'/' ∷ b'x' ∷ []))
unfolding safe_symlink_target depth_loop count_normal components lead split pieces piece equal
    from_utf8_lossy
link-refused = refl
