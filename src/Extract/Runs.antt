-- ===== src/Extract/Runs.antt =====
-- Whole runs of src/extract.rs.
use newtua_core.Extract.Report.{extract_all_accounted}
use newtua_core.Extract.Safety.Whole.{extract_all-IsSafe}
use newtua_core.Extract.AppleDouble.RoundTrip.{fork_in-sidecar_bytes}
use newtua_core.Extract.AppleDouble.{sidecar_bytes, fork_in}
use newtua_core.Base.{
  equal, length, All, ◌+◌, ◌≡◌, refl, inl, true, false, none, some, List, [], ◌∷◌, arith,
}
use newtua_core.Base.Bytes.{Bytes}
use newtua_core.Base.Utf8.{from_utf8_lossy}
use newtua_core.Error.{path_traversal, ok}
use newtua_core.Archive.{EntryKind, Entry}
use newtua_core.PathSafety.{join_loop, safe_join, count_normal, depth_loop, safe_symlink_target}
use newtua_core.PathSafety.Paths.{
  root_dir, normal, split, piece, pieces, lead, components, needs_separator, push,
}
use newtua_core.Extract.{
  ExtractOptions, root_loop, common_root, is_skipped, subset_from, choose_dest,
}
use newtua_core.Extract.World.{
  FsPath, create_dir_all, create, write, World, Env, ArchiveReader, lift, perform, attempt, notify,
  tick, write_chunks, read_entry,
}
use newtua_core.Extract.One.{
  parent_of, apply_mtime, apply_symlink_mtime, apply_mode, extract_symlink, extract_file,
  extract_at, extract_one,
}
use newtua_core.Extract.Run.{
  ExtractReport, take_entry, extract_loop, set_dir_mtimes, fresh, extract_all,
}
use newtua_core.Extract.Safety.{IsSafe, IsPlaced}

-- A file system that refuses nothing, and no callback.
abbrev willing : Env
willing = record { refuses = λ _ _. none; progress = none }

abbrev entry : Bytes → EntryKind → Entry
entry path kind = record {
  path_raw = path;
  path = path;
  kind = kind;
  size = 0;
  mode = none;
  is_encrypted = false;
  modified = none;
  is_resource_fork = false;
}

-- An archive whose every entry is one piece of one byte.
abbrev holding : List Entry → ArchiveReader
holding entries = record {
  entries = ok entries;
  verify_password = ok tt;
  chunks = λ _. (7 ∷ []) ∷ [];
  outcome = λ _. ok tt;
}

-- Below "/o".
abbrev options : ExtractOptions
options = record {
  dest = b'/' ∷ b'o' ∷ [];
  wrapper_name = none;
  strict = false;
  preserve = true;
  selection = none;
  keep_macos_metadata = true;
}

-- "d/x" and "../z"
abbrev two : List Entry
two =
    entry (b'd' ∷ b'/' ∷ b'x' ∷ []) EntryKind.file
    ∷ entry (b'.' ∷ b'.' ∷ b'/' ∷ b'z' ∷ []) EntryKind.file
    ∷ []

two-IsPlaced : All IsPlaced (subset_from options 0 two)
unfolding subset_from is_skipped components lead split pieces piece equal count_normal
    from_utf8_lossy
two-IsPlaced = (inl (omega arith), (inl (omega arith), tt))

abbrev two_report : ExtractReport
two_report = record {
  extracted = 1;
  failed = (b'.' ∷ b'.' ∷ b'/' ∷ b'z' ∷ [], path_traversal (b'.' ∷ b'.' ∷ b'/' ∷ b'z' ∷ [])) ∷ [];
  wrapped = false;
  aborted = false;
}

abbrev out_path : FsPath
out_path = root_dir ∷ normal (b'o' ∷ []) ∷ []

abbrev two_world : World
two_world = record {
  ops =
      write (root_dir ∷ normal (b'o' ∷ []) ∷ normal (b'd' ∷ []) ∷ normal (b'x' ∷ []) ∷ []) (7 ∷ [])
      ∷ create (root_dir ∷ normal (b'o' ∷ []) ∷ normal (b'd' ∷ []) ∷ normal (b'x' ∷ []) ∷ [])
      ∷ create_dir_all (root_dir ∷ normal (b'o' ∷ []) ∷ normal (b'd' ∷ []) ∷ [])
      ∷ [];
  events = [];
  dir_mtimes = [];
  aborted = false;
}

-- The file is written below the destination, the other entry is refused.
two_run : extract_all willing (holding two) options fresh ≡ (two_world, ok two_report)
unfolding extract_all extract_loop take_entry extract_one extract_at extract_file read_entry
    write_chunks tick notify perform attempt lift apply_mtime apply_mode set_dir_mtimes parent_of
    choose_dest common_root root_loop subset_from is_skipped safe_join join_loop push
    needs_separator components lead split pieces piece equal from_utf8_lossy
two_run = refl

extract_all-IsSafe_example :
    IsSafe
      (components (choose_dest options two).0)
      (extract_all willing (holding two) options fresh).0
extract_all-IsSafe_example = extract_all-IsSafe willing (holding two) options two refl two-IsPlaced

extract_all_accounted_example : 1 + 1 ≡ length (subset_from options 0 two)
extract_all_accounted_example =
    extract_all_accounted willing (holding two) options two fresh two_world two_report refl two_run
      refl

fork_in-sidecar_bytes_example : fork_in (sidecar_bytes (1 ∷ 2 ∷ 3 ∷ [])) 2 ≡ some (1 ∷ 2 ∷ 3 ∷ [])
fork_in-sidecar_bytes_example = fork_in-sidecar_bytes (1 ∷ 2 ∷ 3 ∷ []) (omega arith)

-- The link "x" to ".", then "x/y", which is made at "y", to "..", then the file "y/e".
abbrev chain : List Entry
chain =
    entry (b'x' ∷ []) (EntryKind.symlink (b'.' ∷ []))
    ∷ entry (b'x' ∷ b'/' ∷ b'y' ∷ []) (EntryKind.symlink (b'.' ∷ b'.' ∷ []))
    ∷ entry (b'y' ∷ b'/' ∷ b'e' ∷ []) EntryKind.file
    ∷ []

-- All three are accepted: once the links are followed, the file lies beside the destination.
chain_run :
    (extract_all willing (holding chain) options fresh).1
    ≡ ok (record { extracted = 3; failed = []; wrapped = false; aborted = false })
unfolding extract_all extract_loop take_entry extract_one extract_at extract_file extract_symlink
    read_entry write_chunks tick notify perform attempt lift apply_mtime apply_mode
    apply_symlink_mtime set_dir_mtimes parent_of choose_dest common_root root_loop subset_from
    is_skipped safe_join join_loop safe_symlink_target depth_loop count_normal push needs_separator
    components lead split pieces piece equal from_utf8_lossy
chain_run = refl
