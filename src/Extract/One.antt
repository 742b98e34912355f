-- ===== src/Extract/One.antt =====
-- src/extract.rs: `extract_one`, one entry put below the destination.
use newtua_core.Extract.World.{
  FsPath, create_dir_all, create, remove_file, write_file, make_symlink, set_permissions,
  set_file_mtime, set_symlink_file_times, World, Env, ArchiveReader, M, ◌>>=◌, ◌>>◌, lift, pure,
  perform, attempt, read_entry,
}
use newtua_core.Base.{
  ltb, if◌then◌else◌, length, ℕ, ◌%◌, ◌^◌, Bool, true, false, Option, none, some, List, [], ◌∷◌,
  ◌++◌,
}
use newtua_core.Base.Bytes.{Bytes}
use newtua_core.Error.{Error, unsupported, corrupt, Result, ok, err, stuck, guard}
use newtua_core.Archive.{EntryKind, Entry}
use newtua_core.Datetime.{SystemTime}
use newtua_core.PathSafety.{safe_join, safe_symlink_target}
use newtua_core.PathSafety.Paths.{Component, root_dir, normal, components}
use newtua_core.Macos.{file_name}
use newtua_core.Extract.AppleDouble.{sidecar_bytes}

abbrev pub in_front : Component → Option FsPath → Option FsPath
in_front c none = none
in_front c (some p) = some (c ∷ p)

-- `Path::parent`
unfoldable pub parent_of : FsPath → Option FsPath
parent_of [] = none
parent_of (root_dir ∷ []) = none
parent_of (c ∷ []) = some []
parent_of (c ∷ d ∷ cs) = in_front c (parent_of (d ∷ cs))

-- `Path::with_file_name`, on a path that has a file name.
unfoldable pub with_file_name : FsPath → Bytes → FsPath
with_file_name [] name = normal name ∷ []
with_file_name (c ∷ []) name = normal name ∷ []
with_file_name (c ∷ d ∷ cs) name = c ∷ with_file_name (d ∷ cs) name

abbrev pub create_parent : Env → Option FsPath → M (Unit {0})
create_parent env none = pure tt
create_parent env (some p) = perform env (create_dir_all p)

unfoldable pub apply_mtime : FsPath → Option SystemTime → M (Unit {0})
apply_mtime path none = pure tt
apply_mtime path (some t) = attempt (set_file_mtime path t)

unfoldable pub apply_symlink_mtime : FsPath → Option SystemTime → M (Unit {0})
apply_symlink_mtime path none = pure tt
apply_symlink_mtime path (some t) = attempt (set_symlink_file_times path t)

unfoldable pub apply_mode : FsPath → Option ℕ → M (Unit {0})
apply_mode path none = pure tt
apply_mode path (some m) = attempt (set_permissions path (m % 2 ^ 12))

-- `if preserve { … }`
abbrev pub when : Bool → M (Unit {0}) → M (Unit {0})
when false m = pure tt
when true m = m

unfoldable pub push_dir_mtime : FsPath → Option SystemTime → M (Unit {0})
push_dir_mtime path modified w =
    (record w { dir_mtimes = w.dir_mtimes ++ (path, modified) ∷ [] }, ok tt)

unfoldable pub extract_dir : Env → Entry → FsPath → Bool → M (Unit {0})
extract_dir env entry target preserve = do
  perform env (create_dir_all target)
  when preserve (apply_mode target entry.mode)
  push_dir_mtime target entry.modified

unfoldable pub extract_symlink : Env → Entry → Bytes → Bytes → FsPath → Bool → M (Unit {0})
extract_symlink env entry dest link_target target preserve = do
  lift (safe_symlink_target dest entry.path link_target)
  create_parent env (parent_of target)
  perform env (make_symlink link_target target)
  when preserve (apply_symlink_mtime target entry.modified)

-- A file that could not be written whole is removed again; an abort is then no failure.
abbrev pub drop_partial : FsPath → Error → World → World × Result (Unit {0})
drop_partial target e w =
    let (w', _) = attempt (remove_file target) w in (w', if w'.aborted then ok tt else err e)

abbrev pub finish_file :
    Entry → FsPath → Bool → World × Result (Unit {0}) → World × Result (Unit {0})
finish_file entry target preserve (w, ok _) =
    when preserve (apply_mode target entry.mode >> apply_mtime target entry.modified) w
finish_file entry target preserve (w, err e) = drop_partial target e w
finish_file entry target preserve (w, stuck) = (w, stuck)

abbrev pub read_into : Env → ArchiveReader → ℕ → Entry → FsPath → Bool → M (Unit {0})
read_into env reader idx entry target preserve w =
    finish_file entry target preserve (read_entry env reader idx target w)

unfoldable pub extract_file : Env → ArchiveReader → ℕ → Entry → FsPath → Bool → M (Unit {0})
extract_file env reader idx entry target preserve = do
  create_parent env (parent_of target)
  perform env (create target)
  read_into env reader idx entry target preserve

abbrev pub concat : List Bytes → Bytes
concat [] = []
concat (c ∷ cs) = c ++ concat cs

abbrev pub or_nameless : Option Bytes → Result Bytes
or_nameless none = err (corrupt "resource fork entry has no file name")
or_nameless (some name) = ok name

-- The branch for systems other than macOS.
unfoldable pub write_resource_fork : Env → ArchiveReader → ℕ → Entry → FsPath → Bool → M (Unit {0})
write_resource_fork env reader idx entry target preserve = do
  create_parent env (parent_of target)
  lift (reader.outcome idx)
  let fork = concat (reader.chunks idx)
  lift (
      guard (ltb (length fork) (2 ^ 32))
        (unsupported "resource fork" "fork larger than 4 GiB in an AppleDouble sidecar"))
  name ← lift (or_nameless (file_name target))
  let sidecar = with_file_name target (b'.' ∷ b'_' ∷ name)
  perform env (write_file sidecar (sidecar_bytes fork))
  when preserve (apply_mtime sidecar entry.modified)

abbrev pub extract_kind :
    Env → ArchiveReader → ℕ → Entry → Bytes → FsPath → Bool → EntryKind → M (Unit {0})
extract_kind env reader idx entry dest target preserve EntryKind.dir =
    extract_dir env entry target preserve
extract_kind env reader idx entry dest target preserve (EntryKind.symlink link_target) =
    extract_symlink env entry dest link_target target preserve
extract_kind env reader idx entry dest target preserve EntryKind.file =
    extract_file env reader idx entry target preserve

unfoldable pub extract_at : Env → ArchiveReader → ℕ → Entry → Bytes → Bool → FsPath → M (Unit {0})
extract_at env reader idx entry dest preserve target =
    if entry.is_resource_fork
    then write_resource_fork env reader idx entry target preserve
    else extract_kind env reader idx entry dest target preserve entry.kind

unfoldable pub extract_one : Env → ArchiveReader → ℕ → Entry → Bytes → Bool → M (Unit {0})
extract_one env reader idx entry dest preserve = do
  target ← lift (safe_join dest entry.path)
  extract_at env reader idx entry dest preserve (components target)
