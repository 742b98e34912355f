-- ===== src/Wim/Tree.antt =====
-- src/format/wim.rs: the directory tree of a metadata resource.
pub mod Listing
pub mod Walks
pub mod Pairs
use newtua_core.Base.{
  ◌==◌, if◌then◌else◌, equal, replicate, ℕ, zero, suc, false, Option, none, some, List, [], ◌∷◌,
  ◌++◌,
}
use newtua_core.Base.Bytes.{Bytes}
use newtua_core.Base.Utf8.{from_utf8_lossy}
use newtua_core.Archive.{EntryKind, Entry}
use newtua_core.PathSafety.Paths.{push}
use newtua_core.Error.{corrupt, Result, ok, err, stuck, ◌>>=◌}
use newtua_core.Wim.Fields.{ResourceHeader}
use newtua_core.Wim.Dentry.{RawDentry, security_block_len, parse_dirent}

-- The map of hashes: a later insertion stands in front.
abbrev pub Lookup : Type 0
Lookup = List (Bytes × ResourceHeader)

unfoldable pub find_hash : Lookup → Bytes → Option ResourceHeader
find_hash [] hash = none
find_hash ((key, rh) ∷ rest) hash =
    let more = find_hash rest hash in if equal key hash then some rh else more

-- What the walk pushes onto `entries` and onto `bodies`.
abbrev pub Listed : Type 0
Listed = List Entry × List (Option ResourceHeader)

abbrev pub zero_hash : Bytes
zero_hash = replicate 20 0

abbrev pub found_body : Option ResourceHeader → Result (Option ResourceHeader)
found_body none = err (corrupt "wim: dirent references a hash absent from the lookup table")
found_body (some rh) = ok (some rh)

unfoldable pub body_of : Lookup → RawDentry → Result (Option ResourceHeader)
body_of lookup d =
    if d.is_dir
    then ok none
    else if equal d.hash zero_hash
    then ok none
    else found_body (find_hash lookup d.hash)

abbrev pub size_of : Option ResourceHeader → ℕ
size_of none = 0
size_of (some rh) = rh.original_size

unfoldable pub entry_of : Bytes → RawDentry → Option ResourceHeader → Entry
entry_of path d body = record {
  path_raw = from_utf8_lossy path;
  path = path;
  kind = if d.is_dir then EntryKind.dir else EntryKind.file;
  size = size_of body;
  mode = d.mode;
  is_encrypted = false;
  modified = d.modified;
  is_resource_fork = false;
}

abbrev pub joined : Listed → Listed → Listed
joined (es, bs) (fs, cs) = (es ++ fs, bs ++ cs)

abbrev pub children_of : (ℕ → Bytes → Result Listed) → ℕ → Bytes → Result Listed
children_of walk subdir path = if subdir == 0 then ok ([], []) else walk subdir path

-- An entry, what lies below it, and its siblings behind it.
abbrev pub on_dirent :
    Lookup → (ℕ → Bytes → Result Listed) → Bytes → Option (RawDentry × ℕ) → Result Listed
on_dirent lookup walk parent none = ok ([], [])
on_dirent lookup walk parent (some (d, next)) = body_of lookup d >>= λ body.
    children_of walk d.subdir_offset (push parent d.name) >>= λ below. walk next parent >>= λ rest.
    ok (joined (entry_of (push parent d.name) d body ∷ [], body ∷ []) (joined below rest))

-- Nothing in the source bounds the walk. The recursion into a directory and the next round of the
-- loop each take one of the fuel.
unfoldable pub walk_children : Bytes → Lookup → ℕ → ℕ → Bytes → Result Listed
walk_children meta lookup zero off parent = stuck
walk_children meta lookup (suc fuel) off parent =
    parse_dirent meta off >>= on_dirent lookup (walk_children meta lookup fuel) parent

abbrev pub on_root : Bytes → Lookup → ℕ → Option (RawDentry × ℕ) → Result Listed
on_root meta lookup fuel none = ok ([], [])
on_root meta lookup fuel (some (root, next)) =
    children_of (walk_children meta lookup fuel) root.subdir_offset []

unfoldable pub build_dir_tree : Bytes → Lookup → ℕ → Result Listed
build_dir_tree meta lookup fuel =
    security_block_len meta >>= λ sec_len. parse_dirent meta sec_len >>= on_root meta lookup fuel
