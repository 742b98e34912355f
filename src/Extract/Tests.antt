-- ===== src/Extract/Tests.antt =====
-- Runs of src/extract.rs on two entries below one directory.
use newtua_core.Base.{equal, All, ◌≡◌, refl, true, false, none, some, List, [], ◌∷◌}
use newtua_core.Base.Bytes.{Bytes}
use newtua_core.Base.Utf8.{from_utf8_lossy, is_utf8}
use newtua_core.Archive.{EntryKind, Entry}
use newtua_core.PathSafety.Paths.{split, piece, pieces, lead, components}
use newtua_core.Macos.{file_name, any_macosx, is_apple_double, is_metadata_name, is_macos_metadata}
use newtua_core.Extract.{root_loop, common_root}
use newtua_core.Extract.Root.{IsUnder, any_deeper}

abbrev entry : Bytes → EntryKind → Entry
entry path kind = record {
  path_raw = path;
  path = path;
  kind = kind;
  size = 0;
  mode = none;
  is_encrypted = false;
  modified = none;
  is_resource_fork = false;
}

-- "d/x"
abbrev inner_file : Entry
inner_file = entry (b'd' ∷ b'/' ∷ b'x' ∷ []) EntryKind.file

-- "d"
abbrev outer_dir : Entry
outer_dir = entry (b'd' ∷ []) EntryKind.dir

abbrev two_entries : List Entry
two_entries = inner_file ∷ outer_dir ∷ []

two_entries-IsUnder : All (IsUnder (b'd' ∷ [])) two_entries
unfolding components lead split pieces piece equal from_utf8_lossy
two_entries-IsUnder = (refl, (refl, tt))

two_entries-deeper : any_deeper two_entries ≡ true
unfolding any_deeper components lead split pieces piece equal
two_entries-deeper = refl

-- "d/._x"
sidecar : is_macos_metadata (b'd' ∷ b'/' ∷ b'.' ∷ b'_' ∷ b'x' ∷ []) ≡ true
unfolding is_macos_metadata any_macosx is_metadata_name file_name is_apple_double components lead
    split pieces piece equal is_utf8
sidecar = refl

two_entries-root : common_root two_entries ≡ some (b'd' ∷ [])
unfolding common_root root_loop components lead split pieces piece equal from_utf8_lossy
two_entries-root = refl
