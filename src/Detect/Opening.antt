-- ===== src/Detect/Opening.antt =====
-- src/detect.rs: `open`, here `open_archive`, with the volumes of an archive put together.
use newtua_core.Error.{Result, ok, ◌>>=◌}
use newtua_core.Base.{if◌then◌else◌, Bool, Option, none, some, List, [], ◌∷◌, ◌++◌}
use newtua_core.Base.Bytes.{Bytes}
use newtua_core.Base.Text.{ends_with, lowercase}
use newtua_core.Archive.{OpenOptions}
use newtua_core.Macos.{file_name}
use newtua_core.Extract.World.{FsPath}
use newtua_core.Volume.Members.{
  text_or_none, or_empty, first_suffix, volume_members, split_zip_members,
}
use newtua_core.Volume.Join.{join_split_zip}
use newtua_core.Detect.Single.{Reader, Parts, temp_file, open_single}

pub record Disk : Type 0 where
  pub exists : FsPath → Bool
  pub is_file : FsPath → Bool
  pub contents : FsPath → Result Bytes

module _ (disk : Disk) where
  -- The files one after the other; the first that cannot be read ends it.
  unfoldable pub read_all : List FsPath → Result (List Bytes)
  read_all [] = ok []
  read_all (p ∷ ps) = do b ← disk.contents p; bs ← read_all ps; ok (b ∷ bs)

abbrev pub joined : List Bytes → Bytes
joined [] = []
joined (b ∷ bs) = b ++ joined bs

unfoldable pub is_first_volume : FsPath → Bool
is_first_volume path = ends_with (lowercase (or_empty (text_or_none (file_name path)))) first_suffix

module _ (disk : Disk) (parts : Parts) (opts : OpenOptions) where
  unfoldable pub open_path : FsPath → Result Reader
  open_path path = do
    bytes ← disk.contents path
    open_single parts opts (record { name = file_name path; bytes = bytes })

  -- A copy of a `ConcatReader`, which gives the volumes' bytes in their order.
  unfoldable pub open_joined : List FsPath → Result Reader
  open_joined members = do
    volumes ← read_all disk members
    open_single parts opts (temp_file parts opts (joined volumes))

  abbrev pub zip_or : Result Reader → Option Bytes → Result Reader
  zip_or whole none = whole
  zip_or whole (some bytes) = parts.zip (temp_file parts opts bytes) opts

  abbrev pub open_split : FsPath → Option (List FsPath) → Result Reader
  open_split path none = open_path path
  open_split path (some members) = do
    volumes ← read_all disk members
    found ← join_split_zip volumes
    zip_or (open_path path) found

  abbrev pub open_zip_or_single : FsPath → Result Reader
  open_zip_or_single path = split_zip_members disk.is_file path >>= open_split path

  -- A first volume without a second is opened as it is.
  abbrev pub open_members : FsPath → List FsPath → Result Reader
  open_members path (p ∷ q ∷ ps) = open_joined (p ∷ q ∷ ps)
  open_members path members = open_zip_or_single path

  unfoldable pub open_archive : FsPath → Result Reader
  open_archive path =
      if is_first_volume path
      then volume_members disk.exists path >>= open_members path
      else open_zip_or_single path
