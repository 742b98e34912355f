-- ===== src/Ar.antt =====
-- src/format/ar.rs: the handler of ar archives. The members are what the ar crate gives.
pub mod Members
use newtua_core.Base.{
  leb, if◌then◌else◌, length, get_elem?, ℕ, ◌%◌, ◌^◌, false, Option, none, some, List, [], ◌∷◌, map,
}
use newtua_core.Base.Bytes.{Bytes}
use newtua_core.Base.Text.{starts_with}
use newtua_core.Archive.{EntryKind, Entry, OpenOptions}
use newtua_core.Datetime.{SystemTime, at_secs}
use newtua_core.Encoding.{Codecs, decode_names}
use newtua_core.Error.{ErrorKind, invalid_index, Result, ok, err, ◌>>=◌, io_err_to_corrupt}
use newtua_core.Archive.Confidence
use newtua_core.Archive.Confidence.{Confidence as Level}

-- A member: the fields of its header that are read, and its bytes.
pub record Member : Type 0 where
  pub identifier : Bytes
  pub mode : ℕ
  pub mtime : ℕ
  pub size : ℕ
  pub body : Bytes

-- What `next_entry` gives.
pub data Step : Type 0 where
  member : Member → Step
  broken : ErrorKind → Step

abbrev pub arch_magic : Bytes
arch_magic = b'!' ∷ b'<' ∷ b'a' ∷ b'r' ∷ b'c' ∷ b'h' ∷ b'>' ∷ 10 ∷ []

unfoldable pub probe : Bytes → Level
probe header = if starts_with header arch_magic then Confidence.magic else Confidence.none

abbrev pub unix_secs_to_systime : ℕ → SystemTime
unix_secs_to_systime secs = at_secs secs

-- The first pass; an error ends it.
unfoldable pub read_headers : List Step → Result (List Member)
read_headers [] = ok []
read_headers (broken e ∷ steps) = err (io_err_to_corrupt e)
read_headers (member m ∷ steps) = read_headers steps >>= λ ms. ok (m ∷ ms)

unfoldable pub entry_of : Member → Bytes → Entry
entry_of m name = record {
  path_raw = m.identifier;
  path = name;
  kind = EntryKind.file;
  size = m.size;
  mode = some (m.mode % 2 ^ 12);
  is_encrypted = false;
  modified = some (unix_secs_to_systime m.mtime);
  is_resource_fork = false;
}

-- One entry for each member and its name.
unfoldable pub zip_entries : List Member → List Bytes → List Entry
zip_entries [] names = []
zip_entries (m ∷ ms) [] = []
zip_entries (m ∷ ms) (name ∷ names) = entry_of m name ∷ zip_entries ms names

pub record ArReader : Type 0 where
  pub archive : List Member
  pub entries : List Entry

-- `open`, on the members of a source that can seek.
unfoldable pub open_ar : Codecs → List Step → OpenOptions → Result ArReader
open_ar c steps opts = read_headers steps >>= λ ms. ok (record {
  archive = ms;
  entries =
      zip_entries ms
        (decode_names c (map (λ (m : Member). m.identifier) ms) opts.encoding_override);
})

abbrev pub body_of : Option Member → Bytes
body_of none = []
body_of (some m) = m.body

-- `jump_to_entry` gives the member of that number, of which there is one for each entry.
unfoldable pub read_entry : ArReader → ℕ → Result Bytes
read_entry reader idx =
    if leb (length reader.entries) idx
    then err (invalid_index idx)
    else ok (body_of (get_elem? reader.archive idx))
