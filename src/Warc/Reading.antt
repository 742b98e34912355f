-- ===== src/Warc/Reading.antt =====
-- src/format/warc.rs: the entries of the records, and reading one.
use newtua_core.Archive.Confidence
use newtua_core.Archive.Confidence.{Confidence as Level}
use newtua_core.Base.{
  if◌then◌else◌, length, get_elem?, ℕ, Bool, true, false, ◌||◌, Option, none, some, List, [], ◌∷◌,
  ◌++◌,
}
use newtua_core.Base.Bytes.{Bytes}
use newtua_core.Base.Text.{starts_with, ends_with, lowercase, decimal}
use newtua_core.Error.{Error, corrupt, invalid_index, Result, err}
use newtua_core.Archive.{EntryKind, Entry}
use newtua_core.Datetime.{SystemTime}
use newtua_core.Detect.Copy.{copy_slice_exact}
use newtua_core.Warc.Names.{uri_to_path, Seen, dedup_path, strip_http_headers}
use newtua_core.Base.Str.{Parsed, panics, absent, found}
use newtua_core.Warc.Dates.{parse_warc_date}

pub data RecordType : Type 0 where
  response resource other_type : RecordType

-- A record of the `warc` crate.
pub record Record : Type 0 where
  pub warc_type : RecordType
  pub target_uri : Option Bytes
  pub date : Option Bytes
  pub body : Bytes

-- The temporary file with the bodies, the entries, the place of each body, and the names so far.
pub record WarcReader : Type 0 where
  pub entries : List Entry
  pub offsets : List (ℕ × ℕ)
  pub src : Bytes
  pub seen_paths : Seen

pub data Opened : Type 0 where
  opened : WarcReader → Opened
  failed : Error → Opened
  panicked : Opened

-- "record-"
abbrev record_prefix : Bytes
record_prefix = b'r' ∷ b'e' ∷ b'c' ∷ b'o' ∷ b'r' ∷ b'd' ∷ b'-' ∷ []

abbrev pub base_name : Option Bytes → ℕ → Bytes
base_name (some uri) n = uri_to_path uri
base_name none n = record_prefix ++ decimal n

abbrev pub opt_date : Option Bytes → Parsed SystemTime
opt_date none = absent
opt_date (some date) = parse_warc_date date

abbrev pub payload_of : RecordType → Bytes → Bytes
payload_of response body = strip_http_headers body
payload_of resource body = body
payload_of other_type body = body

unfoldable pub entry_of : Bytes → ℕ → Option SystemTime → Entry
entry_of entry_name size modified = record {
  path_raw = entry_name;
  path = entry_name;
  kind = EntryKind.file;
  size = size;
  mode = none;
  is_encrypted = false;
  modified = modified;
  is_resource_fork = false;
}

unfoldable pub with_entry : WarcReader → Record → Option SystemTime → WarcReader
with_entry st rec modified =
    let (entry_name, seen) =
      dedup_path (base_name rec.target_uri (length st.entries)) st.seen_paths in
    let payload = payload_of rec.warc_type rec.body in
    record {
      entries = st.entries ++ entry_of entry_name (length payload) modified ∷ [];
      offsets = st.offsets ++ (length st.src, length payload) ∷ [];
      src = st.src ++ payload;
      seen_paths = seen;
    }

abbrev pub is_kept : RecordType → Bool
is_kept response = true
is_kept resource = true
is_kept other_type = false

abbrev pub on_date : Parsed SystemTime → WarcReader → Record → (WarcReader → Opened) → Opened
on_date panics st rec more = panicked
on_date absent st rec more = more (with_entry st rec none)
on_date (found t) st rec more = more (with_entry st rec (some t))

-- The loop of `open` over what the crate gives: a record, or none for an error.
unfoldable pub open_loop : List (Option Record) → WarcReader → Opened
open_loop [] st = opened st
open_loop (none ∷ recs) st = failed (corrupt "")
open_loop (some rec ∷ recs) st =
    let skipped = open_loop recs st in
    if is_kept rec.warc_type then on_date (opt_date rec.date) st rec (open_loop recs) else skipped

abbrev pub empty_reader : WarcReader
empty_reader = record { entries = []; offsets = []; src = []; seen_paths = [] }

unfoldable pub open_records : List (Option Record) → Opened
open_records recs = open_loop recs empty_reader

-- "WARC/1."
abbrev warc_magic : Bytes
warc_magic = b'W' ∷ b'A' ∷ b'R' ∷ b'C' ∷ b'/' ∷ b'1' ∷ b'.' ∷ []

-- ".warc" and ".warc.gz"
abbrev warc_suffix : Bytes
warc_suffix = b'.' ∷ b'w' ∷ b'a' ∷ b'r' ∷ b'c' ∷ []

abbrev warc_gz_suffix : Bytes
warc_gz_suffix = b'.' ∷ b'w' ∷ b'a' ∷ b'r' ∷ b'c' ∷ b'.' ∷ b'g' ∷ b'z' ∷ []

abbrev named_warc : Option Bytes → Bool
named_warc none = false
named_warc (some n) = ends_with (lowercase n) warc_suffix || ends_with (lowercase n) warc_gz_suffix

unfoldable pub probe : Bytes → Option Bytes → Level
probe header name =
    if starts_with header warc_magic
    then Confidence.magic
    else if named_warc name
    then Confidence.magic
    else Confidence.none

abbrev path_is_gz : Option Bytes → Bool
path_is_gz none = false
path_is_gz (some n) = ends_with (lowercase n) warc_gz_suffix

-- The decoder of gzip streams, and the reader of records.
module _ (multi_gz_decoder : Bytes → Bytes) (iter_records : Bytes → List (Option Record)) where
  unfoldable pub open_source : Option Bytes → Bytes → Opened
  open_source file_name inner =
      open_records (iter_records (if path_is_gz file_name then multi_gz_decoder inner else inner))

abbrev pub read_slot : Bytes → ℕ → Option (ℕ × ℕ) → Bytes × Result (Unit {0})
read_slot src idx none = ([], err (invalid_index idx))
read_slot src idx (some (offset, size)) = copy_slice_exact src offset size "warc"

unfoldable pub read_entry : WarcReader → ℕ → Bytes × Result (Unit {0})
read_entry reader idx = read_slot reader.src idx (get_elem? reader.offsets idx)
