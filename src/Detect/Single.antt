-- ===== src/Detect/Single.antt =====
-- src/detect.rs: `open_single`, one file by its name and content.
use newtua_core.Base.{
  ltb, leb, ◌==◌, if◌then◌else◌, equal, length, get_elem?, take, drop, ℕ, Bool, false, not, ◌&&◌,
  ◌||◌, Option, none, some, List, [], ◌∷◌,
}
use newtua_core.Base.Bytes.{Bytes, from_le}
use newtua_core.Base.Text.{starts_with, ends_with, lowercase}
use newtua_core.Error.{unknown_format, invalid_index, Result, ok, err, stuck, ◌>>=◌}
use newtua_core.Archive.{FormatId, EntryKind, Entry, OpenOptions}
use newtua_core.Archive.Confidence.{Confidence}
use newtua_core.Datetime.{SystemTime, at_secs}
use newtua_core.Cpio.Fields.{magic_len, is_supported_magic}
use newtua_core.Volume.Members.{text_or_none, or_empty}
use newtua_core.Dmg.Fields.{has_koly_trailer}
use newtua_core.Detect.Compressors.{
  Compressor, gzip, detect_compressor, detect_compressor_by_ext, or_else,
  stem_without_compressor_ext,
}
use newtua_core.Detect.Choice.{best_loop}

-- A file: its name, which need not be text, and its bytes.
pub record File : Type 0 where
  pub name : Option Bytes
  pub bytes : Bytes

-- An open archive. A `TempBackedReader` is the reader that it holds.
pub record Reader : Type 0 where
  pub format : FormatId
  pub entries : List Entry
  pub read_entry : ℕ → Bytes × Result (Unit {0})
  pub verify_password : Result (Unit {0})

abbrev pub Open : Type 0
Open = File → OpenOptions → Result Reader

pub record Handler : Type 0 where
  pub probe : Bytes → Option Bytes → Confidence
  pub open_file : Open

-- What opening calls: the handlers, the tests of two of them, the decoders of whole streams, and
-- the name that a temporary file is given.
pub record Parts : Type 0 where
  pub registry : List Handler
  pub warc : Open
  pub dmg : Open
  pub tar : Open
  pub cpio : Open
  pub iso : Open
  pub hfs_plus : Open
  pub zip : Open
  pub nsis : Bytes → OpenOptions → Result Reader
  pub has_iso_signature : Bytes → Bool
  pub has_hfsplus_signature : Bytes → Bool
  pub decompressor : Compressor → Bytes → Result Bytes
  pub temp_name : Option Bytes

-- "ustar"
abbrev pub ustar : Bytes
ustar = b'u' ∷ b's' ∷ b't' ∷ b'a' ∷ b'r' ∷ []

unfoldable pub is_tar : Bytes → Bool
is_tar bytes = leb 263 (length (take 263 bytes)) && equal (take 5 (drop 257 bytes)) ustar

unfoldable pub is_cpio : Bytes → Bool
is_cpio bytes =
    length (take magic_len bytes) == magic_len && is_supported_magic (take magic_len bytes)

unfoldable pub read_gz_mtime : Bytes → Option SystemTime
read_gz_mtime bytes =
    if ltb (length (take 8 bytes)) 8
    then none
    else (let mtime : ℕ = from_le (take 4 (drop 4 bytes)) in
        if mtime == 0 then none else some (at_secs mtime))

unfoldable pub read_single : Bytes → ℕ → Bytes × Result (Unit {0})
read_single tmp idx = if not (idx == 0) then ([], err (invalid_index idx)) else (tmp, ok tt)

-- `SingleFileReader::new`
unfoldable pub single_file_reader : Option Bytes → Bytes → Option SystemTime → Reader
single_file_reader original tmp modified = record {
  format = FormatId.raw;
  entries =
      record {
        path_raw = stem_without_compressor_ext original;
        path = stem_without_compressor_ext original;
        kind = EntryKind.file;
        size = length tmp;
        mode = none;
        is_encrypted = false;
        modified = modified;
        is_resource_fork = false;
      }
      ∷ [];
  read_entry = read_single tmp;
  verify_password = ok tt;
}

abbrev pub gz_mtime_if : Compressor → Bytes → Option SystemTime
gz_mtime_if gzip bytes = read_gz_mtime bytes
gz_mtime_if _ bytes = none

-- ".warc", ".warc.gz" and ".dmg"
abbrev pub warc_suffix : Bytes
warc_suffix = b'.' ∷ b'w' ∷ b'a' ∷ b'r' ∷ b'c' ∷ []

abbrev pub warc_gz_suffix : Bytes
warc_gz_suffix = b'.' ∷ b'w' ∷ b'a' ∷ b'r' ∷ b'c' ∷ b'.' ∷ b'g' ∷ b'z' ∷ []

abbrev pub dmg_suffix : Bytes
dmg_suffix = b'.' ∷ b'd' ∷ b'm' ∷ b'g' ∷ []

-- "MZ"
abbrev pub mz : Bytes
mz = b'M' ∷ b'Z' ∷ []

unfoldable pub confidences : List Handler → Bytes → Option Bytes → List Confidence
confidences [] header name = []
confidences (h ∷ hs) header name = h.probe header name ∷ confidences hs header name

-- `peek_header(512)`
abbrev pub header_of : File → Bytes
header_of file = take 512 file.bytes

abbrev pub lower_name : File → Bytes
lower_name file = lowercase (or_empty (text_or_none file.name))

unfoldable pub compressor_of : File → Option Compressor
compressor_of file =
    or_else (detect_compressor (header_of file)) (detect_compressor_by_ext (lower_name file))

unfoldable pub is_warc_name : File → Bool
is_warc_name file =
    ends_with (lower_name file) warc_suffix || ends_with (lower_name file) warc_gz_suffix

unfoldable pub is_dmg : File → Bool
is_dmg file = ends_with (lower_name file) dmg_suffix || has_koly_trailer file.bytes

module _ (parts : Parts) (opts : OpenOptions) where
  abbrev pub temp_file : Bytes → File
  temp_file bytes = record { name = parts.temp_name; bytes = bytes }

  -- What is inside a compressed file.
  unfoldable pub open_payload : File → Compressor → Bytes → Result Reader
  open_payload file comp tmp =
      if is_tar tmp
      then parts.tar (temp_file tmp) opts
      else if is_cpio tmp
      then parts.cpio (temp_file tmp) opts
      else ok (single_file_reader file.name tmp (gz_mtime_if comp file.bytes))

  -- A `MZ` file that is no NSIS installer goes on.
  abbrev pub unless_unknown : Result Reader → Result Reader → Result Reader
  unless_unknown (ok reader) more = ok reader
  unless_unknown (err unknown_format) more = more
  unless_unknown (err e) more = err e
  unless_unknown stuck more = stuck

  -- The index is one of the registry, so the last case does not come up.
  abbrev pub open_nth : File → Option Handler → Result Reader
  open_nth file (some h) = h.open_file file opts
  open_nth file none = stuck

  abbrev pub open_best : File → Option (Confidence × ℕ) → Result Reader
  open_best file (some (_, idx)) = open_nth file (get_elem? parts.registry idx)
  open_best file none =
      if parts.has_iso_signature file.bytes
      then parts.iso file opts
      else if parts.has_hfsplus_signature file.bytes
      then parts.hfs_plus file opts
      else err unknown_format

  unfoldable pub open_container : File → Result Reader
  open_container file =
      open_best file
        (best_loop 0 (confidences parts.registry (header_of file) (text_or_none file.name)) none)

  abbrev pub open_unwrapped : File → Option Compressor → Result Reader
  open_unwrapped file (some comp) = parts.decompressor comp file.bytes >>= open_payload file comp
  open_unwrapped file none =
      if starts_with (header_of file) mz
      then unless_unknown (parts.nsis file.bytes opts) (open_container file)
      else open_container file

  unfoldable pub open_single : File → Result Reader
  open_single file =
      if is_warc_name file
      then parts.warc file opts
      else if is_dmg file
      then parts.dmg file opts
      else open_unwrapped file (compressor_of file)
