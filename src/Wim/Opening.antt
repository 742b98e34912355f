-- ===== src/Wim/Opening.antt =====
-- src/format/wim.rs: the handler and the reader.
pub mod Bodies
use newtua_core.Base.{
  ltb, if◌then◌else◌, length, get_elem?, take, ℕ, Bool, false, ◌||◌, Option, none, some, List, [],
  ◌∷◌,
}
use newtua_core.Base.Bytes.{Bytes}
use newtua_core.Base.Text.{starts_with, ends_with, lowercase}
use newtua_core.Archive.{Entry}
use newtua_core.Archive.Confidence
use newtua_core.Archive.Confidence.{Confidence as Level}
use newtua_core.Error.{unexpected_eof, unsupported, corrupt, invalid_index, io_err_to_corrupt}
use newtua_core.Error.Run.{Run, done, failed, ◌>>=◌, of_result}
use newtua_core.Wim.Fields.{
  magic, header_len, Compressor, ResourceHeader, WimHeader, is_metadata, spanned, parse_header,
  LookupEntry, parse_lookup_table,
}
use newtua_core.Wim.Chunks.{Codecs, read_resource}
use newtua_core.Wim.Tree.{Lookup, Listed, build_dir_tree}

-- ".wim", ".esd" and ".swm"
abbrev pub has_extension : Bytes → Bool
has_extension lower =
    ends_with lower (b'.' ∷ b'w' ∷ b'i' ∷ b'm' ∷ [])
    || ends_with lower (b'.' ∷ b'e' ∷ b's' ∷ b'd' ∷ [])
    || ends_with lower (b'.' ∷ b's' ∷ b'w' ∷ b'm' ∷ [])

abbrev pub name_matches : Option Bytes → Bool
name_matches none = false
name_matches (some name) = has_extension (lowercase name)

unfoldable pub probe : Bytes → Option Bytes → Level
probe header name =
    if starts_with header magic || name_matches name then Confidence.magic else Confidence.none

-- The first metadata resource of the table, and the map of the others.
abbrev pub or_first : Option ResourceHeader → ResourceHeader → Option ResourceHeader
or_first none rh = some rh
or_first (some first) rh = some first

unfoldable pub sort_entries :
    List LookupEntry → Option ResourceHeader → Lookup → Option ResourceHeader × Lookup
sort_entries [] metadata lookup = (metadata, lookup)
sort_entries (e ∷ es) metadata lookup =
    if is_metadata e.resource
    then sort_entries es (or_first metadata e.resource) lookup
    else sort_entries es metadata ((e.hash, e.resource) ∷ lookup)

pub record WimReader : Type 0 where
  pub inner : Bytes
  pub chunk_size : ℕ
  pub compressor : Option Compressor
  pub entries : List Entry
  pub bodies : List (Option ResourceHeader)

abbrev pub reader_of : Bytes → WimHeader → Listed → WimReader
reader_of file header (entries, bodies) = record {
  inner = file;
  chunk_size = header.chunk_size;
  compressor = header.compressor;
  entries = entries;
  bodies = bodies;
}

module _ (codecs : Codecs) where
  abbrev pub with_metadata : Bytes → ℕ → WimHeader → Option ResourceHeader × Lookup → Run WimReader
  with_metadata file fuel header (none, lookup) =
      failed (corrupt "wim: no metadata resource found in the lookup table")
  with_metadata file fuel header (some rh, lookup) =
      read_resource codecs file header.chunk_size header.compressor rh >>= λ meta.
      of_result (build_dir_tree meta lookup fuel) >>= λ listed. done (reader_of file header listed)

  abbrev pub with_header : Bytes → ℕ → WimHeader → Run WimReader
  with_header file fuel header =
      if spanned header
      then failed (unsupported "wim" "multi-volume WIM / .swm")
      else read_resource codecs file header.chunk_size header.compressor header.offset_table
        >>= λ lookup_bytes. of_result (parse_lookup_table lookup_bytes) >>= λ table.
            with_metadata file fuel header (sort_entries table none [])

  -- `open`, on the bytes of a seekable source; the fuel is that of the walk.
  unfoldable pub open_wim : Bytes → ℕ → Run WimReader
  open_wim file fuel =
      if ltb (length file) header_len
      then failed (io_err_to_corrupt unexpected_eof)
      else of_result (parse_header (take header_len file)) >>= with_header file fuel

  abbrev pub body_bytes : WimReader → ℕ → Option (Option ResourceHeader) → Run Bytes
  body_bytes reader idx none = failed (invalid_index idx)
  body_bytes reader idx (some none) = done []
  body_bytes reader idx (some (some rh)) =
      read_resource codecs reader.inner reader.chunk_size reader.compressor rh

  -- `read_entry`: what it writes to `out`.
  unfoldable pub read_entry : WimReader → ℕ → Run Bytes
  read_entry reader idx = body_bytes reader idx (get_elem? reader.bodies idx)
