-- ===== src/Wpress/Walk.antt =====
-- src/format/wpress.rs: the walk over the records, the entries, and reading one.
use newtua_core.Base.{
  ltb, ◌==◌, if◌then◌else◌, length, get_elem?, get_or, take, drop, ℕ, zero, suc, ◌+◌, ◌-◌, String,
  Bool, true, false, not, Option, none, some, List, [], ◌∷◌,
}
use newtua_core.Base.Bytes.{Bytes, u64_mod}
use newtua_core.Base.Utf8.{from_utf8_lossy}
use newtua_core.Error.{
  unexpected_eof, io, unknown_format, corrupt, invalid_index, Result, ok, err, stuck, ◌>>=◌,
}
use newtua_core.Archive.{EntryKind, Entry, OpenOptions}
use newtua_core.Encoding.{Codecs, decode_names}
use newtua_core.Datetime.{SystemTime, unix_secs_to_systime}
use newtua_core.PathSafety.{raw_path_escapes}
use newtua_core.Wpress.Fields.{header_len, all_zero, RawHeader, parse_header, join_raw}

pub record Record : Type 0 where
  pub offset : ℕ
  pub size : ℕ
  pub mtime : Option ℕ

abbrev pub Records : Type 0
Records = List Bytes × List Record

unfoldable pub corrupt_or_unknown {ℓ} : {A : Type ℓ} → Bool → String → Result A
corrupt_or_unknown first_record message =
    if first_record then err unknown_format else err (corrupt message)

-- A `read_exact` at the place that the loop has reached.
unfoldable pub read_block : Bytes → ℕ → ℕ → Result Bytes
read_block src pos n =
    let got : Bytes = take n (drop pos src) in
    if length got == n then ok got else err (io unexpected_eof)

-- `checked_add` on u64
unfoldable pub add_offset : ℕ → ℕ → String → Result ℕ
add_offset a b message = if ltb (a + b) u64_mod then ok (a + b) else err (corrupt message)

-- What a round comes to: the end of the archive, or a record and the place behind its body.
pub data Round : Type 0 where
  finished : Round
  pushed : Bytes → Record → ℕ → Round

abbrev pub body_round : ℕ → RawHeader → ℕ → Bool → ℕ → Result Round
body_round file_len h body_off first next =
    if ltb file_len next
    then corrupt_or_unknown first "wpress: body runs past the end of the file"
    else ok (
        pushed (join_raw h.prefix h.name)
          (record { offset = body_off; size = h.size; mtime = h.mtime }) next)

abbrev pub header_round : ℕ → ℕ → Bool → Option RawHeader → Result Round
header_round file_len pos first none = corrupt_or_unknown first "wpress: unparsable record header"
header_round file_len pos first (some h) = do
  body_off ← add_offset pos header_len "wpress: header offset overflow"
  next ← add_offset body_off h.size "wpress: body size overflows the offset"
  body_round file_len h body_off first next

abbrev pub tail_round : Bool → Bytes → Result Round
tail_round first tail =
    if all_zero tail then ok finished else corrupt_or_unknown first "wpress: truncated header"

abbrev pub block_round : ℕ → ℕ → Bool → Bytes → Result Round
block_round file_len pos first block =
    if all_zero block then ok finished else header_round file_len pos first (parse_header block)

-- One round of the loop; `first` is `records.is_empty()`.
unfoldable pub round : Bytes → ℕ → ℕ → Bool → Result Round
round src file_len pos first =
    let remaining : ℕ = file_len - pos in
    if remaining == 0
    then ok finished
    else if ltb remaining header_len
    then read_block src pos remaining >>= tail_round first
    else (read_block src pos header_len >>= block_round file_len pos first)

abbrev pub continue_with : (ℕ → Result Records) → Round → Result Records
continue_with go finished = ok ([], [])
continue_with go (pushed path r next) = go next >>= λ rest. ok (path ∷ rest.0, r ∷ rest.1)

unfoldable pub walk : Bytes → ℕ → ℕ → ℕ → Bool → Result Records
walk src file_len zero pos first = stuck
walk src file_len (suc fuel) pos first =
    round src file_len pos first >>= continue_with (λ next. walk src file_len fuel next false)

abbrev pub known_if_any : Records → Result Records
known_if_any (paths, []) = err unknown_format
known_if_any (paths, r ∷ rs) = ok (paths, r ∷ rs)

-- A record takes bytes of the file, so a round more than the file has bytes is fuel enough.
unfoldable pub scan : Bytes → ℕ → Result Records
scan src file_len = walk src file_len (file_len + 1) 0 true >>= known_if_any

abbrev pub opt_time : Option ℕ → Option SystemTime
opt_time none = none
opt_time (some secs) = unix_secs_to_systime secs

-- The entry of a raw path and its decoded name: a path that leads out keeps its own bytes.
unfoldable pub entry_of : Bytes → Bytes → Record → Entry
entry_of raw_path name rec = record {
  path_raw = raw_path;
  path = if raw_path_escapes raw_path then from_utf8_lossy raw_path else name;
  kind = EntryKind.file;
  size = rec.size;
  mode = none;
  is_encrypted = false;
  modified = opt_time rec.mtime;
  is_resource_fork = false;
}

unfoldable pub build_loop : ℕ → List Bytes → List Record → List Bytes → List Entry × List (ℕ × ℕ)
build_loop i (raw ∷ raws) (rec ∷ recs) names =
    let (es, bs) = build_loop (suc i) raws recs names in
    (entry_of raw (get_or names i []) rec ∷ es, (rec.offset, rec.size) ∷ bs)
build_loop i _ _ names = ([], [])

pub record WpressReader : Type 0 where
  pub src : Bytes
  pub entries : List Entry
  pub bodies : List (ℕ × ℕ)

module _ (c : Codecs) where
  unfoldable pub build_reader : Bytes → List Bytes → List Record → OpenOptions → WpressReader
  build_reader inner raw_names records opts =
      let built =
        build_loop 0 raw_names records (decode_names c raw_names opts.encoding_override) in
      record { src = inner; entries = built.0; bodies = built.1 }

  unfoldable pub open_seekable : Bytes → OpenOptions → Result WpressReader
  open_seekable inner opts = do
    (raw_paths, records) ← scan inner (length inner)
    ok (build_reader inner raw_paths records opts)

abbrev pub read_slot : Bytes → ℕ → Option (ℕ × ℕ) → Bytes × Result (Unit {0})
read_slot src idx none = ([], err (invalid_index idx))
read_slot src idx (some (offset, size)) =
    if size == 0
    then ([], ok tt)
    else (let copied : Bytes = take size (drop offset src) in
        (
          copied,
          if not (length copied == size) then err (corrupt "wpress: truncated body") else ok tt,
        ))

unfoldable pub read_entry : WpressReader → ℕ → Bytes × Result (Unit {0})
read_entry reader idx = read_slot reader.src idx (get_elem? reader.bodies idx)
