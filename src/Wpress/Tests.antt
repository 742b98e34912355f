-- ===== src/Wpress/Tests.antt =====
-- Runs of src/format/wpress.rs on a dump of one file.
use newtua_core.Base.{
  equal, length, take, drop, replicate, ◌+◌, ◌≤◌, ◌<◌, ◌≡◌, refl, true, none, [], ◌∷◌, ◌++◌,
}
use newtua_core.Base.Bytes.{Bytes}
use newtua_core.Base.Utf8.{is_utf8}
use newtua_core.Error.{ok, Ensures}
use newtua_core.Encoding.{Codecs, all_utf8, detected, resolve_label, resolve_encoding, decode_names}
use newtua_core.Archive.{OpenOptions}
use newtua_core.PathSafety.{safe_join, any_dot_dot, raw_path_escapes}
use newtua_core.PathSafety.Raw.{is_refused}
use newtua_core.Wpress.Fields.{
  all_zero, text_field, trim_ascii_end, all_digits, parse_u64, decimal_field, has_byte,
  parse_header, strip_dots, join_raw,
}
use newtua_core.Cpio.Fields.{checked_push, trim_end}
use newtua_core.PathSafety.Paths.{split}
use newtua_core.Wpress.Walk.{
  read_block, add_offset, round, walk, scan, entry_of, build_loop, WpressReader, build_reader,
  open_seekable, read_entry,
}
use newtua_core.Wpress.Bounds.{RecordsFit, scan-RecordsFit}
use newtua_core.Wpress.Reading.{entry_of-refused, read_entry-whole}

-- Names that are taken as they stand.
abbrev as_they_stand : Codecs
as_they_stand = record {
  Encoding = Unit {0};
  Detector = Unit {0};
  for_label = λ label. none;
  utf_8 = tt;
  name = λ e. [];
  decode = λ e b. b;
  new = tt;
  feed = λ d b last. tt;
  guess = λ d. tt;
}

abbrev no_options : OpenOptions
no_options = record { password = none; encoding_override = none }

-- A file "a" of three bytes.
abbrev dump : Bytes
dump =
    b'a' ∷ replicate 254 0
    ++ (b'3' ∷ replicate 13 0
        ++ (replicate 12 0 ++ (replicate 4096 0 ++ (b'x' ∷ b'y' ∷ b'z' ∷ []))))

abbrev dump_reader : WpressReader
dump_reader = record {
  src = dump;
  entries =
      entry_of (b'a' ∷ []) (b'a' ∷ []) (record { offset = 4377; size = 3; mtime = none }) ∷ [];
  bodies = (4377, 3) ∷ [];
}

dump-opens : open_seekable as_they_stand dump no_options ≡ ok dump_reader
unfolding open_seekable scan walk round read_block all_zero parse_header text_field decimal_field
    trim_ascii_end all_digits parse_u64 checked_push has_byte join_raw strip_dots trim_end
    add_offset build_reader build_loop equal decode_names resolve_encoding resolve_label detected
    all_utf8
dump-opens = refl

read_entry-whole_example :
    (read_entry dump_reader 0 ≡ (take 3 (drop 4377 dump), ok tt)) × (4377 + 3 ≤ length dump)
read_entry-whole_example =
    read_entry-whole as_they_stand dump no_options dump_reader 0 4377 3 dump-opens refl

scan-RecordsFit_example : Ensures (λ l. RecordsFit 4380 l × (0 < length l.1)) (scan dump 4380)
scan-RecordsFit_example = scan-RecordsFit dump 4380

-- "../a"
abbrev outside : Bytes
outside = b'.' ∷ b'.' ∷ b'/' ∷ b'a' ∷ []

entry_of-refused_example :
    is_refused (
      safe_join
        (b'd' ∷ [])
        (entry_of outside (b'a' ∷ []) (record { offset = 0; size = 0; mtime = none })).path)
    ≡ true
entry_of-refused_example =
    entry_of-refused (b'd' ∷ []) outside (b'a' ∷ []) (record { offset = 0; size = 0; mtime = none })
      (unfold is_utf8 in refl) (unfold raw_path_escapes any_dot_dot split equal in refl)
