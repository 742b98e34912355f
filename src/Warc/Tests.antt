-- ===== src/Warc/Tests.antt =====
-- Runs of src/format/warc.rs on small records.
use newtua_core.Base.{
  equal, ◌≡◌, refl, ap, ◌∙◌, true, false, Option, none, some, List, [], ◌∷◌, ◌++◌,
}
use newtua_core.Base.Bytes.{Bytes}
use newtua_core.Base.Text.{strip_prefix, split_once, join_with, decimal}
use newtua_core.Base.Utf8.{is_utf8}
use newtua_core.Error.{ok}
use newtua_core.PathSafety.{safe_join}
use newtua_core.PathSafety.Paths.{split}
use newtua_core.PathSafety.Raw.{is_refused}
use newtua_core.Datetime.{day_of_era, days_of_march_year, days_from_civil, civil_to_systime}
use newtua_core.Warc.Names.{
  without_qs, kept_segments, uri_to_path, Seen, seen_count, seen_again, dedup_path, separator,
  strip_http_headers,
}
use newtua_core.Base.Str.{
  panics, found, without_one_of, trim_start, reversed, trim, digits_value, parse_unsigned,
  parse_signed,
}
use newtua_core.Warc.Dates.{parse_warc_date}
use newtua_core.Warc.Reading.{
  RecordType, response, resource, other_type, Record, WarcReader, opened, entry_of, with_entry,
  open_loop, open_records, read_entry,
}
use newtua_core.Warc.Bodies.{strip_http_headers-first}
use newtua_core.Warc.Safety.{has_none, is_backslash, uri_to_path-safe_join}
use newtua_core.Warc.Places.{payloads, read_entry-payloads}

-- "h://e/../b?q"
abbrev uri : Bytes
uri = b'h' ∷ b':' ∷ b'/' ∷ b'/' ∷ b'e' ∷ b'/' ∷ b'.' ∷ b'.' ∷ b'/' ∷ b'b' ∷ b'?' ∷ b'q' ∷ []

-- "e/_/b"
uri-named : uri_to_path uri ≡ b'e' ∷ b'/' ∷ b'_' ∷ b'/' ∷ b'b' ∷ []
unfolding uri_to_path without_qs split_once strip_prefix kept_segments split equal join_with
uri-named = refl

uri-plain : has_none is_backslash (without_qs uri) ≡ true
unfolding has_none without_qs split_once strip_prefix
uri-plain = refl

uri_to_path-safe_join_example : is_refused (safe_join (b'/' ∷ []) (uri_to_path uri)) ≡ false
uri_to_path-safe_join_example =
    uri_to_path-safe_join (b'/' ∷ []) uri uri-plain (ap is_utf8 uri-named ∙ unfold is_utf8 in refl)

-- "H" and a body that has a separator of its own.
strip_http_headers-first_example :
    strip_http_headers (b'H' ∷ separator ++ b'b' ∷ separator) ≡ b'b' ∷ separator
strip_http_headers-first_example =
    strip_http_headers-first (b'H' ∷ []) (b'b' ∷ separator) (unfold split_once strip_prefix in refl)

abbrev page : RecordType → Bytes → Option Record
page t body = some (record { warc_type = t; target_uri = some uri; date = none; body = body })

abbrev pages : List (Option Record)
pages =
    page resource (1 ∷ 2 ∷ [])
    ∷ page other_type (3 ∷ [])
    ∷ page response (b'H' ∷ separator ++ 7 ∷ [])
    ∷ []

abbrev pages_reader : WarcReader
pages_reader = record {
  entries =
      entry_of (b'e' ∷ b'/' ∷ b'_' ∷ b'/' ∷ b'b' ∷ []) 2 none
      ∷ entry_of (b'e' ∷ b'/' ∷ b'_' ∷ b'/' ∷ b'b' ∷ b'-' ∷ b'1' ∷ []) 1 none
      ∷ [];
  offsets = (0, 2) ∷ (2, 1) ∷ [];
  src = 1 ∷ 2 ∷ 7 ∷ [];
  seen_paths = (b'e' ∷ b'/' ∷ b'_' ∷ b'/' ∷ b'b' ∷ [], 2) ∷ [];
}

pages_opened : open_records pages ≡ opened pages_reader
unfolding open_records open_loop with_entry entry_of dedup_path seen_count seen_again decimal
    strip_http_headers uri_to_path without_qs split_once strip_prefix kept_segments split equal
    join_with
pages_opened = refl

read_entry-payloads_example : read_entry pages_reader 1 ≡ (7 ∷ [], ok tt)
read_entry-payloads_example =
    read_entry-payloads pages pages_reader 1 (7 ∷ []) pages_opened
      (unfold payloads strip_http_headers split_once strip_prefix in refl)

-- The names "a", "a" and "a-1", one after the other: the last two entries have the same name.
abbrev second : Bytes × Seen
second = dedup_path (b'a' ∷ []) (dedup_path (b'a' ∷ []) []).1

names_collide : second.0 ≡ (dedup_path (b'a' ∷ b'-' ∷ b'1' ∷ []) second.1).0
unfolding dedup_path seen_count seen_again equal decimal
names_collide = refl

-- "200é-01-02T03:04:05Z", cut within the letter of two bytes.
date_panics :
    parse_warc_date (
      b'2' ∷ b'0' ∷ b'0' ∷ 0xc3 ∷ 0xa9 ∷ b'-' ∷ b'0' ∷ b'1' ∷ b'-' ∷ b'0' ∷ b'2' ∷ b'T' ∷ b'0'
      ∷ b'3' ∷ b':' ∷ b'0' ∷ b'4' ∷ b':' ∷ b'0' ∷ b'5' ∷ b'Z' ∷ [])
    ≡ panics
unfolding parse_warc_date trim trim_start without_one_of reversed strip_prefix
date_panics = refl

-- "2024-01-02T03:04:05Z" with white space around it.
date_read :
    parse_warc_date (
      32 ∷ b'2' ∷ b'0' ∷ b'2' ∷ b'4' ∷ b'-' ∷ b'0' ∷ b'1' ∷ b'-' ∷ b'0' ∷ b'2' ∷ b'T' ∷ b'0' ∷ b'3'
      ∷ b':' ∷ b'0' ∷ b'4' ∷ b':' ∷ b'0' ∷ b'5' ∷ b'Z' ∷ 0xc2 ∷ 0xa0 ∷ [])
    ≡ found (record { secs = 1_704_164_645; nanos = 0 })
unfolding parse_warc_date trim trim_start without_one_of reversed strip_prefix digits_value
    parse_unsigned parse_signed civil_to_systime days_from_civil days_of_march_year day_of_era
date_read = refl
