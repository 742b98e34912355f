-- ===== src/Warc/Dates.antt =====
-- src/format/warc.rs: `parse_warc_date`.
use newtua_core.Base.{ltb, if◌then◌else◌, length}
use newtua_core.Base.Bytes.{Bytes}
use newtua_core.Base.Str.{
  Parsed, absent, ◌>>=◌, trim, str_slice, or_absent, parse_signed, number_in,
}
use newtua_core.Datetime.{SystemTime, civil_to_systime}

unfoldable pub parse_warc_date : Bytes → Parsed SystemTime
parse_warc_date date_str =
    let s = trim date_str in
    if ltb (length s) 20
    then absent
    else (str_slice s 0 4 >>= λ t. or_absent (parse_signed t) >>= λ year.
        number_in s 5 7 >>= λ month. number_in s 8 10 >>= λ day. number_in s 11 13 >>= λ hour.
        number_in s 14 16 >>= λ minute.
        number_in s 17 19 >>= λ sec. or_absent (civil_to_systime year month day hour minute sec))
