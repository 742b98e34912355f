-- ===== src/Datetime.antt =====
-- src/datetime.rs: timestamps of the archive formats as `SystemTime`.
pub mod Calendar
pub mod Dos
mod Tests
use newtua_core.Base.{
  ltb, leb, ◌==◌, if◌then◌else◌, ℕ, ◌+◌, ◌-◌, ◌*◌, ◌/◌, ◌%◌, ◌^◌, min, Bool, not, ◌&&◌, ◌||◌,
  Option, none, some,
}
use newtua_core.Base.Int.{ℤ, pos, negsuc, as_i32}

-- A `SystemTime` at or after the Unix epoch, as seconds and nanoseconds since it.
pub record SystemTime : Type 0 where
  pub secs : ℕ
  pub nanos : ℕ

-- `SystemTime::UNIX_EPOCH + Duration::from_secs(s)`
abbrev pub at_secs : ℕ → SystemTime
at_secs s = record { secs = s; nanos = 0 }

unfoldable pub unix_secs_to_systime : ℕ → Option SystemTime
unix_secs_to_systime secs = if not (secs == 0) then some (at_secs secs) else none

-- The FILETIME of the Unix epoch.
abbrev pub epoch_diff_100ns : ℕ
epoch_diff_100ns = 116_444_736_000_000_000

unfoldable pub filetime_to_systime : ℕ → Option SystemTime
filetime_to_systime ticks =
    if ticks == 0
    then none
    else if ltb ticks epoch_diff_100ns
    then none
    else (let unix_100ns : ℕ = ticks - epoch_diff_100ns in
        some (record { secs = unix_100ns / 10_000_000; nanos = unix_100ns % 10_000_000 * 100 }))

-- Whether a month and a day are ones that a calendar can show.
abbrev pub in_range : ℕ → ℕ → ℕ → Bool
in_range lo hi n = leb lo n && leb n hi

-- `doe`: the day of an era of 400 years that begin in March.
unfoldable pub day_of_era : ℕ → ℕ → ℕ → ℕ
day_of_era yoe m d =
    yoe * 365 + yoe / 4 - yoe / 100 + ((153 * (if ltb 2 m then m - 3 else m + 9) + 2) / 5 + d - 1)

abbrev pub since_epoch : ℕ → Option ℕ
since_epoch days = if ltb days 719_468 then none else some (days - 719_468)

-- `y` is the year that begins in March.
unfoldable pub days_of_march_year : ℕ → ℕ → ℕ → Option ℕ
days_of_march_year y m d =
    let era : ℕ = y / 400 in since_epoch (era * 146_097 + day_of_era (y - era * 400) m d)

-- `days_from_civil`, on the years that `civil_to_systime` lets through, which are not negative.
unfoldable pub days_from_civil : ℕ → ℕ → ℕ → Option ℕ
days_from_civil year m d = days_of_march_year (if leb m 2 then year - 1 else year) m d

-- A day of the era as year of the era, month and day.
unfoldable pub civil_of_era : ℕ → ℕ × ℕ × ℕ
civil_of_era doe =
    let yoe : ℕ = (doe - doe / 1460 + doe / 36524 - doe / 146_096) / 365 in
    let doy : ℕ = doe - (365 * yoe + yoe / 4 - yoe / 100) in
    let mp : ℕ = (5 * doy + 2) / 153 in
    let d : ℕ = doy - (153 * mp + 2) / 5 + 1 in (yoe, if ltb mp 10 then mp + 3 else mp - 9, d)

-- `civil_from_days`, on the days that `local_unix_secs_to_systime` gives it, which are not negative.
unfoldable pub civil_from_days : ℕ → ℤ × ℕ × ℕ
civil_from_days days =
    let z : ℕ = days + 719_468 in
    let era : ℕ = z / 146_097 in
    let (yoe, m, d) = civil_of_era (z - era * 146_097) in
    (as_i32 (yoe + era * 400 + (if leb m 2 then 1 else 0)), m, d)

abbrev pub seconds : ℕ → ℕ → ℕ → ℕ → ℕ
seconds days hour min sec = days * 86400 + hour * 3600 + min * 60 + sec

abbrev pub systime_of_days : Option ℕ → ℕ → ℕ → ℕ → Option SystemTime
systime_of_days none hour min sec = none
systime_of_days (some days) hour min sec = some (at_secs (seconds days hour min sec))

unfoldable pub civil_to_systime : ℤ → ℕ → ℕ → ℕ → ℕ → ℕ → Option SystemTime
civil_to_systime (negsuc n) month day hour min sec = none
civil_to_systime (pos year) month day hour min sec =
    if ltb year 1970 || not (in_range 1 12 month) || not (in_range 1 31 day)
    then none
    else systime_of_days (days_from_civil year month day) hour min sec

-- What `libc::tm` is filled with, before `tm_year - 1900` and `tm_mon - 1`.
pub record Tm : Type 0 where
  pub year : ℕ
  pub month : ℕ
  pub day : ℕ
  pub hour : ℕ
  pub min : ℕ
  pub sec : ℕ

-- The C library's `mktime` on the local zone's database: `none` is a negative result.
module _ (mktime : Tm → Option ℕ) where
  abbrev pub systime_or : SystemTime → Option ℕ → SystemTime
  systime_or utc none = utc
  systime_or utc (some secs) = at_secs secs

  abbrev local_or_none : Tm → Option SystemTime → Option SystemTime
  local_or_none tm none = none
  local_or_none tm (some utc) = some (systime_or utc (mktime tm))

  -- The Unix branch.
  unfoldable pub local_civil_to_systime : ℤ → ℕ → ℕ → ℕ → ℕ → ℕ → Option SystemTime
  unfolding civil_to_systime
  local_civil_to_systime (negsuc n) month day hour min sec = none
  local_civil_to_systime (pos year) month day hour min sec =
      if ltb year 1970 || not (in_range 1 12 month) || not (in_range 1 31 day)
      then none
      else local_or_none
          (record { year = year; month = month; day = day; hour = hour; min = min; sec = sec })
          (civil_to_systime (pos year) month day hour min sec)

  unfoldable pub local_unix_secs_to_systime : ℕ → Option SystemTime
  local_unix_secs_to_systime secs =
      let days : ℕ = secs / 86_400 in
      let rem : ℕ = secs % 86_400 in
      let (y, m, d) = civil_from_days days in
      local_civil_to_systime y m d (rem / 3600) (rem % 3600 / 60) (rem % 60)

  -- `>> k` is `/ 2 ^ k`, and a mask of k ones is `% 2 ^ k`.
  unfoldable pub dos_words_to_systime : ℕ → ℕ → Option SystemTime
  dos_words_to_systime date time =
      if date == 0
      then none
      else (let year : ℕ = 1980 + date / 2 ^ 9 in
          let month : ℕ = date / 2 ^ 5 % 2 ^ 4 in
          let day : ℕ = date % 2 ^ 5 in
          let hour : ℕ = time / 2 ^ 11 in
          let min : ℕ = time / 2 ^ 5 % 2 ^ 6 in
          let sec : ℕ = time % 2 ^ 5 * 2 in
          if ltb 23 hour || ltb 59 min || ltb 59 sec
          then none
          else local_civil_to_systime (pos year) month day hour min sec)
