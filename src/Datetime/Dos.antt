-- ===== src/Datetime/Dos.antt =====
-- The packed and counted timestamps of src/datetime.rs.
use newtua_core.Base.{
  le→ltb, ℕ, ◌+◌, ◌-◌, ◌*◌, ◌/◌, ◌%◌, ◌≤◌, ◌<◌, min, ◌≡◌, ap, ◌∙◌, ◌⊎◌, inl, inr, true, Option,
  none, some, arith,
}
use newtua_core.Base.Int.{pos}
use newtua_core.Datetime.{
  SystemTime, at_secs, epoch_diff_100ns, filetime_to_systime, in_range, days_from_civil, seconds,
  Tm, local_civil_to_systime, local_unix_secs_to_systime, dos_words_to_systime,
}
use newtua_core.Datetime.Calendar.{days_from_civil-civil_from_days}

-- A FILETIME at or after the Unix epoch gives a time whose seconds and hundreds of nanoseconds
-- make up the FILETIME with the epoch, and whose nanoseconds are less than a second.
pub filetime_to_systime-exact :
    (ticks : ℕ)
    → epoch_diff_100ns ≤ ticks
    → (t : SystemTime) × (filetime_to_systime ticks ≡ some t)
      × (t.secs * 10_000_000 + t.nanos / 100 + epoch_diff_100ns ≡ ticks)
      × (t.nanos < 1_000_000_000)
unfolding filetime_to_systime
filetime_to_systime-exact ticks k = (
  record {
    secs = (ticks - epoch_diff_100ns) / 10_000_000;
    nanos = (ticks - epoch_diff_100ns) % 10_000_000 * 100;
  },
  ground arith,
  ground arith,
  ground arith,
)

abbrev tm_of : ℕ → ℕ → ℕ → ℕ → ℕ → ℕ → Tm
tm_of n m d hour min sec = record {
  year = n;
  month = m;
  day = d;
  hour = hour;
  min = min;
  sec = sec;
}

module _ (mktime : Tm → Option ℕ) where
  local_civil_to_systime-utc :
      (n m d hour min sec days : ℕ)
      → 1970 ≤ n
      → in_range 1 12 m ≡ true
      → in_range 1 31 d ≡ true
      → days_from_civil n m d ≡ some days
      → (mktime (tm_of n m d hour min sec) ≡ none)
        ⊎ (mktime (tm_of n m d hour min sec) ≡ some (seconds days hour min sec))
      → local_civil_to_systime mktime (pos n) m d hour min sec
        ≡ some (at_secs (seconds days hour min sec))
  unfolding local_civil_to_systime
  local_civil_to_systime-utc n m d hour min sec days late month day back (inl fails) =
      rw (le→ltb n 1970 late, month, day, back, fails)
  local_civil_to_systime-utc n m d hour min sec days late month day back (inr utc) =
      rw (le→ltb n 1970 late, month, day, back, utc)

  -- Where the C library reads every wall clock as UTC, or fails, a count of wall-clock seconds
  -- below 784 thousand million days is taken apart into a civil date and put together again to the
  -- same count.
  pub local_unix_secs_to_systime-utc :
      (secs : ℕ)
      → secs < 784_000_000_000 * 86_400
      → ((tm : Tm) (days : ℕ)
          → days_from_civil tm.year tm.month tm.day ≡ some days
          → (mktime tm ≡ none) ⊎ (mktime tm ≡ some (seconds days tm.hour tm.min tm.sec)))
      → local_unix_secs_to_systime mktime secs ≡ some (at_secs secs)
  unfolding local_unix_secs_to_systime
  local_unix_secs_to_systime-utc secs h zone =
      let (n, m, d, split, year, month, day, back) =
        days_from_civil-civil_from_days (secs / 86_400) (omega arith) in
      rw split (
        local_civil_to_systime-utc n m d _ _ _ (secs / 86_400) year month day back
          (zone _ (secs / 86_400) back)
        ∙ ap (λ s. some (at_secs s)) (omega arith))

  -- A DOS date and time that were packed from a year of 1980 to 2107 and from a month, day, hour,
  -- minute and two-second count in range give the time of just that wall clock.
  pub dos_words_to_systime-packed :
      (year month day hour min half : ℕ)
      → year < 128
      → 1 ≤ month
      → month ≤ 12
      → 1 ≤ day
      → day ≤ 31
      → hour < 24
      → min < 60
      → half < 30
      → dos_words_to_systime mktime (year * 512 + month * 32 + day) (hour * 2048 + min * 32 + half)
        ≡ local_civil_to_systime mktime (pos (1980 + year)) month day hour min (half * 2)
  unfolding dos_words_to_systime
  dos_words_to_systime-packed year month day hour min half a b c d e f g h = ground arith
