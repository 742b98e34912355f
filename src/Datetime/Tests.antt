-- ===== src/Datetime/Tests.antt =====
-- Runs of src/datetime.rs on single times.
use newtua_core.Base.{ℕ, ◌≤◌, ◌≡◌, refl, true, Option, none, some, arith}
use newtua_core.Base.Int.{pos}
use newtua_core.Datetime.{
  in_range, day_of_era, days_of_march_year, days_from_civil, civil_from_days, Tm,
}
use newtua_core.Datetime.Calendar.{days_from_civil-civil_from_days}

-- 29 February 2000
leap_day : days_from_civil 2000 2 29 ≡ some 11_016
unfolding days_from_civil days_of_march_year day_of_era
leap_day = refl

-- A C library whose calls fail.
abbrev failing : Tm → Option ℕ
failing tm = none

days_from_civil-civil_from_days_example :
    (n m d : ℕ) × (civil_from_days 11_016 ≡ (pos n, m, d))
    × (1970 ≤ n)
    × (in_range 1 12 m ≡ true)
    × (in_range 1 31 d ≡ true)
    × (days_from_civil n m d ≡ some 11_016)
days_from_civil-civil_from_days_example = days_from_civil-civil_from_days 11_016 (omega arith)
