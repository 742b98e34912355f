-- ===== src/Datetime/Calendar.antt =====
-- `days_from_civil` and `civil_from_days` of src/datetime.rs are inverse.
use newtua_core.Base.Int.{pos, as_i32}
use newtua_core.Base.{
  ltb, leb, ◌==◌, if◌then◌else◌, ℕ, ◌+◌, ◌-◌, ◌*◌, ◌/◌, ◌^◌, ◌≤◌, ◌<◌, ◌≡◌, refl, ap, ◌∙◌, Bool,
  true, ◌&&◌, some, arith,
}
use newtua_core.Base.Table.{all_below, all_below_sound}
use newtua_core.Datetime.{
  in_range, day_of_era, since_epoch, days_of_march_year, days_from_civil, civil_of_era,
  civil_from_days,
}

era_day_checks : ℕ → Bool
era_day_checks doe =
    let (yoe, m, d) = civil_of_era doe in
    ltb yoe 400 && (in_range 1 12 m && (in_range 1 31 d && (day_of_era yoe m d == doe)))

era_day_table : all_below 146_097 era_day_checks ≡ true
unfolding all_below era_day_checks civil_of_era day_of_era
era_day_table = refl

-- What the table says of a day of the era.
record EraDay (doe yoe m d : ℕ) : Type 0 where
  yoe_lt : yoe < 400
  month_pos : 1 ≤ m
  month_le : m ≤ 12
  day_pos : 1 ≤ d
  day_le : d ≤ 31
  same : day_of_era yoe m d ≡ doe

era_day :
    (doe : ℕ)
    → doe < 146_097
    → EraDay doe (civil_of_era doe).0 (civil_of_era doe).1 (civil_of_era doe).2
era_day doe h = unpack (all_below_sound 146_097 era_day_checks doe era_day_table h)
  where
    unpack :
        era_day_checks doe ≡ true
        → EraDay doe (civil_of_era doe).0 (civil_of_era doe).1 (civil_of_era doe).2
    unpack e = unfold era_day_checks in ground arith

days_of_march_year-era :
    (era yoe m d : ℕ)
    → yoe < 400
    → days_of_march_year (yoe + era * 400) m d ≡ since_epoch (era * 146_097 + day_of_era yoe m d)
unfolding days_of_march_year
days_of_march_year-era era yoe m d h =
    let e : (yoe + era * 400) / 400 ≡ era = omega arith in
    let r : yoe + era * 400 - era * 400 ≡ yoe = omega arith in rw (e, r)

-- The civil year of a date whose March year is `y`.
abbrev civil_year : ℕ → ℕ → ℕ
civil_year y m = y + (if leb m 2 then 1 else 0)

days_from_civil-civil_year :
    (y m d : ℕ) → days_from_civil (civil_year y m) m d ≡ days_of_march_year y m d
unfolding days_from_civil
days_from_civil-civil_year y m d = ap (λ z. days_of_march_year z m d) (ground arith)

since_epoch-eq : (n : ℕ) → since_epoch (n + 719_468) ≡ some n
since_epoch-eq n = ground arith

-- Before 1970 no day of an era reaches the epoch.
civil_year-epoch :
    (era yoe m d : ℕ)
    → yoe < 400
    → 1 ≤ m
    → m ≤ 12
    → d ≤ 31
    → 719_468 ≤ era * 146_097 + day_of_era yoe m d
    → 1970 ≤ civil_year (yoe + era * 400) m
unfolding day_of_era
civil_year-epoch era yoe m d h p q r s = ground arith

as_i32-small : (n : ℕ) → n < 2 ^ 31 → as_i32 n ≡ pos n
as_i32-small n h = ground arith

civil_year_small :
    (era yoe m : ℕ) → yoe < 400 → era < 5_368_000 → civil_year (yoe + era * 400) m < 2 ^ 31
civil_year_small era yoe m h k = ground arith

pub in_range-of_le : (lo hi n : ℕ) → lo ≤ n → n ≤ hi → in_range lo hi n ≡ true
in_range-of_le lo hi n h k = ground arith

-- Every day below 784 thousand million days after the epoch has a civil date, of a year from 1970
-- on and with month and day in range, and `days_from_civil` takes that date back to the day.
pub days_from_civil-civil_from_days :
    (days : ℕ)
    → days < 784_000_000_000
    → (n m d : ℕ) × (civil_from_days days ≡ (pos n, m, d))
      × (1970 ≤ n)
      × (in_range 1 12 m ≡ true)
      × (in_range 1 31 d ≡ true)
      × (days_from_civil n m d ≡ some days)
unfolding civil_from_days
days_from_civil-civil_from_days days h =
    let era : ℕ = (days + 719_468) / 146_097 in
    let doe : ℕ = days + 719_468 - era * 146_097 in
    let yoe : ℕ = (civil_of_era doe).0 in
    let m : ℕ = (civil_of_era doe).1 in
    let d : ℕ = (civil_of_era doe).2 in
    let day : EraDay doe yoe m d = era_day doe (omega arith) in
    let whole : era * 146_097 + day_of_era yoe m d ≡ days + 719_468 = omega (arith, day.same) in
    (
      civil_year (yoe + era * 400) m,
      m,
      d,
      ap (λ y. (y, m, d))
          (as_i32-small (civil_year (yoe + era * 400) m)
            (civil_year_small era yoe m day.yoe_lt (omega arith))),
      civil_year-epoch era yoe m d day.yoe_lt day.month_pos day.month_le day.day_le
          (omega (arith, whole)),
      in_range-of_le 1 12 m day.month_pos day.month_le,
      in_range-of_le 1 31 d day.day_pos day.day_le,
      days_from_civil-civil_year (yoe + era * 400) m d
          ∙ days_of_march_year-era era yoe m d day.yoe_lt
          ∙ ap since_epoch whole
          ∙ since_epoch-eq days,
    )
