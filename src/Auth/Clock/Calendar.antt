-- ===== src/Auth/Clock/Calendar.antt =====
-- `civil_from_days` of src/auth/mod.rs, for days that are not before 1970.
pub mod Dates
use evorule_rule.Prelude.{ℕ, ◌+◌, ◌-◌, ◌*◌, ◌/◌, ◌%◌, ltb, leb, if◌then◌else◌}

-- A year, a month from 1 to 12 and a day from 1.
pub record Civil : Type 0 where
  pub year : ℕ
  pub month : ℕ
  pub day : ℕ

-- `yoe`: the year of a day in its cycle of 400 years, which begins in March.
unfoldable pub year_of_era : ℕ → ℕ
year_of_era doe = (doe - doe / 1460 + doe / 36524 - doe / 146096) / 365

-- `doy`: the day in that year.
unfoldable pub day_of_year : ℕ → ℕ → ℕ
day_of_year doe yoe = doe - (365 * yoe + yoe / 4 - yoe / 100)

-- `mp`, `d` and `m`, where a year begins in March.
unfoldable pub in_year : (y doy : ℕ) → Civil
in_year y doy =
    let mp = (5 * doy + 2) / 153 in
    let d = doy - (153 * mp + 2) / 5 + 1 in
    let m = if ltb mp 10 then mp + 3 else mp - 9 in
    record { year = if leb m 2 then y + 1 else y; month = m; day = d }

unfoldable pub civil_from_days : ℕ → Civil
unfolding year_of_era day_of_year in_year
civil_from_days days =
    let z = days + 719468 in
    let era = z / 146097 in
    let doe = z % 146097 in
    let yoe = year_of_era doe in in_year (yoe + era * 400) (day_of_year doe yoe)
