-- ===== src/Auth/Clock/Calendar/Dates.antt =====
-- The dates that `civil_from_days` computes are those of the calendar.
use evorule_rule.Prelude.{
  ℕ, zero, suc, ◌+◌, ◌-◌, ◌*◌, ◌/◌, ◌%◌, ◌≤◌, ◌<◌, ◌≡◌, refl, arith, Bool, false, not, ◌||◌, ◌&&◌,
  ◌==◌, leb, if◌then◌else◌,
}
use evorule_rule.Auth.Clock.Calendar.{Civil, year_of_era, day_of_year, in_year, civil_from_days}

pub is_leap : ℕ → Bool
is_leap y = (y % 400 == 0) || (not (y % 100 == 0) && (y % 4 == 0))

-- The days from the first of January of the year 0 to that of a year, year by year.
pub days_before_year : ℕ → ℕ
days_before_year zero = 0
days_before_year (suc y) = days_before_year y + (if is_leap y then 366 else 365)

-- Long months and short ones take turns up to July, and anew from August on.
pub month_days : ℕ → ℕ → ℕ
month_days y m =
    if m == 2 then (if is_leap y then 29 else 28) else if leb m 7 then 30 + m % 2 else 31 - m % 2

-- The days of a year before the first of a month: those of each month from January on.
pub days_before_month : ℕ → ℕ → ℕ
days_before_month y zero = 0
days_before_month y (suc m) = days_before_month y m + (if m == 0 then 0 else month_days y m)

closed : (y : ℕ) → days_before_year (suc y) ≡ 366 + 365 * y + y / 4 - y / 100 + y / 400
unfolding days_before_year is_leap
closed zero = refl
closed (suc y) = ground (arith, closed y)

-- The days before the first of March.
to_march : ℕ → ℕ
to_march y = 365 * y + y / 4 - y / 100 + y / 400 + 60

to_march_lem : (y : ℕ) → days_before_year y + (if is_leap y then 60 else 59) ≡ to_march y
unfolding days_before_year is_leap to_march
to_march_lem zero = refl
to_march_lem (suc y) = ground (arith, closed y)

-- The year of the era begins at the day or before it, and the next one after it.
era_from :
    (doe : ℕ)
    → doe < 146097
    → 365 * year_of_era doe + year_of_era doe / 4 - year_of_era doe / 100 ≤ doe
unfolding year_of_era
era_from doe h = omega arith

era_to :
    (doe : ℕ)
    → doe < 146097
    → year_of_era doe < 399
    → doe < 365 * (year_of_era doe + 1) + (year_of_era doe + 1) / 4 - (year_of_era doe + 1) / 100
unfolding year_of_era
era_to doe h l = omega arith

era_last : (doe : ℕ) → doe < 146097 → year_of_era doe ≤ 399
unfolding year_of_era
era_last doe h = omega arith

-- A date of the calendar, and its number from the first day of the year 0.
pub record IsDate (c : Civil) (n : ℕ) : Type 0 where
  pub month_from : 1 ≤ c.month
  pub month_to : c.month ≤ 12
  pub day_from : 1 ≤ c.day
  pub day_to : c.day ≤ month_days c.year c.month
  pub number : days_before_year c.year + days_before_month c.year c.month + c.day ≡ n + 1

-- Each of the twelve months, the first of which is March.
months :
    (y doy mp : ℕ)
    → (5 * doy + 2) / 153 ≡ mp
    → doy ≤ 365
    → (is_leap (suc y) ≡ false → doy ≤ 364)
    → let c = in_year y doy in
      (1 ≤ c.month)
      × (c.month ≤ 12)
      × (1 ≤ c.day)
      × (c.day ≤ month_days c.year c.month)
      × (days_before_year c.year + days_before_month c.year c.month + c.day ≡ to_march y + doy + 1)
unfolding in_year month_days days_before_month days_before_year
months y doy zero e h l = ground (arith, e, h, l, to_march_lem y, to_march_lem (y + 1))
months y doy (suc zero) e h l = ground (arith, e, h, l, to_march_lem y, to_march_lem (y + 1))
months y doy (suc (suc zero)) e h l = ground (arith, e, h, l, to_march_lem y, to_march_lem (y + 1))
months y doy (suc (suc (suc zero))) e h l =
    ground (arith, e, h, l, to_march_lem y, to_march_lem (y + 1))
months y doy (suc (suc (suc (suc zero)))) e h l =
    ground (arith, e, h, l, to_march_lem y, to_march_lem (y + 1))
months y doy (suc (suc (suc (suc (suc zero))))) e h l =
    ground (arith, e, h, l, to_march_lem y, to_march_lem (y + 1))
months y doy (suc (suc (suc (suc (suc (suc zero)))))) e h l =
    ground (arith, e, h, l, to_march_lem y, to_march_lem (y + 1))
months y doy (suc (suc (suc (suc (suc (suc (suc zero))))))) e h l =
    ground (arith, e, h, l, to_march_lem y, to_march_lem (y + 1))
months y doy (suc (suc (suc (suc (suc (suc (suc (suc zero)))))))) e h l =
    ground (arith, e, h, l, to_march_lem y, to_march_lem (y + 1))
months y doy (suc (suc (suc (suc (suc (suc (suc (suc (suc zero))))))))) e h l =
    ground (arith, e, h, l, to_march_lem y, to_march_lem (y + 1))
months y doy (suc (suc (suc (suc (suc (suc (suc (suc (suc (suc zero)))))))))) e h l =
    ground (arith, e, h, l, to_march_lem y, to_march_lem (y + 1))
months y doy (suc (suc (suc (suc (suc (suc (suc (suc (suc (suc (suc zero))))))))))) e h l =
    ground (arith, e, h, l, to_march_lem y, to_march_lem (y + 1))
months y doy (suc (suc (suc (suc (suc (suc (suc (suc (suc (suc (suc (suc n)))))))))))) e h l =
    absurd (omega (arith, e))

-- The last day of a year that begins in March is a 29th of February.
last_day :
    (doe : ℕ) (era : ℕ)
    → doe < 146097
    → let y = year_of_era doe + era * 400 in
      (day_of_year doe (year_of_era doe) ≤ 365)
      × (is_leap (suc y) ≡ false → day_of_year doe (year_of_era doe) ≤ 364)
unfolding day_of_year is_leap
last_day doe era h = ground (arith, h, era_from doe h, era_last doe h, era_to doe h)

-- The date of a day is one of the calendar, and its number is that of the day: 719528 days lie between
-- the first day of the year 0 and that of 1970.
pub civil_from_days-IsDate : (days : ℕ) → IsDate (civil_from_days days) (days + 719528)
unfolding civil_from_days to_march day_of_year
civil_from_days-IsDate days =
    let z = days + 719468 in
    let era = z / 146097 in
    let doe = z % 146097 in
    let yoe = year_of_era doe in
    let bound : doe < 146097 = omega arith in
    let l = last_day doe era bound in
    let m = months (yoe + era * 400) (day_of_year doe yoe) _ refl l.0 l.1 in
    record {
      month_from = m.0;
      month_to = m.1;
      day_from = m.2;
      day_to = m.3;
      number = omega (arith, m.4, era_from doe bound, era_last doe bound);
    }
