-- ===== src/Calendar/Utc/RoundTrip.antt =====
-- A time comes back from its civil form.
use so_l.Common.{
  ℕ, ◌+◌, ◌-◌, ◌*◌, ◌/◌, ◌%◌, ◌≤◌, ◌<◌, ◌≡◌, refl, ap, ◌∙◌, Bool, true, leb, some, [], ◌∷◌, Ensures,
  arith,
}
use so_l.Common.Int.{pos, ◌+ℤ◌, ◌-ℤ◌}
use so_l.Calendar.{YearMonthDay, are_ints, day_number, civil_day, of_ymd, year_month_day}
use so_l.Calendar.RoundTrip.{
  IsCivil, day_number-civil_day, get_julian_day_number-fits, get_year_month_day-fits, days_in_month,
}
use so_l.Calendar.Utc.{julian_day_of_1970_01_01, fill_hms, to_utc_time, seconds_of, from_utc_time}

years_of_epoch :
    (j : ℕ)
    → 2440588 ≤ j
    → j ≤ 536440588
    → (1970 ≤ (civil_day j).year) × ((civil_day j).year ≤ 1465000)
unfolding civil_day
years_of_epoch j h k = (omega arith, omega arith)

first_day-IsCivil : (y : ℕ) → IsCivil (record { year = y; month = 1; day = 1 })
unfolding days_in_month
first_day-IsCivil y = record {
  month_in = (omega arith, omega arith);
  day_in = (omega arith, omega arith);
}

of_ymd-fits :
    (t : YearMonthDay)
    → IsCivil t
    → t.year ≤ 1465000
    → of_ymd t.year t.month t.day
      ≡ some (record { julian_day_number = day_number t.year t.month t.day })
unfolding of_ymd
of_ymd-fits t v h = rw (get_julian_day_number-fits t v h) refl

year_back : (y : ℕ) → pos y -ℤ pos 1900 +ℤ pos 1900 ≡ pos y
unfolding ◌-ℤ◌ ◌+ℤ◌
year_back y = ground arith

seconds_of-eq :
    (s : ℕ) (t : YearMonthDay)
    → IsCivil t
    → t.year ≤ 1465000
    → day_number t.year t.month t.day ≡ s / 86400 + 2440588
    → seconds_of
        (pos t.year)
        (t.month - 1 + 1)
        t.day
        (s % 86400 / 60 / 60)
        (s % 86400 / 60 % 60)
        (s % 86400 % 60)
      ≡ some s
unfolding seconds_of julian_day_of_1970_01_01
seconds_of-eq s t v h e =
    let in_day = s % 86400 / 60 / 60 * 3600 + s % 86400 / 60 % 60 * 60 + s % 86400 % 60 in
    let month : t.month - 1 + 1 ≡ t.month = omega (arith, v.month_in) in
    let fits : are_ints (t.year ∷ in_day ∷ []) ≡ true = ground (arith, h) in
    let from_epoch : leb 2440588 (s / 86400 + 2440588) ≡ true = ground arith in
    rw (fits, month, of_ymd-fits t v h, e, from_epoch) (ap some (omega arith))

-- A time from the epoch on, up to 534000000 days behind it, has a civil form, whose time it is; the hour, the
-- minute and the second are in their ranges, and no number on the way is too large for an `int`.
pub from_utc_time-to_utc_time :
    (s : ℕ) (yday : Bool)
    → s / 86400 ≤ 534000000
    → Ensures
        (λ utc.
          (from_utc_time utc ≡ some s) × (utc.tm_hour < 24) × (utc.tm_min < 60) × (utc.tm_sec < 60))
        (to_utc_time s yday)
unfolding from_utc_time to_utc_time fill_hms year_month_day julian_day_of_1970_01_01
from_utc_time-to_utc_time s yday h =
    let j : ℕ = s / 86400 + 2440588 in
    let t : YearMonthDay = civil_day j in
    let (civil, e) = day_number-civil_day j (omega arith) in
    let (first, last) = years_of_epoch j (omega arith) (omega arith) in
    let fits : are_ints (s / 86400 ∷ j ∷ []) ≡ true = ground (arith, h) in
    let begins =
      of_ymd-fits (record { year = t.year; month = 1; day = 1 }) (first_day-IsCivil t.year) last in
    rw (fits, get_year_month_day-fits j (omega arith), begins)
      (
        ap
              (λ y.
                seconds_of y (t.month - 1 + 1) t.day (s % 86400 / 60 / 60) (s % 86400 / 60 % 60)
                  (s % 86400 % 60))
              (year_back t.year)
            ∙ seconds_of-eq s t civil last e,
        omega arith,
        omega arith,
        omega arith,
      )
