-- ===== src/Calendar/Examples.antt =====
-- The theorems on `Date` at the leap day of 2000.
use so_l.Common.{◌<◌, ◌≡◌, refl, true, none, some, Ensures, ◌>>=◌, arith}
use so_l.Calendar.{
  YearMonthDay, day_number, get_julian_day_number, get_year_month_day, of_ymd, week_day,
}
use so_l.Calendar.RoundTrip.{
  IsCivil, is_leap, days_in_month, get_year_month_day-get_julian_day_number,
}
use so_l.Calendar.Utc.{to_utc_time, from_utc_time}
use so_l.Calendar.Utc.RoundTrip.{from_utc_time-to_utc_time}

abbrev leap_day : YearMonthDay
leap_day = record { year = 2000; month = 2; day = 29 }

IsCivil-leap_day : IsCivil leap_day
unfolding days_in_month is_leap
IsCivil-leap_day = omega arith

-- `kJulianDayOf1970_01_01`, a Thursday.
epoch_day : of_ymd 1970 1 1 ≡ some (record { julian_day_number = 2440588 })
unfolding of_ymd get_julian_day_number day_number
epoch_day = refl

epoch_week_day : week_day (record { julian_day_number = 2440588 }) ≡ 4
unfolding week_day
epoch_week_day = refl

-- The year is too large for an `int` when it is multiplied by the days of a year.
year_overflow : of_ymd 6000000 1 1 ≡ none
unfolding of_ymd get_julian_day_number day_number
year_overflow = refl

get_year_month_day-get_julian_day_number_example :
    (get_julian_day_number 2000 2 29 >>= λ j. get_year_month_day j) ≡ some leap_day
get_year_month_day-get_julian_day_number_example =
    get_year_month_day-get_julian_day_number leap_day IsCivil-leap_day (omega arith)

from_utc_time-to_utc_time_example :
    Ensures
      (λ utc.
        (from_utc_time utc ≡ some 1571234567)
        × (utc.tm_hour < 24)
        × (utc.tm_min < 60)
        × (utc.tm_sec < 60))
      (to_utc_time 1571234567 true)
from_utc_time-to_utc_time_example = from_utc_time-to_utc_time 1571234567 true (omega arith)
