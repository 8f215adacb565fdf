-- ===== src/Calendar/Utc.antt =====
-- `TimeZone::toUtcTime` and `TimeZone::fromUtcTime` of base/timezone.cpp, for times from the epoch on.
pub mod RoundTrip
use so_l.Common.{
  ℕ, ◌>>=◌, ◌+◌, ◌-◌, ◌*◌, ◌/◌, ◌%◌, Bool, leb, if◌then◌else◌, Option, none, some, List, [], ◌∷◌,
}
use so_l.Common.Int.{ℤ, pos, negsuc, ◌+ℤ◌, ◌-ℤ◌}
use so_l.Calendar.{Date, YearMonthDay, are_ints, day_number, of_ymd, year_month_day, week_day}

-- `struct tm`, without the names and offsets of zones. Its year is counted from 1900, and may be before it.
pub record Tm : Type 0 where
  pub tm_sec : ℕ
  pub tm_min : ℕ
  pub tm_hour : ℕ
  pub tm_mday : ℕ
  pub tm_mon : ℕ
  pub tm_year : ℤ
  pub tm_wday : ℕ
  pub tm_yday : ℕ

abbrev pub seconds_per_day : ℕ
seconds_per_day = 86400

-- `Date::kJulianDayOf1970_01_01`, which fits an `int`.
unfoldable pub julian_day_of_1970_01_01 : ℕ
unfolding day_number
julian_day_of_1970_01_01 = day_number 1970 1 1

unfoldable pub fill_hms : ℕ → Tm → Tm
fill_hms seconds utc = record utc {
  tm_sec = seconds % 60;
  tm_min = seconds / 60 % 60;
  tm_hour = seconds / 60 / 60;
}

abbrev bzero : Tm
bzero = record {
  tm_sec = 0;
  tm_min = 0;
  tm_hour = 0;
  tm_mday = 0;
  tm_mon = 0;
  tm_year = pos 0;
  tm_wday = 0;
  tm_yday = 0;
}

-- `none`: the number of days is more than an `int` holds, and the cast would cut it; or a step of `Date` is.
unfoldable pub to_utc_time : ℕ → Bool → Option Tm
unfolding year_month_day of_ymd week_day fill_hms julian_day_of_1970_01_01 ◌-ℤ◌
to_utc_time seconds_since_epoch yday =
    let seconds = seconds_since_epoch % seconds_per_day in
    let days = seconds_since_epoch / seconds_per_day in
    let date : Date = record { julian_day_number = days + julian_day_of_1970_01_01 } in
    if are_ints (days ∷ date.julian_day_number ∷ [])
    then (year_month_day date >>= λ ymd. of_ymd ymd.year 1 1 >>= λ start_of_year.
        some (record (fill_hms seconds bzero) {
          tm_year = pos ymd.year -ℤ pos 1900;
          tm_mon = ymd.month - 1;
          tm_mday = ymd.day;
          tm_wday = week_day date;
          tm_yday = if yday then date.julian_day_number - start_of_year.julian_day_number else 0;
        }))
    else none

-- A year before the year 0, and a time before the epoch, are left out.
unfoldable pub seconds_of : ℤ → ℕ → ℕ → ℕ → ℕ → ℕ → Option ℕ
unfolding of_ymd julian_day_of_1970_01_01
seconds_of (negsuc n) month day hour minute seconds = none
seconds_of (pos year) month day hour minute seconds =
    let seconds_in_day = hour * 3600 + minute * 60 + seconds in
    if are_ints (year ∷ seconds_in_day ∷ [])
    then (of_ymd year month day >>= λ date.
        if leb julian_day_of_1970_01_01 date.julian_day_number
        then some
            ((date.julian_day_number - julian_day_of_1970_01_01) * seconds_per_day + seconds_in_day)
        else none)
    else none

unfoldable pub from_utc_time : Tm → Option ℕ
unfolding seconds_of ◌+ℤ◌
from_utc_time utc =
    seconds_of (utc.tm_year +ℤ pos 1900) (utc.tm_mon + 1) utc.tm_mday utc.tm_hour utc.tm_min
      utc.tm_sec
