-- ===== src/Calendar.antt =====
-- base/date.cpp and base/date.h: a day as its Julian Day Number. The C++ works in `int`; where a sum or a
-- product does not fit one, which C++ leaves undefined, the result is `none`. The numbers are natural, so
-- the last subtraction of `get_year_month_day` is made after the addition: for the dates from the year 0
-- on nothing is negative. A month is at most 25.
pub mod RoundTrip
pub mod Utc
mod Examples
use so_l.Common.{
  ◌>>=◌, ℕ, ◌+◌, ◌-◌, ◌*◌, ◌/◌, ◌%◌, Bool, true, ◌&&◌, ltb, ◌==◌, if◌then◌else◌, Option, none, some,
  List, [], ◌∷◌,
}

-- `Date::YearMonthDay`.
pub record YearMonthDay : Type 0 where
  pub year : ℕ
  pub month : ℕ
  pub day : ℕ

-- `Date`, with its one field.
pub record Date : Type 0 where
  pub julian_day_number : ℕ

-- The numbers fit an `int` of 32 bits.
abbrev pub are_ints : List ℕ → Bool
are_ints [] = true
are_ints (n ∷ ns) = ltb n 2147483648 && are_ints ns

-- The steps of `getJulianDayNumber`, in numbers without bound.
unfoldable pub day_number : ℕ → ℕ → ℕ → ℕ
day_number year month day =
    let a = (14 - month) / 12 in
    let y = year + 4800 - a in
    let m = month + 12 * a - 3 in
    day + (153 * m + 2) / 5 + y * 365 + y / 4 - y / 100 + y / 400 - 32045

-- `getJulianDayNumber`. The other steps are smaller than these.
unfoldable pub get_julian_day_number : ℕ → ℕ → ℕ → Option ℕ
unfolding day_number
get_julian_day_number year month day =
    let a = (14 - month) / 12 in
    let y = year + 4800 - a in
    let m = month + 12 * a - 3 in
    if are_ints (
      (month + 12 * a)
      ∷ (153 * m + 2)
      ∷ (year + 4800)
      ∷ (y * 365)
      ∷ (day + (153 * m + 2) / 5 + y * 365 + y / 4)
      ∷ [])
    then some (day_number year month day)
    else none

-- The steps of `getYearMonthDay`, in numbers without bound.
unfoldable pub civil_day : ℕ → YearMonthDay
civil_day julian_day_number =
    let a = julian_day_number + 32044 in
    let b = (4 * a + 3) / 146097 in
    let c = a - b * 146097 / 4 in
    let d = (4 * c + 3) / 1461 in
    let e = c - 1461 * d / 4 in
    let m = (5 * e + 2) / 153 in
    record {
      year = b * 100 + d + m / 10 - 4800;
      month = m + 3 - 12 * (m / 10);
      day = e - (153 * m + 2) / 5 + 1;
    }

-- `getYearMonthDay`. No step is larger than `4 * a + 3`.
unfoldable pub get_year_month_day : ℕ → Option YearMonthDay
unfolding civil_day
get_year_month_day julian_day_number =
    if are_ints ((4 * (julian_day_number + 32044) + 3) ∷ [])
    then some (civil_day julian_day_number)
    else none

-- `Date::Date(int, int, int)`.
unfoldable pub of_ymd : ℕ → ℕ → ℕ → Option Date
unfolding get_julian_day_number
of_ymd y m d = get_julian_day_number y m d >>= λ n. some (record { julian_day_number = n })

-- `Date::yearMonthDay`.
unfoldable pub year_month_day : Date → Option YearMonthDay
unfolding get_year_month_day
year_month_day t = get_year_month_day t.julian_day_number

-- 0 is Sunday. The day number is one of a date, so that the sum fits.
pub week_day : Date → ℕ
week_day t = (t.julian_day_number + 1) % 7
