-- ===== src/Calendar/RoundTrip.antt =====
-- The civil calendar against the Julian Day Number.
use so_l.Common.{
  ◌>>=◌, ◌∙◌, refl, ap, true, some, [], ◌∷◌, ℕ, ◌+◌, ◌-◌, ◌*◌, ◌/◌, ◌%◌, ◌≤◌, ◌<◌, ◌≡◌, ◌⊎◌, Bool,
  not, ◌&&◌, ◌||◌, arith, ◌==◌, if◌then◌else◌,
}
use so_l.Calendar.{
  YearMonthDay, are_ints, day_number, get_julian_day_number, civil_day, get_year_month_day,
}

-- The Gregorian rule.
unfoldable pub is_leap : ℕ → Bool
is_leap y = (y % 4 == 0) && (not (y % 100 == 0) || (y % 400 == 0))

-- February apart, the months alternate between 31 and 30 days, and begin again in August.
unfoldable pub days_in_month : ℕ → ℕ → ℕ
days_in_month y m = if m == 2 then (if is_leap y then 29 else 28) else 30 + (m + m / 8) % 2

pub record IsCivil (t : YearMonthDay) : Type 0 where
  pub month_in : (1 ≤ t.month) × (t.month ≤ 12)
  pub day_in : (1 ≤ t.day) × (t.day ≤ days_in_month t.year t.month)

-- A day of the count: the century, the year of the century and the day of the year, where years
-- begin in March, so that only the last day of a leap year is numbered 365.
record IsMarchDay (b d e : ℕ) : Type 0 where
  year_in : d < 100
  day_in : e ≤ 365
  leap_day : (e < 365) ⊎ ((d % 4 ≡ 3) × ((d < 99) ⊎ (b % 4 ≡ 3)))

century :
    (b d e : ℕ) → IsMarchDay b d e → (4 * (146097 * b / 4 + 1461 * d / 4 + e) + 3) / 146097 ≡ b
century b d e v = omega arith

year : (b d e : ℕ) → IsMarchDay b d e → (4 * (1461 * d / 4 + e) + 3) / 1461 ≡ d
year b d e v = omega arith

month :
    (m k : ℕ)
    → k + (153 * m + 2) / 5 < (153 * m + 155) / 5
    → (5 * (k + (153 * m + 2) / 5) + 2) / 153 ≡ m
month m k h = omega arith

-- `civil_day` on the day `e` of the March year `100 * b + d`, whose month is `m`.
civil_day-march :
    (j b d m k : ℕ)
    → IsMarchDay b d (k + (153 * m + 2) / 5)
    → k + (153 * m + 2) / 5 < (153 * m + 155) / 5
    → j + 32044 ≡ 146097 * b / 4 + 1461 * d / 4 + (k + (153 * m + 2) / 5)
    → civil_day j
      ≡ record { year = b * 100 + d + m / 10 - 4800; month = m + 3 - 12 * (m / 10); day = k + 1 }
unfolding civil_day
civil_day-march j b d m k v h e =
    let n : ℕ = k + (153 * m + 2) / 5 in
    let in_century : 146097 * b / 4 + 1461 * d / 4 + n - b * 146097 / 4 ≡ 1461 * d / 4 + n =
      omega arith in
    let in_year : 1461 * d / 4 + n - 1461 * d / 4 ≡ n = omega arith in
    let in_month : n - (153 * m + 2) / 5 ≡ k = omega arith in
    rw (e, century b d n v, in_century, year b d n v, in_year, month m k h, in_month)

-- Every civil date from the year 0 on comes back from its Julian Day Number.
civil_day-day_number :
    (t : YearMonthDay) → IsCivil t → civil_day (day_number t.year t.month t.day) ≡ t
unfolding day_number days_in_month is_leap
civil_day-day_number t v =
    let a : ℕ = (14 - t.month) / 12 in
    let y : ℕ = t.year + 4800 - a in
    let m : ℕ = t.month + 12 * a - 3 in
    civil_day-march (day_number t.year t.month t.day) (y / 100) (y % 100) m (t.day - 1)
      (ground arith) (ground arith) (omega arith)
    ∙ ground arith

-- What the six divisions of `getYearMonthDay` find: the parts of the day number.
record IsSplit (n b d m k : ℕ) : Type 0 where
  whole : n ≡ 146097 * b / 4 + 1461 * d / 4 + (k + (153 * m + 2) / 5)
  year_in : d < 100
  month_in : m ≤ 11
  day_in : k + (153 * m + 2) / 5 < (153 * m + 155) / 5
  march : IsMarchDay b d (k + (153 * m + 2) / 5)

IsSplit-parts :
    (n : ℕ)
    → let b = (4 * n + 3) / 146097 in
      let c = n - b * 146097 / 4 in
      let d = (4 * c + 3) / 1461 in
      let e = c - 1461 * d / 4 in
      let m = (5 * e + 2) / 153 in IsSplit n b d m (e - (153 * m + 2) / 5)
IsSplit-parts n = omega arith

-- A split day is a day of the civil calendar, and its number is that of the split.
split-IsCivil :
    (n b d m k : ℕ)
    → 1753104 ≤ n
    → IsSplit n b d m k
    → let t : YearMonthDay = record {
      year = b * 100 + d + m / 10 - 4800;
      month = m + 3 - 12 * (m / 10);
      day = k + 1;
    } in
      IsCivil t × (day_number t.year t.month t.day + 32044 ≡ n)
unfolding day_number days_in_month is_leap
split-IsCivil n b d m k h v = ground arith

-- Every day number from that of the first day of the year 0 on is the number of the civil date
-- that it is taken apart into.
pub day_number-civil_day :
    (j : ℕ) → 1721060 ≤ j → let t = civil_day j in IsCivil t × (day_number t.year t.month t.day ≡ j)
unfolding civil_day
day_number-civil_day j h =
    let (civil, whole) =
      split-IsCivil (j + 32044) _ _ _ _ (omega arith) (IsSplit-parts (j + 32044)) in
    (civil, omega arith)

pub get_julian_day_number-fits :
    (t : YearMonthDay)
    → IsCivil t
    → t.year ≤ 1465000
    → get_julian_day_number t.year t.month t.day ≡ some (day_number t.year t.month t.day)
unfolding get_julian_day_number days_in_month is_leap
get_julian_day_number-fits t v h =
    let a : ℕ = (14 - t.month) / 12 in
    let y : ℕ = t.year + 4800 - a in
    let m : ℕ = t.month + 12 * a - 3 in
    let fits : are_ints (
          (t.month + 12 * a)
          ∷ (153 * m + 2)
          ∷ (t.year + 4800)
          ∷ (y * 365)
          ∷ (t.day + (153 * m + 2) / 5 + y * 365 + y / 4)
          ∷ [])
        ≡ true =
      ground (arith, v.month_in, v.day_in, h) in
    rw fits refl

pub get_year_month_day-fits : (j : ℕ) → j ≤ 536838866 → get_year_month_day j ≡ some (civil_day j)
unfolding get_year_month_day
get_year_month_day-fits j h =
    let fits : are_ints ((4 * (j + 32044) + 3) ∷ []) ≡ true = ground (arith, h) in rw fits refl

day_number_small :
    (t : YearMonthDay) → IsCivil t → t.year ≤ 1465000 → day_number t.year t.month t.day ≤ 536838866
unfolding day_number days_in_month is_leap
day_number_small t v h = ground (arith, v.month_in, v.day_in, h)

-- Every civil date from the year 0 to the year 1465000 comes back from its Julian Day Number, and no number
-- on the way is too large for an `int`.
pub get_year_month_day-get_julian_day_number :
    (t : YearMonthDay)
    → IsCivil t
    → t.year ≤ 1465000
    → (get_julian_day_number t.year t.month t.day >>= λ j. get_year_month_day j) ≡ some t
get_year_month_day-get_julian_day_number t v h =
    ap (λ r. r >>= λ j. get_year_month_day j) (get_julian_day_number-fits t v h)
    ∙ get_year_month_day-fits (day_number t.year t.month t.day) (day_number_small t v h)
    ∙ ap some (civil_day-day_number t v)
