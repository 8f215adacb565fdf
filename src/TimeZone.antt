-- ===== src/TimeZone.antt =====
-- `TimeZone` of base/timezone.h and base/timezone.cpp: the offset in force at a time, and local times.
-- `std::lower_bound` is the first element that is not before its argument, as its documentation says of
-- a sorted range. `gmtime_r` and `timegm` of the C library are arguments. `none` is an access out of
-- range or a failed assertion. The name of a zone in a local time is its place in the abbreviations;
-- `names`, which nothing fills or reads, is left out.
pub mod Search
pub mod LocalTime
pub mod File
mod Examples
use so_l.Common.{
  ℕ, zero, suc, ◌+◌, ◌-◌, Bool, true, false, not, ◌&&◌, leb, ◌==◌, if◌then◌else◌, Option, none,
  some, List, [], ◌∷◌, length, get_elem?, ◌>>=◌,
}
use so_l.Common.Int.{ℤ, pos, ◌+ℤ◌, ◌-ℤ◌, ltb_ℤ, eqb_ℤ}
use so_l.Calendar.Utc.{Tm}

pub record Transition : Type 0 where
  pub gmttime : ℤ
  pub localtime : ℤ
  pub localtime_idx : ℕ

pub record Localtime : Type 0 where
  pub gmt_offset : ℤ
  pub is_dst : Bool
  pub arrb_idx : ℕ

-- `TimeZone::Data`
pub record Data : Type 0 where
  pub transitions : List Transition
  pub localtimes : List Localtime
  pub abbreviation : List ℕ

-- `Comp::operator()`, by `compareGmt`.
unfoldable pub before : Bool → Transition → Transition → Bool
before compare_gmt lhs rhs =
    if compare_gmt then ltb_ℤ lhs.gmttime rhs.gmttime else ltb_ℤ lhs.localtime rhs.localtime

-- `Comp::equal`
unfoldable pub equal : Bool → Transition → Transition → Bool
equal compare_gmt lhs rhs =
    if compare_gmt then eqb_ℤ lhs.gmttime rhs.gmttime else eqb_ℤ lhs.localtime rhs.localtime

unfoldable pub lower_bound : Bool → Transition → List Transition → ℕ
unfolding before
lower_bound comp sentry [] = 0
lower_bound comp sentry (t ∷ ts) =
    if before comp t sentry then suc (lower_bound comp sentry ts) else 0

-- `back()`
unfoldable pub last : List Transition → Option Transition
last [] = none
last (t ∷ []) = some t
last (t ∷ u ∷ ts) = last (u ∷ ts)

-- The transition before `i`; the assertion is that there is one.
unfoldable pub step_back : ℕ → List Transition → Option Transition
step_back zero ts = none
step_back (suc i) ts = get_elem? ts i

-- What `lower_bound` leads to, if it leads to an element.
unfoldable pub settle :
    Bool → Transition → ℕ → Option Transition → List Transition → Option Transition
unfolding equal step_back last
settle comp sentry i none ts = last ts
settle comp sentry i (some t) ts = if not (equal comp sentry t) then step_back i ts else some t

unfoldable pub find_transition : Bool → Transition → List Transition → Option Transition
unfolding lower_bound settle
find_transition comp sentry ts =
    let i = lower_bound comp sentry ts in settle comp sentry i (get_elem? ts i) ts

-- `front()` and the test with it.
unfoldable pub is_before_all : Bool → Transition → List Transition → Bool
unfolding before
is_before_all comp sentry [] = true
is_before_all comp sentry (t ∷ ts) = before comp sentry t

unfoldable pub find_localtime : Data → Transition → Bool → Option Localtime
unfolding find_transition is_before_all
find_localtime data_ sentry comp =
    if is_before_all comp sentry data_.transitions
    then get_elem? data_.localtimes 0
    else (find_transition comp sentry data_.transitions >>= λ t.
        get_elem? data_.localtimes t.localtime_idx)

-- `struct tm` with the fields that a zone sets.
pub record LocalTm : Type 0 where
  pub tm : Tm
  pub tm_isdst : Bool
  pub tm_gmtoff : ℤ
  pub tm_zone : ℕ

unfoldable pub to_local_time : (ℤ → Tm) → Data → ℤ → Option LocalTm
unfolding find_localtime
to_local_time gmtime data_ seconds =
    find_localtime data_ (record { gmttime = seconds; localtime = pos 0; localtime_idx = 0 }) true
    >>= λ local.
        if leb local.arrb_idx (length data_.abbreviation)
        then some (record {
          tm = gmtime (seconds +ℤ local.gmt_offset);
          tm_isdst = local.is_dst;
          tm_gmtoff = local.gmt_offset;
          tm_zone = local.arrb_idx;
        })
        else none

-- An hour less, if the time is not one of daylight saving, and reads the same.
unfoldable pub adjust : LocalTm → LocalTm → ℤ → ℤ
adjust local_tm try_tm seconds =
    if not try_tm.tm_isdst
      && try_tm.tm.tm_hour == local_tm.tm.tm_hour
      && try_tm.tm.tm_min == local_tm.tm.tm_min
    then seconds -ℤ pos 3600
    else seconds

unfoldable pub from_local_time : (ℤ → Tm) → (Tm → ℤ) → Data → LocalTm → Option ℤ
unfolding find_localtime to_local_time adjust
from_local_time gmtime timegm data_ local_tm =
    let seconds = timegm local_tm.tm in
    find_localtime data_ (record { gmttime = pos 0; localtime = seconds; localtime_idx = 0 }) false
    >>= λ local.
        if local_tm.tm_isdst
        then (to_local_time gmtime data_ (seconds -ℤ local.gmt_offset) >>= λ try_tm.
            some (adjust local_tm try_tm seconds -ℤ local.gmt_offset))
        else some (seconds -ℤ local.gmt_offset)

-- `TimeZone::TimeZone(int, const char *)`
unfoldable pub fixed : ℤ → List ℕ → Data
fixed east_of_utc name = record {
  transitions = [];
  localtimes = record { gmt_offset = east_of_utc; is_dst = false; arrb_idx = 0 } ∷ [];
  abbreviation = name;
}
