-- ===== src/TimeZone/Examples.antt =====
-- A zone with a summer, and its file.
use so_l.Common.{
  Ensures, subst, zero, suc, ◌+◌, ◌≡◌, refl, true, false, none, some, [], ◌∷◌, replicate, arith,
}
use so_l.Common.Text.{codes}
use so_l.Common.Search.{same_text}
use so_l.Common.Int.{ℤ, pos, negsuc, ◌+ℤ◌, pos_part}
use so_l.Calendar.Utc.{Tm}
use so_l.TimeZone.{Transition, Localtime, Data, find_localtime, to_local_time, from_local_time}
use so_l.TimeZone.Search.{find_localtime-index_at}
use so_l.TimeZone.LocalTime.{in_years, IsClear, IsSettled, from_local_time-to_local_time}
use so_l.TimeZone.File.{
  empty, load, read_time_zone_file, read_header, read_bytes, read_counts, read_int32,
}
use so_l.TimeZone.File.RoundTrip.{Unused, print_file, Fits, read_time_zone_file-print_file}
use so_l.TimeZone.File.Broken.{load_without_header}

abbrev winter : Localtime
winter = record { gmt_offset = negsuc 17999; is_dst = false; arrb_idx = 4 }

abbrev summer : Localtime
summer = record { gmt_offset = negsuc 14399; is_dst = true; arrb_idx = 0 }

abbrev new_york : Data
new_york = record {
  transitions =
      record { gmttime = pos 9961200; localtime = pos 9946800; localtime_idx = 0 }
      ∷ record { gmttime = pos 25682400; localtime = pos 25664400; localtime_idx = 1 }
      ∷ [];
  localtimes = summer ∷ winter ∷ [];
  abbreviation = codes "EDT EST ";
}

-- The seconds of a clock whose fields are not taken apart.
abbrev clock : ℤ → Tm
clock x = record {
  tm_sec = pos_part x;
  tm_min = elim x [ pos n ↦ 0 | negsuc n ↦ n + 1 ];
  tm_hour = 0;
  tm_mday = 0;
  tm_mon = 0;
  tm_year = pos 0;
  tm_wday = 0;
  tm_yday = 0;
}

abbrev unclock : Tm → ℤ
unclock t = elim t.tm_min [ zero ↦ pos t.tm_sec | suc n ↦ negsuc n ]

unclock-clock : (x : ℤ) → unclock (clock x) ≡ x
unclock-clock (pos n) = refl
unclock-clock (negsuc n) = ground arith

abbrev sentry : Transition
sentry = record { gmttime = pos 20000000; localtime = pos 0; localtime_idx = 0 }

find_localtime-index_at_example : find_localtime new_york sentry true ≡ some summer
find_localtime-index_at_example = find_localtime-index_at new_york sentry true (refl, tt)

-- In the summer, by the summer time.
new_york-IsSettled : IsSettled new_york (pos 20000000)
unfolding ◌+ℤ◌
new_york-IsSettled local e =
    subst
      (Ensures (λ (x : Localtime).
        (in_years (pos 20000000 +ℤ x.gmt_offset) ≡ true)
        × IsClear (pos 20000000) (pos 20000000 +ℤ x.gmt_offset) new_york.transitions))
      e (refl, refl)

from_local_time-to_local_time_example :
    Ensures
      (λ t. from_local_time clock unclock new_york t ≡ some (pos 20000000))
      (to_local_time clock new_york (pos 20000000))
unfolding ◌+ℤ◌
from_local_time-to_local_time_example =
    from_local_time-to_local_time clock unclock new_york (pos 20000000)
      (λ x in_range. unclock-clock x) (omega arith) (refl, (refl, tt)) (refl, tt) (refl, tt)
      (refl, (refl, tt)) new_york-IsSettled

abbrev unused : Unused
unused = record {
  version = 50;
  reserved = replicate 15 0;
  isgmtcnt = pos 2;
  isstdcnt = pos 2;
  leapcnt = pos 0;
  rest = 1 ∷ 0 ∷ [];
}

new_york-Fits : Fits unused new_york
new_york-Fits = record {
  reserved_15 = refl;
  isgmtcnt_32 = omega arith;
  isstdcnt_32 = omega arith;
  leapcnt_32 = omega arith;
  few_transitions = omega arith;
  few_localtimes = omega arith;
  short = omega arith;
  times_32 = (omega arith, (omega arith, tt));
  offsets_32 = (omega arith, (omega arith, tt));
}

read_time_zone_file-print_file_example :
    read_time_zone_file (some (print_file unused new_york)) ≡ some (true, new_york)
unfolding ◌+ℤ◌
read_time_zone_file-print_file_example =
    read_time_zone_file-print_file unused new_york new_york-Fits (refl, (refl, tt))

-- A file of eight bytes.
load_without_header_example :
    (load (some (codes "TZif2   ")) ≡ some (some empty))
    × (to_local_time clock empty (pos 5) ≡ none)
    × (from_local_time clock unclock empty
          (record { tm = clock (pos 5); tm_isdst = false; tm_gmtoff = pos 0; tm_zone = 0 })
        ≡ none)
unfolding read_header read_bytes read_counts read_int32 same_text
load_without_header_example =
    load_without_header (some (codes "TZif2   ")) clock unclock (pos 5)
      (record { tm = clock (pos 5); tm_isdst = false; tm_gmtoff = pos 0; tm_zone = 0 }) refl
