-- ===== src/TimeZone/File/Broken.antt =====
-- A file that is not there, or is cut in its header, makes a zone that is valid, and has no local time.
use so_l.Common.{
  ℕ, ◌≡◌, refl, ap, Bool, true, false, if◌then◌else◌, Option, none, some, List, ◌>>=◌, arith,
}
use so_l.Common.Int.{ℤ}
use so_l.Calendar.Utc.{Tm}
use so_l.TimeZone.{Data, LocalTm, to_local_time, from_local_time}
use so_l.TimeZone.File.{Read, Counts, empty, read_header, read_body, read_time_zone_file, load}

abbrev pub header_of : Option (List ℕ) → Bool
header_of none = false
header_of (some bytes) = elim (read_header bytes) [ none ↦ false | some r ↦ true ]

read_body-none :
    (r : Read Counts) → (elim r [ none ↦ false | some x ↦ true ]) ≡ false → read_body r ≡ some empty
unfolding read_body
read_body-none none h = refl
read_body-none (some x) h = absurd (ground (arith, h))

-- If the file cannot be opened, or has no header that can be read whole, the zone is valid all the same;
-- asked for the local time of any time, or for the time of any local time, it takes the first of no
-- local times.
pub load_without_header :
    (file : Option (List ℕ)) (gmtime : ℤ → Tm) (timegm : Tm → ℤ) (seconds : ℤ) (local_tm : LocalTm)
    → header_of file ≡ false
    → (load file ≡ some (some empty))
      × (to_local_time gmtime empty seconds ≡ none)
      × (from_local_time gmtime timegm empty local_tm ≡ none)
unfolding load read_time_zone_file to_local_time from_local_time
load_without_header none gmtime timegm seconds local_tm h = (refl, refl, refl)
load_without_header (some bytes) gmtime timegm seconds local_tm h = (
  ap
      (λ (r : Option Data).
        let read : Option (Bool × Data) = (r >>= λ data_. some (true, data_)) in
        read >>= λ x. some (if x.0 then some x.1 else none))
      (read_body-none (read_header bytes) h),
  refl,
  refl,
)
