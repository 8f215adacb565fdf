-- ===== src/TimeZone/File.antt =====
-- `readTimeZoneFile` of base/timezone.cpp, on the bytes of the file, or `none` if it cannot be opened. Each
-- read takes what it asks for or throws; what was thrown is caught, and leaves the data as it is by then.
-- `none` is undefined behaviour: an index out of range, or a negative count of characters. That memory
-- runs out is left out.
pub mod Printing
pub mod RoundTrip
pub mod Broken
use so_l.Common.{
  ℕ, zero, suc, ◌+◌, ◌-◌, ◌*◌, Bool, true, false, not, ltb, ◌==◌, if◌then◌else◌, Option, none, some,
  List, [], ◌∷◌, ◌++◌, length, get_elem?, take, drop, ◌>>=◌,
}
use so_l.Common.Text.{codes}
use so_l.Common.Search.{same_text}
use so_l.Common.Int.{ℤ, pos, negsuc, ◌+ℤ◌}
use so_l.TimeZone.{Transition, Localtime, Data}

-- What a read takes, and the bytes behind it; `none` is `logic_error`.
abbrev pub Read : Type 0 → Type 0
Read A = Option (A × List ℕ)

unfoldable pub read_bytes : ℕ → List ℕ → Read (List ℕ)
read_bytes n bytes = if ltb (length bytes) n then none else some (take n bytes, drop n bytes)

-- An `int32_t` of the bits of a number.
unfoldable pub signed_32 : ℕ → ℤ
signed_32 n = if ltb n 2147483648 then pos n else negsuc (4294967295 - n)

unfoldable pub read_int32 : List ℕ → Read ℤ
unfolding signed_32
read_int32 (a ∷ b ∷ c ∷ d ∷ bytes) = some (signed_32 (((a * 256 + b) * 256 + c) * 256 + d), bytes)
read_int32 _ = none

unfoldable pub read_uint8 : List ℕ → Read ℕ
read_uint8 [] = none
read_uint8 (b ∷ bytes) = some (b, bytes)

-- The rounds of a loop up to a signed count.
abbrev pub rounds : ℤ → ℕ
rounds (pos n) = n
rounds (negsuc n) = 0

unfoldable pub read_trans : ℕ → List ℕ → Read (List ℤ)
unfolding read_int32
read_trans zero bytes = some ([], bytes)
read_trans (suc n) bytes =
    read_int32 bytes >>= λ r. read_trans n r.1 >>= λ rest. some (r.0 ∷ rest.0, rest.1)

unfoldable pub read_indices : ℕ → List ℕ → Read (List ℕ)
unfolding read_uint8
read_indices zero bytes = some ([], bytes)
read_indices (suc n) bytes =
    read_uint8 bytes >>= λ r. read_indices n r.1 >>= λ rest. some (r.0 ∷ rest.0, rest.1)

-- The two bytes behind an offset.
unfoldable pub read_flags : ℤ → List ℕ → Read Localtime
unfolding read_uint8
read_flags gmtoff bytes = read_uint8 bytes >>= λ isdst. read_uint8 isdst.1 >>= λ abbrind.
    some
      (record { gmt_offset = gmtoff; is_dst = not (isdst.0 == 0); arrb_idx = abbrind.0 }, abbrind.1)

unfoldable pub read_localtime : List ℕ → Read Localtime
unfolding read_int32 read_flags
read_localtime bytes = read_int32 bytes >>= λ gmtoff. read_flags gmtoff.0 gmtoff.1

-- The local times that were read, with the bytes behind them unless a read has thrown.
abbrev pub LocaltimesRead : Type 0
LocaltimesRead = List Localtime × Option (List ℕ)

unfoldable pub push_localtime : Read Localtime → (List ℕ → LocaltimesRead) → LocaltimesRead
push_localtime none next = ([], none)
push_localtime (some (l, bytes)) next = let rest = next bytes in (l ∷ rest.0, rest.1)

unfoldable pub read_localtimes : ℕ → List ℕ → LocaltimesRead
unfolding read_localtime push_localtime
read_localtimes zero bytes = ([], some bytes)
read_localtimes (suc n) bytes = push_localtime (read_localtime bytes) (λ bs. read_localtimes n bs)

unfoldable pub make_transitions : List Localtime → List ℤ → List ℕ → Option (List Transition)
make_transitions localtimes (t ∷ trans) (idx ∷ indices) = get_elem? localtimes idx >>= λ local.
    make_transitions localtimes trans indices >>= λ rest.
    some (record { gmttime = t; localtime = t +ℤ local.gmt_offset; localtime_idx = idx } ∷ rest)
make_transitions localtimes trans indices = some []

abbrev pub empty : Data
empty = record { transitions = []; localtimes = []; abbreviation = [] }

-- The counts of the header, in the order in which they are read.
pub record Counts : Type 0 where
  pub isgmtcnt : ℤ
  pub isstdcnt : ℤ
  pub leapcnt : ℤ
  pub timecnt : ℤ
  pub typecnt : ℤ
  pub charcnt : ℤ

unfoldable pub read_counts : List ℕ → Read Counts
read_counts bytes = do
  a ← read_int32 bytes
  b ← read_int32 a.1
  c ← read_int32 b.1
  d ← read_int32 c.1
  e ← read_int32 d.1
  f ← read_int32 e.1
  some (
    record {
      isgmtcnt = a.0;
      isstdcnt = b.0;
      leapcnt = c.0;
      timecnt = d.0;
      typecnt = e.0;
      charcnt = f.0;
    },
    f.1,
  )

-- The head, the version and the reserved bytes, and then the counts.
unfoldable pub read_header : List ℕ → Read Counts
read_header bytes = read_bytes 4 bytes >>= λ head.
    if same_text head.0 (codes "TZif")
    then (read_bytes 1 head.1 >>= λ version. read_bytes 15 version.1 >>= λ r. read_counts r.1)
    else none

-- The abbreviations, at the end.
unfoldable pub add_abbreviation : Data → Read (List ℕ) → Data
add_abbreviation data_ none = data_
add_abbreviation data_ (some (text, rest)) = record data_ { abbreviation = text }

unfoldable pub read_abbreviation : ℤ → Data → List ℕ → Option Data
read_abbreviation (negsuc n) data_ bytes = none
read_abbreviation (pos n) data_ bytes = some (add_abbreviation data_ (read_bytes n bytes))

-- The transitions, once all local times are there.
unfoldable pub with_localtimes : ℤ → List ℤ → List ℕ → LocaltimesRead → Option Data
with_localtimes charcnt trans indices (localtimes, none) =
    some (record empty { localtimes = localtimes })
with_localtimes charcnt trans indices (localtimes, some bytes) =
    make_transitions localtimes trans indices >>= λ transitions.
    read_abbreviation charcnt
      (record { transitions = transitions; localtimes = localtimes; abbreviation = [] }) bytes

-- The times, and the places of their local times.
unfoldable pub read_times : ℕ → List ℕ → Read (List ℤ × List ℕ)
read_times n bytes =
    read_trans n bytes >>= λ trans. read_indices n trans.1 >>= λ r. some ((trans.0, r.0), r.1)

unfoldable pub with_times : Counts → Read (List ℤ × List ℕ) → Option Data
with_times counts none = some empty
with_times counts (some ((trans, indices), rest)) =
    with_localtimes counts.charcnt trans indices (read_localtimes (rounds counts.typecnt) rest)

abbrev pub is_below_zero : ℤ → Bool
is_below_zero (pos n) = false
is_below_zero (negsuc n) = true

-- The body of the file; a vector cannot reserve a negative count.
unfoldable pub read_body : Read Counts → Option Data
read_body none = some empty
read_body (some (counts, bytes)) =
    if is_below_zero counts.timecnt
    then some empty
    else with_times counts (read_times (rounds counts.timecnt) bytes)

unfoldable pub read_time_zone_file : Option (List ℕ) → Option (Bool × Data)
read_time_zone_file none = some (true, empty)
read_time_zone_file (some bytes) = read_body (read_header bytes) >>= λ data_. some (true, data_)

-- `TimeZone::TimeZone(const char *)`: the zone is valid if there are data.
unfoldable pub load : Option (List ℕ) → Option (Option Data)
unfolding read_time_zone_file
load file = read_time_zone_file file >>= λ r. some (if r.0 then some r.1 else none)
