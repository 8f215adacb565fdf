-- ===== src/TimeZone/File/RoundTrip.antt =====
-- A time zone file that is written from data is read into them.
use so_l.Common.{
  ℕ, ◌<◌, ◌≡◌, refl, sym, ap, ◌∙◌, true, false, ltb, some, List, [], ◌∷◌, ◌++◌, length, ◌>>=◌,
  arith, length-append, drop-length-append,
}
use so_l.Common.Text.{codes}
use so_l.Common.Search.{same_text, take-length-append}
use so_l.Common.Int.{ℤ, pos}
use so_l.TimeZone.{Data}
use so_l.TimeZone.LocalTime.{AllConsistent}
use so_l.TimeZone.File.{
  read_bytes, Counts, read_counts, read_header, add_abbreviation, read_abbreviation,
  with_localtimes, read_times, with_times, read_body, read_time_zone_file,
}
use so_l.TimeZone.File.Printing.{
  IsInt32, print_int32, read_int32-print_int32, indices, print_trans, AllInt32,
  read_trans-print_trans, read_indices-append, print_localtimes, AllOffsetsInt32,
  read_localtimes-print, make_transitions-same,
}

-- The parts of a file that are read and not used.
pub record Unused : Type 0 where
  pub version : ℕ
  pub reserved : List ℕ
  pub isgmtcnt : ℤ
  pub isstdcnt : ℤ
  pub leapcnt : ℤ
  pub rest : List ℕ

abbrev pub print_counts : Unused → Data → List ℕ → List ℕ
print_counts u d bytes =
    print_int32 u.isgmtcnt
    ++ (print_int32 u.isstdcnt
        ++ (print_int32 u.leapcnt
            ++ (print_int32 (pos (length d.transitions))
                ++ (print_int32 (pos (length d.localtimes))
                    ++ (print_int32 (pos (length d.abbreviation)) ++ bytes)))))

abbrev pub print_body : Unused → Data → List ℕ
print_body u d =
    print_trans d.transitions
    ++ (indices d.transitions ++ (print_localtimes d.localtimes ++ (d.abbreviation ++ u.rest)))

abbrev pub print_file : Unused → Data → List ℕ
print_file u d =
    codes "TZif" ++ ((u.version ∷ []) ++ (u.reserved ++ print_counts u d (print_body u d)))

-- What a file can hold.
pub record Fits (u : Unused) (d : Data) : Type 0 where
  pub reserved_15 : length u.reserved ≡ 15
  pub isgmtcnt_32 : IsInt32 u.isgmtcnt
  pub isstdcnt_32 : IsInt32 u.isstdcnt
  pub leapcnt_32 : IsInt32 u.leapcnt
  pub few_transitions : length d.transitions < 2147483648
  pub few_localtimes : length d.localtimes < 2147483648
  pub short : length d.abbreviation < 2147483648
  pub times_32 : AllInt32 d.transitions
  pub offsets_32 : AllOffsetsInt32 d.localtimes

abbrev counts_of : Unused → Data → Counts
counts_of u d = record {
  isgmtcnt = u.isgmtcnt;
  isstdcnt = u.isstdcnt;
  leapcnt = u.leapcnt;
  timecnt = pos (length d.transitions);
  typecnt = pos (length d.localtimes);
  charcnt = pos (length d.abbreviation);
}

read_bytes-append : (n : ℕ) (a b : List ℕ) → length a ≡ n → read_bytes n (a ++ b) ≡ some (a, b)
unfolding read_bytes
read_bytes-append n a b h =
    let enough : ltb (length (a ++ b)) n ≡ false = ground (arith, length-append a b, h) in
    rw (enough, sym h, take-length-append a b, drop-length-append a b) refl

read_counts-print :
    (u : Unused) (d : Data) (bytes : List ℕ)
    → Fits u d
    → read_counts (print_counts u d bytes) ≡ some (counts_of u d, bytes)
unfolding read_counts
read_counts-print u d bytes f =
    rw
      (
        read_int32-print_int32 u.isgmtcnt _ f.isgmtcnt_32,
        read_int32-print_int32 u.isstdcnt _ f.isstdcnt_32,
        read_int32-print_int32 u.leapcnt _ f.leapcnt_32,
        read_int32-print_int32 (pos (length d.transitions)) _ f.few_transitions,
        read_int32-print_int32 (pos (length d.localtimes)) _ f.few_localtimes,
        read_int32-print_int32 (pos (length d.abbreviation)) _ f.short,
      )
      refl

read_header-print :
    (u : Unused) (d : Data) (bytes : List ℕ)
    → Fits u d
    → read_header (codes "TZif" ++ ((u.version ∷ []) ++ (u.reserved ++ print_counts u d bytes)))
      ≡ some (counts_of u d, bytes)
unfolding read_header same_text
read_header-print u d bytes f =
    rw
      (
        read_bytes-append 4 (codes "TZif")
            ((u.version ∷ []) ++ (u.reserved ++ print_counts u d bytes)) refl,
        read_bytes-append 1 (u.version ∷ []) (u.reserved ++ print_counts u d bytes) refl,
        read_bytes-append 15 u.reserved (print_counts u d bytes) f.reserved_15,
      )
      (read_counts-print u d bytes f)

read_body-print :
    (u : Unused) (d : Data)
    → Fits u d
    → AllConsistent d.localtimes d.transitions
    → read_body (some (counts_of u d, print_body u d)) ≡ some d
unfolding read_body read_times with_times with_localtimes read_abbreviation add_abbreviation
read_body-print u d f consistent =
    rw
      (
        read_trans-print_trans d.transitions _ f.times_32,
        read_indices-append d.transitions _,
        read_localtimes-print d.localtimes _ f.offsets_32,
        make_transitions-same d.localtimes d.transitions consistent,
        read_bytes-append (length d.abbreviation) d.abbreviation u.rest refl,
      )
      refl

-- A file that is written from data that it can hold, each local time being made by the offset of its
-- place, is read whole into the data, whatever the parts are that nothing uses.
pub read_time_zone_file-print_file :
    (u : Unused) (d : Data)
    → Fits u d
    → AllConsistent d.localtimes d.transitions
    → read_time_zone_file (some (print_file u d)) ≡ some (true, d)
unfolding read_time_zone_file
read_time_zone_file-print_file u d f consistent =
    ap (λ r. read_body r >>= λ data_. some (true, data_)) (read_header-print u d (print_body u d) f)
    ∙ ap (λ r. r >>= λ data_. some (true, data_)) (read_body-print u d f consistent)
