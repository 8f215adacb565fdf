-- ===== src/TimeZone/File/Printing.antt =====
-- How the parts of a time zone file are written, and that each is read back.
use so_l.Common.{
  ℕ, ◌+◌, ◌-◌, ◌*◌, ◌/◌, ◌%◌, ◌<◌, ◌≡◌, refl, sym, ap, subst, ◌∙◌, Bool, true, false, not, ◌==◌,
  some, List, [], ◌∷◌, ◌++◌, length, get_elem?, ◌>>=◌, arith, Ensures, Option-cases, inl, inr,
}
use so_l.Common.Int.{ℤ, pos, negsuc, ◌+ℤ◌}
use so_l.TimeZone.{Transition, Localtime}
use so_l.TimeZone.LocalTime.{AllConsistent}
use so_l.TimeZone.File.{
  signed_32, read_int32, read_uint8, read_trans, read_indices, read_flags, read_localtime,
  LocaltimesRead, push_localtime, read_localtimes, make_transitions,
}

abbrev pub IsInt32 : ℤ → Type 0
IsInt32 (pos n) = n < 2147483648
IsInt32 (negsuc n) = n < 2147483648

unfoldable pub unsigned_32 : ℤ → ℕ
unsigned_32 (pos n) = n
unsigned_32 (negsuc n) = 4294967295 - n

-- Four bytes, the highest first.
abbrev pub print_int32 : ℤ → List ℕ
print_int32 z =
    let n = unsigned_32 z in n / 16777216 ∷ n / 65536 % 256 ∷ n / 256 % 256 ∷ n % 256 ∷ []

signed_32-unsigned_32 : (z : ℤ) → IsInt32 z → signed_32 (unsigned_32 z) ≡ z
unfolding signed_32 unsigned_32
signed_32-unsigned_32 (pos n) h = ground arith
signed_32-unsigned_32 (negsuc n) h = ground arith

bytes-join :
    (n : ℕ) → ((n / 16777216 * 256 + n / 65536 % 256) * 256 + n / 256 % 256) * 256 + n % 256 ≡ n
bytes-join n = omega arith

pub read_int32-print_int32 :
    (z : ℤ) (rest : List ℕ) → IsInt32 z → read_int32 (print_int32 z ++ rest) ≡ some (z, rest)
unfolding read_int32
read_int32-print_int32 z rest h =
    ap (λ n. some (signed_32 n, rest)) (bytes-join (unsigned_32 z))
    ∙ ap (λ x. some (x, rest)) (signed_32-unsigned_32 z h)

abbrev pub gmttimes : List Transition → List ℤ
gmttimes [] = []
gmttimes (t ∷ ts) = t.gmttime ∷ gmttimes ts

abbrev pub indices : List Transition → List ℕ
indices [] = []
indices (t ∷ ts) = t.localtime_idx ∷ indices ts

abbrev pub print_trans : List Transition → List ℕ
print_trans [] = []
print_trans (t ∷ ts) = print_int32 t.gmttime ++ print_trans ts

abbrev pub AllInt32 : List Transition → Type 0
AllInt32 [] = Unit
AllInt32 (t ∷ ts) = IsInt32 t.gmttime × AllInt32 ts

pub read_trans-print_trans :
    (ts : List Transition) (rest : List ℕ)
    → AllInt32 ts
    → read_trans (length ts) (print_trans ts ++ rest) ≡ some (gmttimes ts, rest)
unfolding read_trans
read_trans-print_trans [] rest h = refl
read_trans-print_trans (t ∷ ts) rest (h, hs) =
    ap (λ r. r >>= λ r. read_trans (length ts) r.1 >>= λ rest. some (r.0 ∷ rest.0, rest.1))
      (read_int32-print_int32 t.gmttime (print_trans ts ++ rest) h)
    ∙ ap (λ r. r >>= λ rest. some (t.gmttime ∷ rest.0, rest.1)) (read_trans-print_trans ts rest hs)

pub read_indices-append :
    (ts : List Transition) (rest : List ℕ)
    → read_indices (length ts) (indices ts ++ rest) ≡ some (indices ts, rest)
unfolding read_indices read_uint8
read_indices-append [] rest = refl
read_indices-append (t ∷ ts) rest = rw (read_indices-append ts rest) refl

abbrev pub flag : Bool → ℕ
flag true = 1
flag false = 0

abbrev pub print_localtimes : List Localtime → List ℕ
print_localtimes [] = []
print_localtimes (l ∷ ls) =
    print_int32 l.gmt_offset ++ (flag l.is_dst ∷ l.arrb_idx ∷ print_localtimes ls)

abbrev pub AllOffsetsInt32 : List Localtime → Type 0
AllOffsetsInt32 [] = Unit
AllOffsetsInt32 (l ∷ ls) = IsInt32 l.gmt_offset × AllOffsetsInt32 ls

flag-not : (b : Bool) → not (flag b == 0) ≡ b
flag-not true = refl
flag-not false = refl

read_localtime-print :
    (l : Localtime) (rest : List ℕ)
    → IsInt32 l.gmt_offset
    → read_localtime (print_int32 l.gmt_offset ++ (flag l.is_dst ∷ l.arrb_idx ∷ rest))
      ≡ some (l, rest)
unfolding read_localtime read_flags read_uint8
read_localtime-print l rest h =
    ap (λ r. r >>= λ gmtoff. read_flags gmtoff.0 gmtoff.1)
      (read_int32-print_int32 l.gmt_offset (flag l.is_dst ∷ l.arrb_idx ∷ rest) h)
    ∙ (ap
        (λ b. some (record { gmt_offset = l.gmt_offset; is_dst = b; arrb_idx = l.arrb_idx }, rest))
        (flag-not l.is_dst))

pub read_localtimes-print :
    (ls : List Localtime) (rest : List ℕ)
    → AllOffsetsInt32 ls
    → read_localtimes (length ls) (print_localtimes ls ++ rest) ≡ (ls, some rest)
unfolding read_localtimes push_localtime
read_localtimes-print [] rest h = refl
read_localtimes-print (l ∷ ls) rest (h, hs) =
    ap (λ r. push_localtime r (λ bs. read_localtimes (length ls) bs))
      (read_localtime-print l (print_localtimes ls ++ rest) h)
    ∙ ap (λ (r : LocaltimesRead). (l ∷ r.0, r.1)) (read_localtimes-print ls rest hs)

pub make_transitions-same :
    (ls : List Localtime) (ts : List Transition)
    → AllConsistent ls ts
    → make_transitions ls (gmttimes ts) (indices ts) ≡ some ts
unfolding make_transitions
make_transitions-same ls [] h = refl
make_transitions-same ls (t ∷ ts) (h, hs) = elim (Option-cases (get_elem? ls t.localtime_idx)) [
  | inl missing ↦
      absurd
        (subst (Ensures (λ (l : Localtime). t.localtime ≡ t.gmttime +ℤ l.gmt_offset)) missing h)
  | inr (l, there) ↦
      let made : t.localtime ≡ t.gmttime +ℤ l.gmt_offset =
        subst (Ensures (λ (l : Localtime). t.localtime ≡ t.gmttime +ℤ l.gmt_offset)) there h in
      rw (there, make_transitions-same ls ts hs)
        (ap
          (λ local. some (
            record { gmttime = t.gmttime; localtime = local; localtime_idx = t.localtime_idx }
            ∷ ts))
          (sym made))
]
