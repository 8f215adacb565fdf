-- ===== src/Logging/Printf.antt =====
-- The conversions of snprintf that base/Logging.cpp uses, `%0<w>d` on a number that is not negative and `%<w>d`.
use so_l.Common.{
  ℕ, zero, suc, ◌+◌, ◌-◌, ◌/◌, ◌%◌, ◌^◌, ◌<◌, ◌≡◌, refl, ◌==◌, if◌then◌else◌, List, [], ◌∷◌, ◌++◌,
  length, replicate, length-append, Bool-cases, inl, inr, arith,
}
use so_l.Common.Int.{ℤ, pos, negsuc}

abbrev pub digit : ℕ → ℕ
digit n = 48 + n % 10

-- The digits of a number that are left when the width is used up. An int has less than twenty.
unfoldable pub excess : ℕ → ℕ → List ℕ
excess zero n = []
excess (suc fuel) n =
    let rest = excess fuel (n / 10) in if n == 0 then [] else rest ++ (digit n ∷ [])

unfoldable pub zero_padded : ℕ → ℕ → List ℕ
unfolding excess
zero_padded zero n = excess 20 n
zero_padded (suc w) n = zero_padded w (n / 10) ++ (digit n ∷ [])

unfoldable pub space_padded : ℕ → ℕ → List ℕ
unfolding excess
space_padded zero n = excess 20 n
space_padded (suc w) n =
    let rest = space_padded w (n / 10) in
    (if (n / 10) == 0 then replicate w 32 else rest) ++ (digit n ∷ [])

unfoldable pub space_padded_int : ℕ → ℤ → List ℕ
unfolding space_padded excess
space_padded_int w (pos n) = space_padded w n
space_padded_int w (negsuc n) =
    let text = 45 ∷ excess 20 (suc n) in replicate (w - length text) 32 ++ text

-- A number that has no more digits than the width is printed in just that width.
pub length-zero_padded : (w n : ℕ) → n < 10 ^ w → length (zero_padded w n) ≡ w
unfolding zero_padded excess
length-zero_padded zero n h = elim (Bool-cases (n == 0)) [
  | inl nothing ↦ rw nothing refl
  | inr some_digit ↦ absurd (ground (arith, h))
]
length-zero_padded (suc w) n h = omega (
  arith,
  length-append (zero_padded w (n / 10)) (digit n ∷ []),
  length-zero_padded w (n / 10) (omega (arith, h)),
)

length-replicate : (w c : ℕ) → length (replicate w c) ≡ w
length-replicate zero c = refl
length-replicate (suc w) c = omega (arith, length-replicate w c)

pub length-space_padded : (w n : ℕ) → n < 10 ^ w → length (space_padded w n) ≡ w
unfolding space_padded excess
length-space_padded zero n h = elim (Bool-cases (n == 0)) [
  | inl nothing ↦ rw nothing refl
  | inr some_digit ↦ absurd (ground (arith, h))
]
length-space_padded (suc w) n h = elim (Bool-cases ((n / 10) == 0)) [
  | inl small ↦
      rw small (omega (arith, length-append (replicate w 32) (digit n ∷ []), length-replicate w 32))
  | inr large ↦
      let front = length-space_padded w (n / 10) (omega (arith, h)) in
      rw large (omega (arith, length-append (space_padded w (n / 10)) (digit n ∷ []), front))
]

pub length-space_padded_int : (w n : ℕ) → n < 10 ^ w → length (space_padded_int w (pos n)) ≡ w
unfolding space_padded_int
length-space_padded_int w n h = length-space_padded w n h
