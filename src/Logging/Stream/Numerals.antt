-- ===== src/Logging/Stream/Numerals.antt =====
-- The digits of a number, and the number of the digits.
use mathlib.Core.List.{reverse-cons}
use so_l.Common.{
  ℕ, zero, suc, ◌+◌, ◌-◌, ◌*◌, ◌/◌, ◌%◌, ◌≤◌, ◌<◌, ◌≡◌, refl, subst, sym, ap, ◌∙◌, Bool, true,
  false, ◌&&◌, ltb, leb, ◌==◌, if◌then◌else◌, Option, none, some, List, [], ◌∷◌, ◌++◌, length,
  get_or, reverse, ◌>>=◌, Ensures, >>=-Ensures, Bool-cases, Option-cases, arith, length-append, inl,
  inr,
}
use native.Mathlib.Nat.{div-lt_iff_lt-mul, mod-add-div, mod-lt}
use so_l.Logging.Stream.{digit, digits_hex, digits_loop}

-- The digits' number, least digit first; `of_char` tells digits from other characters.
abbrev pub value : ℕ → (ℕ → Option ℕ) → List ℕ → Option ℕ
value base of_char [] = some 0
value base of_char (c ∷ cs) = of_char c >>= λ d. value base of_char cs >>= λ n. some (d + base * n)

-- A number read from its text behind `n`, the digit of the highest place first.
abbrev pub read_from : ℕ → (ℕ → Option ℕ) → ℕ → List ℕ → Option ℕ
read_from base of_char n [] = some n
read_from base of_char n (c ∷ cs) = of_char c >>= λ d. read_from base of_char (n * base + d) cs

-- `base` to the power of `k`.
abbrev pub power : ℕ → ℕ → ℕ
power base zero = 1
power base (suc k) = power base k * base

>>=-some :
    (m : Option ℕ) (f : ℕ → Option ℕ) (b : ℕ)
    → m >>= f ≡ some b
    → (a : ℕ) × (m ≡ some a) × (f a ≡ some b)
>>=-some none f b e = absurd (ground (arith, e))
>>=-some (some a) f b e = (a, refl, e)

module _ (base : ℕ) (char : ℕ → ℕ) (of_char : ℕ → Option ℕ) (positive : 1 ≤ base)
    (back : (d : ℕ) → d < base → of_char (char d) ≡ some d) where
  -- The digits stand for `i`, and there are 1 to `k` of them.
  abbrev pub IsNumeral : ℕ → ℕ → List ℕ → Type 0
  IsNumeral i k ds = (value base of_char ds ≡ some i) × (length ds ≤ k) × (1 ≤ length ds)

  more_digits :
      (i k : ℕ) (ds : List ℕ)
      → IsNumeral (i / base) k ds
      → IsNumeral i (suc k) (char (i % base) ∷ ds)
  more_digits i k ds (v, at_most, some_digits) = (
    rw (back _ (mod-lt i positive), v) (ap some (mod-add-div i base)),
    omega (arith, at_most),
    omega arith,
  )

  last_digit : (i k : ℕ) → i / base ≡ 0 → IsNumeral i (suc k) (char (i % base) ∷ [])
  last_digit i k e = (
    rw (back _ (mod-lt i positive))
        (ap (λ q. some (i % base + base * q)) (sym e) ∙ ap some (mod-add-div i base)),
    omega arith,
    omega arith,
  )

  pub digits_loop-IsNumeral :
      (fuel k i : ℕ)
      → suc k ≤ fuel
      → i < power base (suc k)
      → Ensures (IsNumeral i (suc k)) (digits_loop base char fuel i)
  unfolding digits_loop
  digits_loop-IsNumeral zero k i le h = absurd (omega (arith, le))
  digits_loop-IsNumeral (suc fuel) zero i le h =
      let none_left : (i / base ≡ 0) = omega (arith, (div-lt_iff_lt-mul positive).1 h) in
      let last : ((i / base == 0) ≡ true) = ground (arith, none_left) in
      rw last (last_digit i 0 none_left)
  digits_loop-IsNumeral (suc fuel) (suc k) i le h = elim (Bool-cases (i / base == 0)) [
    | inl last ↦ rw last (last_digit i (suc k) (ground arith))
    | inr more ↦ rw more (
        >>=-Ensures (IsNumeral (i / base) (suc k)) (IsNumeral i (suc (suc k)))
          (digits_loop base char fuel (i / base)) (λ ds. some (char (i % base) ∷ ds))
          (digits_loop-IsNumeral fuel k (i / base) (omega (arith, le))
            ((div-lt_iff_lt-mul positive).1 h))
          (λ ds e. more_digits i (suc k) ds))
  ]

  read_from-append :
      (n : ℕ) (cs : List ℕ) (c : ℕ)
      → read_from base of_char n (cs ++ (c ∷ []))
        ≡ (read_from base of_char n cs >>= λ m. of_char c >>= λ d. some (m * base + d))
  read_from-append n [] c = refl
  read_from-append n (x ∷ xs) c = elim (Option-cases (of_char x)) [
    | inl e ↦ rw e refl
    | inr (d, e) ↦ rw e (read_from-append (n * base + d) xs c)
  ]

  -- The digits turned round read as the number that they stand for.
  pub read_from-reverse :
      (ds : List ℕ) (i : ℕ)
      → value base of_char ds ≡ some i
      → read_from base of_char 0 (reverse ds) ≡ some i
  read_from-reverse [] i e = e
  read_from-reverse (d ∷ ds) i e =
      let (x, is_digit, e1) = >>=-some (of_char d) _ i e in
      let (n, tail, e2) = >>=-some (value base of_char ds) (λ n. some (x + base * n)) i e1 in
      ap (read_from base of_char 0) (reverse-cons d ds)
      ∙ read_from-append 0 (reverse ds) d
      ∙ rw (read_from-reverse ds n tail, is_digit) (ap some (omega arith) ∙ e2)

pub length-reversed : (ds : List ℕ) → length (reverse ds) ≡ length ds
length-reversed [] = refl
length-reversed (d ∷ ds) =
    ap (length {0}) (reverse-cons d ds)
    ∙ length-append (reverse ds) (d ∷ [])
    ∙ omega (arith, length-reversed ds)

-- A decimal digit's number.
abbrev pub of_decimal : ℕ → Option ℕ
of_decimal c = if leb 48 c && ltb c 58 then some (c - 48) else none

-- A hexadecimal digit's number.
abbrev pub of_hex : ℕ → Option ℕ
of_hex c =
    if leb 48 c && ltb c 58
    then some (c - 48)
    else if leb 65 c && ltb c 71
    then some (c - 55)
    else none

abbrev AllBelow : (ℕ → Type 0) → ℕ → Type 0
AllBelow P zero = Unit
AllBelow P (suc n) = P n × AllBelow P n

below : (P : ℕ → Type 0) (n d : ℕ) → d < n → AllBelow P n → P d
below P zero d h all = absurd (omega (arith, h))
below P (suc n) d h (here, all) = elim (Bool-cases (ltb d n)) [
  | inl less ↦ below P n d (ground (arith, less)) all
  | inr last ↦ subst P (ground (arith, last, h)) here
]

pub digit-of_decimal : (negative : Bool) (d : ℕ) → d < 10 → of_decimal (digit negative d) ≡ some d
digit-of_decimal true d h =
    below (λ d. of_decimal (digit true d) ≡ some d) 10 d h
      (refl, (refl, (refl, (refl, (refl, (refl, (refl, (refl, (refl, (refl, tt))))))))))
digit-of_decimal false d h =
    below (λ d. of_decimal (digit false d) ≡ some d) 10 d h
      (refl, (refl, (refl, (refl, (refl, (refl, (refl, (refl, (refl, (refl, tt))))))))))

pub digit-of_hex : (d : ℕ) → d < 16 → of_hex (get_or digits_hex d 0) ≡ some d
digit-of_hex d h =
    below (λ d. of_hex (get_or digits_hex d 0) ≡ some d) 16 d h
      (
        refl,
        (
          refl,
          (
            refl,
            (
              refl,
              (
                refl,
                (
                  refl,
                  (
                    refl,
                    (refl, (refl, (refl, (refl, (refl, (refl, (refl, (refl, (refl, tt))))))))),
                  ),
                ),
              ),
            ),
          ),
        ),
      )
