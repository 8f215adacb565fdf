-- ===== src/Logging/Logger/Texts.antt =====
-- Chains of texts put into a stream, and the lengths that a log line's head is asserted to have.
use so_l.Common.{
  ℕ, ◌+◌, ◌<◌, ◌≡◌, refl, Option, none, some, List, [], ◌∷◌, ◌++◌, length, length-append, ◌>>=◌,
  arith,
}
use so_l.Common.Int.{pos, ◌+ℤ◌}
use so_l.Calendar.Utc.{Tm}
use so_l.TimeZone.{Data}
use so_l.Logging.FixedBuffer.{FixedBuffer}
use so_l.Logging.Stream.{Item, put, put_all}
use so_l.Logging.Printf.{zero_padded, space_padded_int, length-zero_padded, length-space_padded_int}
use so_l.Logging.Logger.{print_time, print_micros, micros_length}

pub put_all-++ :
    (b : FixedBuffer) (is js : List Item)
    → put_all b (is ++ js) ≡ (put_all b is >>= λ c. put_all c js)
unfolding put_all
put_all-++ b [] js = refl
put_all-++ b (i ∷ is) js = by_result (put b i) (λ c. put_all-++ c is js)
  where
    by_result :
        (m : Option FixedBuffer)
        → ((c : FixedBuffer) → put_all c (is ++ js) ≡ (put_all c is >>= λ d. put_all d js))
        → (m >>= λ c. put_all c (is ++ js)) ≡ ((m >>= λ c. put_all c is) >>= λ d. put_all d js)
    by_result none h = refl
    by_result (some c) h = h c

-- Three texts put one after another into a stream are one text.
pub put_thrice :
    {A : Type 0} (b : FixedBuffer) (is js ks : List Item) (f : FixedBuffer → A)
    → (put_all b is >>= λ c. put_all c js >>= λ d. put_all d ks >>= λ e. some (f e))
      ≡ (put_all b (is ++ (js ++ ks)) >>= λ e. some (f e))
put_thrice b is js ks f = rw (put_all-++ b is (js ++ ks)) (first (put_all b is))
  where
    second :
        (m : Option FixedBuffer)
        → (m >>= λ d. put_all d ks >>= λ e. some (f e))
          ≡ ((m >>= λ d. put_all d ks) >>= λ e. some (f e))
    second none = refl
    second (some d) = refl

    first :
        (m : Option FixedBuffer)
        → (m >>= λ c. put_all c js >>= λ d. put_all d ks >>= λ e. some (f e))
          ≡ ((m >>= λ c. put_all c (js ++ ks)) >>= λ e. some (f e))
    first none = refl
    first (some c) = rw (put_all-++ c js ks) (second (put_all c js))

-- A value kept beside a result.
pub beside :
    {A B C : Type 0} (a : A) (m : Option B) (f : A × B → Option C)
    → ((m >>= λ b. some (a, b)) >>= f) ≡ (m >>= λ b. f (a, b))
beside a none f = refl
beside a (some b) f = refl

pub >>=-assoc :
    {A B C : Type 0} (m : Option A) (f : A → Option B) (g : B → Option C)
    → ((m >>= f) >>= g) ≡ (m >>= λ a. f a >>= g)
>>=-assoc none f g = refl
>>=-assoc (some a) f g = refl

pub >>=-under :
    {A B : Type 0} (m : Option A) (f g : A → Option B)
    → ((a : A) → f a ≡ g a)
    → (m >>= f) ≡ (m >>= g)
>>=-under none f g h = refl
>>=-under (some a) f g h = h a

-- A civil time whose fields have the digits of the format.
pub record IsPrinted (tm : Tm) : Type 0 where
  pub year : ℕ
  pub year-tm_year : tm.tm_year +ℤ pos 1900 ≡ pos year
  pub year-bound : year < 10000
  pub month : tm.tm_mon < 12
  pub day : tm.tm_mday < 32
  pub hour : tm.tm_hour < 24
  pub minute : tm.tm_min < 60
  pub second : tm.tm_sec < 61

pub length-print_time : (tm : Tm) → IsPrinted tm → length (print_time tm) ≡ 17
unfolding print_time
length-print_time tm h =
    let y = space_padded_int 4 (tm.tm_year +ℤ pos 1900) in
    let mo = zero_padded 2 (tm.tm_mon + 1) in
    let d = zero_padded 2 tm.tm_mday in
    let hr = zero_padded 2 tm.tm_hour in
    let mi = zero_padded 2 tm.tm_min in
    let se = zero_padded 2 tm.tm_sec in
    let time = hr ++ (58 ∷ (mi ++ (58 ∷ se))) in
    let year_length : length y ≡ 4 =
      rw h.year-tm_year (length-space_padded_int 4 h.year (omega (arith, h.year-bound))) in
    omega (
      arith,
      length-append y (mo ++ (d ++ (32 ∷ time))),
      length-append mo (d ++ (32 ∷ time)),
      length-append d (32 ∷ time),
      length-append hr (58 ∷ (mi ++ (58 ∷ se))),
      length-append mi (58 ∷ se),
      year_length,
      length-zero_padded 2 (tm.tm_mon + 1) (omega (arith, h.month)),
      length-zero_padded 2 tm.tm_mday (omega (arith, h.day)),
      length-zero_padded 2 tm.tm_hour (omega (arith, h.hour)),
      length-zero_padded 2 tm.tm_min (omega (arith, h.minute)),
      length-zero_padded 2 tm.tm_sec (omega (arith, h.second)),
    )

pub length-print_micros :
    (zone : Option Data) (n : ℕ) → n < 1000000 → length (print_micros zone n) ≡ micros_length zone
unfolding print_micros
length-print_micros none n h = omega (
  arith,
  length-append (zero_padded 6 n) (90 ∷ 32 ∷ []),
  length-zero_padded 6 n (omega (arith, h)),
)
length-print_micros (some zone) n h =
    omega
      (arith, length-append (zero_padded 6 n) (32 ∷ []), length-zero_padded 6 n (omega (arith, h)))
