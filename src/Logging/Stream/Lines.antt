-- ===== src/Logging/Stream/Lines.antt =====
-- What is put into a stream: numbers that can be read back, and never more than fits.
use mathlib.Core.List.{reverse-append}
use so_l.Common.{
  ℕ, ◌+◌, ◌-◌, ◌≤◌, ◌<◌, ◌≡◌, ◌⊎◌, refl, ap, Bool, true, false, leb, if◌then◌else◌, Option, none,
  some, List, [], ◌∷◌, ◌++◌, length, take, reverse, ◌>>=◌, Ensures, >>=-Ensures, Ensures-mono,
  Bool-cases, arith, length-append, inl, inr, get_or,
}
use so_l.Common.Text.{codes}
use so_l.Logging.FixedBuffer.{FixedBuffer, avail, append, append_lem, IsValid}
use so_l.Logging.Stream.{
  Integer, is_negative, digit, digits_hex, digits_loop, convert, convert_hex, format_integer,
  format_pointer, Item, bool_item, integer_item, pointer_item, double_item, char_item, text_item,
  put, put_all,
}
use so_l.Logging.Stream.Numerals.{
  read_from, of_decimal, of_hex, digit-of_decimal, digit-of_hex, length-reversed, IsNumeral,
  digits_loop-IsNumeral, read_from-reverse,
}

-- A sign, and digits that read as `n`, at least one; at most `k` characters.
abbrev pub IsText : ℕ → (ℕ → Option ℕ) → List ℕ → ℕ → ℕ → List ℕ → Type 0
IsText base of_char sign n k text =
    (body : List ℕ) × (text ≡ sign ++ body)
    × (read_from base of_char 0 body ≡ some n)
    × (1 ≤ length body)
    × (length text ≤ k)

abbrev pub sign : Integer → List ℕ
sign v = if is_negative v then codes "-" else []

reverse-sign :
    (b : Bool) (ds : List ℕ)
    → reverse (if b then ds ++ codes "-" else ds) ≡ (if b then codes "-" else []) ++ reverse ds
reverse-sign true ds = reverse-append ds (codes "-")
reverse-sign false ds = refl

length-sign : (b : Bool) → length (if b then codes "-" else []) ≤ 1
length-sign true = omega arith
length-sign false = omega arith

IsText-reverse :
    (base : ℕ) (char : ℕ → ℕ) (of_char : ℕ → Option ℕ) (positive : 1 ≤ base)
    (back : (d : ℕ) → d < base → of_char (char d) ≡ some d) (k s n : ℕ) (sign text ds : List ℕ)
    → text ≡ sign ++ reverse ds
    → length sign ≤ s
    → IsNumeral base char of_char positive back n k ds
    → IsText base of_char sign n (k + s) text
IsText-reverse base char of_char positive back k s n sign text ds e short
      (numeral, at_most, some_digits) =
    let size = length-reversed ds in
    (
      reverse ds,
      e,
      read_from-reverse base char of_char positive back ds n numeral,
      omega (arith, size, some_digits),
      omega (arith, ap (length {0}) e, length-append sign (reverse ds), size, at_most, short),
    )

-- The text of a number of 64 bits is a minus sign if it is negative, and then decimal digits that
-- read as its magnitude; it has at most 21 characters.
pub convert_lem :
    (v : Integer)
    → v.magnitude < 18446744073709551616
    → Ensures (IsText 10 of_decimal (sign v) v.magnitude 21) (convert v)
unfolding convert
convert_lem v h =
    >>=-Ensures
      (IsNumeral 10 (digit v.negative) of_decimal (omega arith) (digit-of_decimal v.negative)
        v.magnitude 20)
      _ (digits_loop 10 (digit v.negative) 32 v.magnitude) _
      (digits_loop-IsNumeral 10 (digit v.negative) of_decimal (omega arith)
        (digit-of_decimal v.negative) 32 19 v.magnitude (omega arith) (omega (arith, h)))
      (λ ds e numeral.
        IsText-reverse 10 (digit v.negative) of_decimal (omega arith) (digit-of_decimal v.negative)
          20 1 v.magnitude (sign v) _ ds (reverse-sign (is_negative v) ds)
          (length-sign (is_negative v)) numeral)

-- The text of a pointer of 64 bits is hexadecimal digits that read as it, at most 16 of them.
convert_hex_lem :
    (p : ℕ) → p < 18446744073709551616 → Ensures (IsText 16 of_hex [] p 16) (convert_hex p)
unfolding convert_hex
convert_hex_lem p h =
    let char : ℕ → ℕ = λ d. get_or digits_hex d 0 in
    >>=-Ensures (IsNumeral 16 char of_hex (omega arith) digit-of_hex p 16) _
      (digits_loop 16 char 32 p) _
      (digits_loop-IsNumeral 16 char of_hex (omega arith) digit-of_hex 32 15 p (omega arith)
        (omega (arith, h)))
      (λ ds e numeral.
        IsText-reverse 16 char of_hex (omega arith) digit-of_hex 16 0 p [] _ ds refl (omega arith)
          numeral)

-- The buffer after a text was put behind its bytes, or dropped.
abbrev pub IsPut : FixedBuffer → (List ℕ → Type 0) → FixedBuffer → Type 0
IsPut b P c =
    ((avail b < 32) × (c ≡ b))
    ⊎ ((32 ≤ avail b) × ((text : List ℕ) × P text × (c ≡ record b { bytes = b.bytes ++ text })))

text-IsPut :
    (b : FixedBuffer) (front : List ℕ) (P : List ℕ → Type 0) (made : Option (List ℕ))
    → IsValid b
    → Ensures (λ text. P (front ++ text) × (length (front ++ text) ≤ 32)) made
    → Ensures
        (λ c. IsValid c × IsPut b P c)
        (if leb 32 (avail b)
          then (made >>= λ text. some (record b { bytes = b.bytes ++ (front ++ text) }))
          else some b)
unfolding avail
text-IsPut b front P none valid h = absurd h
text-IsPut b front P (some text) valid (p, short) =
    elim (Bool-cases (leb 32 (b.size - length b.bytes))) [
      | inl room ↦ rw room (
        record { within = ground (arith, length-append b.bytes (front ++ text), short) },
        inr (ground (arith, room), (front ++ text, p, refl)),
      )
      | inr full ↦ rw full (valid, inl (ground (arith, full), refl))
    ]

-- A number of 64 bits is put whole into a buffer with 32 free bytes, and dropped by any other;
-- either way the cursor stays within the storage.
pub format_integer_lem :
    (b : FixedBuffer) (v : Integer)
    → IsValid b
    → v.magnitude < 18446744073709551616
    → Ensures
        (λ c. IsValid c × IsPut b (IsText 10 of_decimal (sign v) v.magnitude 21) c)
        (format_integer b v)
unfolding format_integer
format_integer_lem b v valid h =
    text-IsPut b [] (IsText 10 of_decimal (sign v) v.magnitude 21) (convert v) valid (
      Ensures-mono _ _ (convert v)
        (λ text (body, e, r, l, short). ((body, e, r, l, short), omega (arith, short)))
        (convert_lem v h))

-- A pointer is put as `0x` and its hexadecimal digits, in the same way.
pub format_pointer_lem :
    (b : FixedBuffer) (p : ℕ)
    → IsValid b
    → p < 18446744073709551616
    → Ensures (λ c. IsValid c × IsPut b (IsText 16 of_hex (codes "0x") p 18) c) (format_pointer b p)
unfolding format_pointer
format_pointer_lem b p valid h =
    text-IsPut b (codes "0x") (IsText 16 of_hex (codes "0x") p 18) (convert_hex p) valid (
      Ensures-mono _ _ (convert_hex p)
        (λ text (body, e, r, l, short).
          ((body, ap (◌++◌ (codes "0x")) e, r, l, omega (arith, short)), omega (arith, short)))
        (convert_hex_lem p h))

-- Numbers are of 64 bits, and the text of a floating point number has less than 32 characters.
abbrev pub IsPrintable : Item → Type 0
IsPrintable (bool_item v) = Unit
IsPrintable (integer_item v) = v.magnitude < 18446744073709551616
IsPrintable (pointer_item p) = p < 18446744073709551616
IsPrintable (double_item text) = length text < 32
IsPrintable (char_item c) = Unit
IsPrintable (text_item t) = Unit

abbrev pub AllPrintable : List Item → Type 0
AllPrintable [] = Unit
AllPrintable (i ∷ is) = IsPrintable i × AllPrintable is

-- What an item leaves: a number is behind the bytes, whole, if 32 bytes are free, and else the buffer is as it
-- was; of a text, as much is behind them as fits.
abbrev IsStoredText : FixedBuffer → List ℕ → FixedBuffer → Type 0
IsStoredText b text c = c ≡ record b { bytes = b.bytes ++ take (b.size - length b.bytes) text }

abbrev pub IsStored : FixedBuffer → Item → FixedBuffer → Type 0
IsStored b (bool_item v) c = IsStoredText b (if v then codes "1" else codes "0") c
IsStored b (integer_item v) c = IsPut b (IsText 10 of_decimal (sign v) v.magnitude 21) c
IsStored b (pointer_item p) c = IsPut b (IsText 16 of_hex (codes "0x") p 18) c
IsStored b (double_item text) c = IsPut b (λ t. t ≡ text) c
IsStored b (char_item x) c = IsStoredText b (x ∷ []) c
IsStored b (text_item (some text)) c = IsStoredText b text c
IsStored b (text_item none) c = IsStoredText b (codes "(null)") c

-- The items one after the other.
abbrev pub AllStored : FixedBuffer → List Item → FixedBuffer → Type 0
AllStored b [] c = c ≡ b
AllStored b (i ∷ is) c = (d : FixedBuffer) × IsStored b i d × AllStored d is c

append-IsStored :
    (b : FixedBuffer) (text : List ℕ)
    → IsValid b
    → IsValid (append b text) × IsStoredText b text (append b text)
append-IsStored b text valid = let (v, size, bytes) = append_lem b text valid in (v, cc)

add_if_room-IsPut :
    (b : FixedBuffer) (text : List ℕ)
    → IsValid b
    → length text < 32
    → Ensures
        (λ c. IsValid c × IsPut b (λ t. t ≡ text) c)
        (some (if leb 32 (avail b) then record b { bytes = b.bytes ++ text } else b))
unfolding avail
add_if_room-IsPut b text valid h = elim (Bool-cases (leb 32 (b.size - length b.bytes))) [
  | inl room ↦ rw room (
    record { within = ground (arith, length-append b.bytes text) },
    inr (ground (arith, room), (text, refl, refl)),
  )
  | inr full ↦ rw full (valid, inl (ground (arith, full), refl))
]

put-IsStored :
    (b : FixedBuffer) (i : Item)
    → IsValid b
    → IsPrintable i
    → Ensures (λ c. IsValid c × IsStored b i c) (put b i)
unfolding put
put-IsStored b (bool_item v) valid h = append-IsStored b _ valid
put-IsStored b (integer_item v) valid h = format_integer_lem b v valid h
put-IsStored b (pointer_item p) valid h = format_pointer_lem b p valid h
put-IsStored b (double_item text) valid h = add_if_room-IsPut b text valid h
put-IsStored b (char_item c) valid h = append-IsStored b (c ∷ []) valid
put-IsStored b (text_item (some text)) valid h = append-IsStored b _ valid
put-IsStored b (text_item none) valid h = append-IsStored b (codes "(null)") valid

-- A chain of items, whose integers and pointers have 64 bits and whose floating point texts have less than 32
-- characters, returns. Item after item, a number is put behind the bytes whole if 32 bytes are free, the
-- text of an integer or a pointer being digits that read as it, and dropped if not; and of a text as much is
-- put as fits. The cursor stays within the storage.
pub put_all-AllStored :
    (b : FixedBuffer) (items : List Item)
    → IsValid b
    → AllPrintable items
    → Ensures (λ c. IsValid c × AllStored b items c) (put_all b items)
unfolding put_all
put_all-AllStored b [] valid h = (valid, refl)
put_all-AllStored b (i ∷ is) valid (h, hs) =
    >>=-Ensures (λ d. IsValid d × IsStored b i d) _ (put b i) (λ d. put_all d is)
      (put-IsStored b i valid h)
      (λ d e (v, stored).
        Ensures-mono (λ c. IsValid c × AllStored d is c) _ (put_all d is)
          (λ c (w, all). (w, (d, stored, all))) (put_all-AllStored d is v hs))

pub put_all-IsValid :
    (b : FixedBuffer) (items : List Item)
    → IsValid b
    → AllPrintable items
    → Ensures IsValid (put_all b items)
put_all-IsValid b items valid h =
    Ensures-mono _ IsValid (put_all b items) (λ c (v, all). v) (put_all-AllStored b items valid h)
