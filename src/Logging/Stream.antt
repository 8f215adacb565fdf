-- ===== src/Logging/Stream.antt =====
-- `LogStream` of base/log_stream.h and base/log_stream.cpp: the numbers and texts that a log line is
-- put together from. A number is its sign and its magnitude; the text of a floating point number,
-- which snprintf makes, is an argument.
pub mod Numerals
pub mod Lines
mod Examples
use so_l.Common.{
  ℕ, zero, suc, ◌+◌, ◌-◌, ◌*◌, ◌/◌, ◌%◌, Bool, true, false, not, ◌&&◌, ltb, leb, ◌==◌,
  if◌then◌else◌, Option, none, some, List, [], ◌∷◌, ◌++◌, length, get_or, reverse, ◌>>=◌,
}
use so_l.Common.Text.{codes}
use so_l.Logging.FixedBuffer.{FixedBuffer, new_buffer, avail, append}

pub record Integer : Type 0 where
  pub negative : Bool
  pub magnitude : ℕ

-- `i < 0`
abbrev pub is_negative : Integer → Bool
is_negative i = i.negative && not (i.magnitude == 0)

abbrev pub digits : List ℕ
digits = codes "9876543210123456789"

abbrev pub digits_hex : List ℕ
digits_hex = codes "0123456789ABCDEF"

-- `zero[lsd]`, where the remainder has the sign of the number.
abbrev pub digit : Bool → ℕ → ℕ
digit negative lsd = get_or digits (if negative then 9 - lsd else 9 + lsd) 0

-- The loop that writes the digits, least first. No number of a machine word needs as many rounds as
-- a number may have characters.
unfoldable pub digits_loop : ℕ → (ℕ → ℕ) → ℕ → ℕ → Option (List ℕ)
digits_loop base char zero i = none
digits_loop base char (suc fuel) i =
    let rest = digits_loop base char fuel (i / base) in
    if (i / base) == 0
    then some (char (i % base) ∷ [])
    else rest >>= λ ds. some (char (i % base) ∷ ds)

abbrev pub max_numeric_size : ℕ
max_numeric_size = 32

abbrev with_sign : Integer → List ℕ → List ℕ
with_sign value ds = if is_negative value then ds ++ codes "-" else ds

-- `convert<T>`
unfoldable pub convert : Integer → Option (List ℕ)
unfolding digits_loop
convert value = digits_loop 10 (digit value.negative) max_numeric_size value.magnitude >>= λ ds.
    some (reverse (with_sign value ds))

-- `convertHex`
unfoldable pub convert_hex : ℕ → Option (List ℕ)
unfolding digits_loop
convert_hex value = digits_loop 16 (λ lsd. get_or digits_hex lsd 0) max_numeric_size value >>= λ ds.
    some (reverse ds)

-- `buffer_.add` behind a text written at `buffer_.current()`.
abbrev add : FixedBuffer → List ℕ → FixedBuffer
add b text = record b { bytes = b.bytes ++ text }

-- `formatInteger`
unfoldable pub format_integer : FixedBuffer → Integer → Option FixedBuffer
unfolding convert avail
format_integer b v =
    if leb max_numeric_size (avail b) then (convert v >>= λ text. some (add b text)) else some b

-- `operator<<(const void *)`
unfoldable pub format_pointer : FixedBuffer → ℕ → Option FixedBuffer
unfolding convert_hex avail
format_pointer b p =
    if leb max_numeric_size (avail b)
    then (convert_hex p >>= λ text. some (add b (codes "0x" ++ text)))
    else some b

-- What is put into a stream, one constructor for each kind of operator. `none` is a null pointer.
pub data Item : Type 0 where
  bool_item : Bool → Item
  integer_item : Integer → Item
  pointer_item : ℕ → Item
  double_item : List ℕ → Item
  char_item : ℕ → Item
  text_item : Option (List ℕ) → Item

-- `operator<<`
unfoldable pub put : FixedBuffer → Item → Option FixedBuffer
unfolding append format_integer format_pointer avail
put b (bool_item v) = some (append b (if v then codes "1" else codes "0"))
put b (integer_item v) = format_integer b v
put b (pointer_item p) = format_pointer b p
put b (double_item text) = some (if leb max_numeric_size (avail b) then add b text else b)
put b (char_item c) = some (append b (c ∷ []))
put b (text_item (some text)) = some (append b text)
put b (text_item none) = some (append b (codes "(null)"))

-- A chain of operators.
unfoldable pub put_all : FixedBuffer → List Item → Option FixedBuffer
unfolding put
put_all b [] = some b
put_all b (i ∷ is) = put b i >>= λ c. put_all c is
