-- ===== src/Logging/Stream/Examples.antt =====
-- The theorems on streams at a line with the smallest number of 64 bits and a pointer.
use so_l.Common.{◌≡◌, refl, true, some, none, List, [], ◌∷◌, Ensures, arith}
use so_l.Common.Text.{codes}
use so_l.Logging.FixedBuffer.{FixedBuffer, IsValid}
use so_l.Logging.Stream.{
  Item, Integer, integer_item, text_item, pointer_item, double_item, digits_loop, convert,
  convert_hex, put_all,
}
use so_l.Logging.Stream.Numerals.{of_decimal}
use so_l.Logging.Stream.Lines.{IsText, convert_lem, AllStored, put_all-AllStored}

abbrev smallest : Integer
smallest = record { negative = true; magnitude = 9223372036854775808 }

abbrev line : FixedBuffer
line = record { size = 4000; bytes = codes "n = " }

IsValid-line : IsValid line
IsValid-line = record { within = omega arith }

smallest_text : convert smallest ≡ some (codes "-9223372036854775808")
unfolding convert digits_loop
smallest_text = refl

pointer_text : convert_hex 48879 ≡ some (codes "BEEF")
unfolding convert_hex digits_loop
pointer_text = refl

convert_lem_example :
    Ensures (IsText 10 of_decimal (codes "-") 9223372036854775808 21) (convert smallest)
convert_lem_example = convert_lem smallest (omega arith)

abbrev items : List Item
items = integer_item smallest ∷ text_item none ∷ double_item (codes "1.5") ∷ pointer_item 48879 ∷ []

put_all-AllStored_example : Ensures (λ c. IsValid c × AllStored line items c) (put_all line items)
put_all-AllStored_example =
    put_all-AllStored line items IsValid-line (omega arith, (tt, (omega arith, (omega arith, tt))))
