-- ===== src/Logging/FixedBuffer.antt =====
-- `FixedBuffer<SIZE>` of base/log_stream.h. The model keeps the bytes from `data_` to `cur_` and
-- the size; what lies behind `cur_` is never read.
use so_l.Common.{
  lt→ltb, Bool-cases, ltb→lt, take_all, inl, inr, ap, sym, ℕ, ◌-◌, ◌≤◌, ◌<◌, ◌≡◌, refl, List, [],
  ◌++◌, arith, ltb, if◌then◌else◌, length, take, length-append, length-take,
}

pub record FixedBuffer : Type 0 where
  pub size : ℕ
  pub bytes : List ℕ

-- The constructor.
abbrev pub new_buffer : ℕ → FixedBuffer
new_buffer size = record { size = size; bytes = [] }

unfoldable pub avail : FixedBuffer → ℕ
avail b = b.size - length b.bytes

unfoldable pub append : FixedBuffer → List ℕ → FixedBuffer
unfolding avail
append b buf =
    if ltb (length buf) (avail b)
    then record b { bytes = b.bytes ++ buf }
    else record b { bytes = b.bytes ++ take (avail b) buf }

unfoldable pub reset : FixedBuffer → FixedBuffer
reset b = record b { bytes = [] }

-- The cursor stays within the storage.
pub record IsValid (b : FixedBuffer) : Type 0 where
  pub within : length b.bytes ≤ b.size

-- Whatever is appended, the cursor stays within the storage, the size does not change, and the
-- bytes that are kept are those that were there, followed by as long a prefix of the new ones as
-- fits.
pub append_lem :
    (b : FixedBuffer) (buf : List ℕ)
    → IsValid b
    → IsValid (append b buf)
      × ((append b buf).size ≡ b.size)
      × ((append b buf).bytes ≡ b.bytes ++ take (b.size - length b.bytes) buf)
unfolding append
append_lem b buf v = elim (Bool-cases (ltb (length buf) (b.size - length b.bytes))) [
  | inl fits ↦ rw fits (
    record { within = omega (arith, length-append b.bytes buf, ltb→lt _ _ fits) },
    refl,
    ap (◌++◌ b.bytes) (sym (take_all _ buf (omega (arith, ltb→lt _ _ fits)))),
  )
  | inr not_fits ↦ rw not_fits (
    record {
      within =
          let n : ℕ = b.size - length b.bytes in
          omega (arith, length-append b.bytes (take n buf), length-take n buf);
    },
    refl,
    refl,
  )
]

-- A text shorter than the free space is stored whole.
pub append_fits :
    (b : FixedBuffer) (buf : List ℕ)
    → length buf < avail b
    → append b buf ≡ record b { bytes = b.bytes ++ buf }
unfolding append
append_fits b buf h = rw (lt→ltb _ _ h)
