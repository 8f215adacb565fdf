-- ===== src/Logging/Async/Buffers.antt =====
-- The sizes of the buffers, and that `append` and the swap under the mutex keep them.
use so_l.Common.{
  Ensures, ℕ, ◌≤◌, ◌≡◌, refl, ap, Bool, true, ltb, Option, none, some, List, [], ◌∷◌, ◌++◌, length,
  length-append, arith, ◌⊎◌, inl, inr, Bool-cases,
}
use so_l.Logging.FixedBuffer.{FixedBuffer, avail, append as buffer_append, append_lem}
use so_l.Logging.Async.{collect_into, move_into_empty, System, init, append, spare, is_clean}

-- A buffer of the log's size, whose cursor is within it.
pub record IsSized (n : ℕ) (b : FixedBuffer) : Type 0 where
  pub size_is : b.size ≡ n
  pub within : length b.bytes ≤ n

abbrev pub AreSized : ℕ → List FixedBuffer → Type 0
AreSized n [] = Unit
AreSized n (b ∷ bs) = IsSized n b × AreSized n bs

-- An empty buffer of the log's size.
abbrev pub IsFresh : ℕ → Option FixedBuffer → Type 0
IsFresh n none = ⊥
IsFresh n (some b) = (b.size ≡ n) × (b.bytes ≡ [])

-- The same, if it was not moved from.
abbrev pub IsSpare : ℕ → Option FixedBuffer → Type 0
IsSpare n none = Unit
IsSpare n (some b) = (b.size ≡ n) × (b.bytes ≡ [])

-- A buffer that is gone was replaced: it left at least `k` in the list.
abbrev pub Leaves : ℕ → Option FixedBuffer → List FixedBuffer → Type 0
Leaves k none bs = k ≤ length bs
Leaves k (some b) bs = Unit

-- The consumer before the block under the mutex, and after it.
-- (the size, `buffersToWrite`, `newBuffer1`, `newBuffer2`)
pub record IsIdle (n : ℕ) (w : List FixedBuffer) (a b : Option FixedBuffer) : Type 0 where
  pub nothing_to_write : w ≡ []
  pub first : IsFresh n a
  pub second : IsFresh n b

pub record HasCollected (n : ℕ) (w : List FixedBuffer) (a b : Option FixedBuffer) : Type 0 where
  pub something_to_write : 1 ≤ length w
  pub first : a ≡ none
  pub second : IsSpare n b
  pub enough : Leaves 2 b w

abbrev pub Phase : ℕ → List FixedBuffer → Option FixedBuffer → Option FixedBuffer → Type 0
Phase n w a b = IsIdle n w a b ⊎ HasCollected n w a b

pub record Inv (s : System) : Type 0 where
  pub current : IsSized s.buffer_size s.current_buffer
  pub next : IsSpare s.buffer_size s.next_buffer
  pub next_used : Leaves 1 s.next_buffer s.buffers
  pub sized : AreSized s.buffer_size s.buffers
  pub written_sized : AreSized s.buffer_size s.buffers_to_write
  pub phase : Phase s.buffer_size s.buffers_to_write s.new_buffer1 s.new_buffer2

pub init-Inv : (n : ℕ) (sync : Bool) → Inv (init n sync)
unfolding init
init-Inv n sync = record {
  current = omega arith;
  next = (refl, refl);
  next_used = tt;
  sized = tt;
  written_sized = tt;
  phase = inl (record { nothing_to_write = refl; first = (refl, refl); second = (refl, refl) });
}

AreSized-snoc :
    (n : ℕ) (bs : List FixedBuffer) (b : FixedBuffer)
    → AreSized n bs
    → IsSized n b
    → AreSized n (bs ++ (b ∷ []))
AreSized-snoc n [] b h k = (k, tt)
AreSized-snoc n (x ∷ bs) b h k = (h.0, AreSized-snoc n bs b h.1 k)

append-IsSized :
    (n : ℕ) (b : FixedBuffer) (l : List ℕ) → IsSized n b → IsSized n (buffer_append b l)
append-IsSized n b l v =
    let (valid, same, _) = append_lem b l (record { within = omega arith }) in
    record { size_is = omega arith; within = omega arith }

spare-IsSized : (n : ℕ) (o : Option FixedBuffer) → IsSpare n o → IsSized n (spare n o)
spare-IsSized n none h = omega arith
spare-IsSized n (some b) h = record { size_is = h.0; within = omega (arith, ap length h.1) }

-- An appended line keeps the invariant, in either phase.
pub append-Inv : (s : System) (l : List ℕ) → Inv s → Inv (append s l).0
unfolding append
append-Inv s l v = elim (Bool-cases (ltb (length l) (avail s.current_buffer))) [
  | inl fits ↦ rw fits record {
    current = append-IsSized _ _ l v.current;
    next = v.next;
    next_used = v.next_used;
    sized = v.sized;
    written_sized = v.written_sized;
    phase = v.phase;
  }
  | inr full ↦ rw full record {
    current = append-IsSized _ _ l (spare-IsSized _ s.next_buffer v.next);
    next = tt;
    next_used = omega (arith, length-append s.buffers (s.current_buffer ∷ []));
    sized = AreSized-snoc _ s.buffers _ v.sized v.current;
    written_sized = v.written_sized;
    phase = v.phase;
  }
]

pub is_clean-some : (n : ℕ) (o : Option FixedBuffer) → IsFresh n o → is_clean o ≡ true
is_clean-some n none h = absurd h
is_clean-some n (some b) h = rw (h.1)

move_into_empty-IsSpare :
    (n : ℕ) (o from : Option FixedBuffer) (bs : List FixedBuffer) (b : FixedBuffer)
    → IsSpare n o
    → Leaves 1 o bs
    → IsFresh n from
    → let (next, second) = move_into_empty o from in
      IsSpare n next × Leaves 1 next [] × IsSpare n second × Leaves 2 second (bs ++ (b ∷ []))
move_into_empty-IsSpare n none none bs b h k f = absurd f
move_into_empty-IsSpare n none (some c) bs b h k f =
    (f, tt, tt, omega (arith, length-append bs (b ∷ [])))
move_into_empty-IsSpare n (some c) none bs b h k f = absurd f
move_into_empty-IsSpare n (some c) (some d) bs b h k f = (h, tt, f, tt)

pub collect_into-Inv :
    (s : System) (a : Option FixedBuffer)
    → Inv s
    → IsFresh s.buffer_size a
    → IsFresh s.buffer_size s.new_buffer2
    → Ensures Inv (collect_into s a)
unfolding collect_into
collect_into-Inv s none v f g = f
collect_into-Inv s (some fresh) v f g =
    let (next, used, second, enough) =
      move_into_empty-IsSpare _ s.next_buffer s.new_buffer2 s.buffers s.current_buffer v.next
        v.next_used g in
    record {
      current = record { size_is = f.0; within = omega (arith, ap length f.1) };
      next = next;
      next_used = used;
      sized = tt;
      written_sized = AreSized-snoc _ s.buffers _ v.sized v.current;
      phase = inr (record {
        something_to_write = omega (arith, length-append s.buffers (s.current_buffer ∷ []));
        first = refl;
        second = second;
        enough = enough;
      });
    }
