-- ===== src/Logging/Async/Rounds.antt =====
-- What the steps of a round do to the buffers that the consumer writes.
use so_l.Common.{
  ℕ, ◌+◌, ◌≡◌, inl, inr, refl, subst, true, false, if◌then◌else◌, ◌&&◌, ltb, Bool-cases, Option,
  none, some, List, [], ◌∷◌, ◌++◌, length, take, ◌>>=◌, Ensures, arith,
}
use so_l.Logging.FixedBuffer.{FixedBuffer, avail}
use so_l.Logging.Async.{
  System, append, is_clean, is_empty, collect_into, collect, concat, shed, drain, refill_both,
  consume, step,
}
use so_l.Logging.Async.Buffers.{Inv}
use so_l.Logging.Async.Invariant.{step-Inv}

Ensures-and :
    {A : Type 0} (P Q : A → Type 0) (m : Option A)
    → Ensures P m
    → ((a : A) → m ≡ some a → Q a)
    → Ensures (λ a. P a × Q a) m
Ensures-and P Q none h k = absurd h
Ensures-and P Q (some a) h k = (h, k a refl)

is_empty-++ : (bs : List FixedBuffer) (b : FixedBuffer) → is_empty (bs ++ (b ∷ [])) ≡ false
is_empty-++ [] b = refl
is_empty-++ (c ∷ bs) b = refl

collect_into-Fills :
    (s t : System) (fresh : Option FixedBuffer)
    → collect_into s fresh ≡ some t
    → is_empty t.buffers_to_write ≡ false
unfolding collect_into
collect_into-Fills s t none e = absurd (ground (arith, e))
collect_into-Fills s t (some fresh) e =
    subst (Ensures (λ u. is_empty u.buffers_to_write ≡ false)) e
      (is_empty-++ s.buffers s.current_buffer)

collect-Fills : (s t : System) → collect s ≡ some t → is_empty t.buffers_to_write ≡ false
unfolding collect
collect-Fills s t =
    elim (Bool-cases
      (is_clean s.new_buffer1 && is_clean s.new_buffer2 && is_empty s.buffers_to_write)) [
        | inl clean ↦ rw clean (λ e. collect_into-Fills s t s.new_buffer1 e)
        | inr not ↦ rw not (λ e. absurd (ground (arith, e)))
      ]

pub append_written :
    (s : System) (l : List ℕ) → (append s l).0.buffers_to_write ≡ s.buffers_to_write
unfolding append
append_written s l = elim (Bool-cases (ltb (length l) (avail s.current_buffer))) [
  | inl room ↦ rw room refl
  | inr full ↦ rw full refl
]

-- The end of a round.
abbrev ends_round :
    System → List FixedBuffer → List ℕ → Option (FixedBuffer × FixedBuffer) → Option System
ends_round s kept notice m = m >>= λ fresh. some (record s {
  new_buffer1 = some fresh.0;
  new_buffer2 = some fresh.1;
  buffers_to_write = [];
  output = s.output ++ (notice ++ concat kept);
  flushes = s.flushes + 1;
})

ends_round-Empties :
    (s t : System) (kept : List FixedBuffer) (notice : List ℕ)
    (m : Option (FixedBuffer × FixedBuffer))
    → ends_round s kept notice m ≡ some t
    → is_empty t.buffers_to_write ≡ true
ends_round-Empties s t kept notice none e = absurd (ground (arith, e))
ends_round-Empties s t kept notice (some fresh) e =
    subst (Ensures (λ u. is_empty u.buffers_to_write ≡ true)) e refl

module _ (report : ℕ → List ℕ) where
  -- A consumer with nothing to write collects, and has something then.
  pub collect-Full :
      (s : System)
      → Inv s
      → is_empty s.buffers_to_write ≡ true
      → Ensures (λ t. Inv t × (is_empty t.buffers_to_write ≡ false)) (collect s)
  unfolding step
  collect-Full s v e =
      let goes : Ensures Inv (if is_empty s.buffers_to_write then collect s else drain report s) =
        step-Inv report s consume v in
      Ensures-and _ _ (collect s)
        (subst (λ b. Ensures Inv (if b then collect s else drain report s)) e goes)
        (λ t. collect-Fills s t)

  drain-Empties : (s t : System) → drain report s ≡ some t → is_empty t.buffers_to_write ≡ true
  unfolding drain
  drain-Empties s t = elim (Bool-cases (is_empty s.buffers_to_write)) [
    | inl nothing ↦ rw nothing (λ e. absurd (ground (arith, e)))
    | inr full ↦ rw full (
        ends_round-Empties s t (shed report s.buffers_to_write).1 (shed report s.buffers_to_write).0
          (refill_both s.new_buffer1 s.new_buffer2 (take 2 (shed report s.buffers_to_write).1)))
  ]

  -- A consumer with something to write writes it, and has nothing then.
  pub drain-Empty :
      (s : System)
      → Inv s
      → is_empty s.buffers_to_write ≡ false
      → Ensures (λ t. Inv t × (is_empty t.buffers_to_write ≡ true)) (drain report s)
  unfolding step
  drain-Empty s v e =
      let goes : Ensures Inv (if is_empty s.buffers_to_write then collect s else drain report s) =
        step-Inv report s consume v in
      Ensures-and _ _ (drain report s)
        (subst (λ b. Ensures Inv (if b then collect s else drain report s)) e goes)
        (λ t. drain-Empties s t)
