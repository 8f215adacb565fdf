-- ===== src/Logging/Async/Invariant.antt =====
-- The asserts of `threadFunc` never fail: the consumer always has its two empty buffers back.
use so_l.Common.{
  zero, min, length-take, Ensures, >>=-Ensures, Ensures-mono, suc, ℕ, ◌-◌, ◌≤◌, ◌≡◌, refl, ap, Bool,
  false, ltb, Option, none, some, List, [], ◌∷◌, length, take, arith, inl, inr, Bool-cases,
}
use so_l.Logging.FixedBuffer.{FixedBuffer, reset}
use so_l.Logging.Async.{
  refill_both, push_front, reset_back, System, init, is_empty, collect, split_back, refill, shed,
  drain, Event, line, consume, step, run,
}
use so_l.Logging.Async.Buffers.{
  IsSized, AreSized, IsFresh, IsSpare, Leaves, IsIdle, HasCollected, Phase, Inv, init-Inv,
  append-Inv, is_clean-some, collect_into-Inv,
}

-- An idle consumer's asserts hold, and it collects.
collect-Inv :
    (s : System)
    → Inv s
    → IsIdle s.buffer_size s.buffers_to_write s.new_buffer1 s.new_buffer2
    → Ensures Inv (collect s)
unfolding collect
collect-Inv s v idle =
    rw
      (
        is_clean-some _ s.new_buffer1 idle.first,
        is_clean-some _ s.new_buffer2 idle.second,
        ap is_empty idle.nothing_to_write,
      )
      (collect_into-Inv s s.new_buffer1 v idle.first idle.second)

push_front-Ensures :
    (n k : ℕ) (b : FixedBuffer) (r : Option (FixedBuffer × List FixedBuffer))
    → IsSized n b
    → Ensures (λ r. IsSized n r.0 × (length r.1 ≡ k) × AreSized n r.1) r
    → Ensures (λ r. IsSized n r.0 × (length r.1 ≡ suc k) × AreSized n r.1) (push_front b r)
push_front-Ensures n k b none h v = absurd v
push_front-Ensures n k b (some (c, rest)) h v = (v.0, ap suc v.1, (h, v.2))

split_back-Ensures :
    (n : ℕ) (b : FixedBuffer) (bs : List FixedBuffer)
    → AreSized n (b ∷ bs)
    → Ensures (λ r. IsSized n r.0 × (length r.1 ≡ length bs) × AreSized n r.1) (split_back (b ∷ bs))
unfolding split_back
split_back-Ensures n b [] v = (v.0, refl, tt)
split_back-Ensures n b (c ∷ bs) v =
    push_front-Ensures n (length bs) b (split_back (c ∷ bs)) v.0 (split_back-Ensures n c bs v.1)

reset_back-Ensures :
    (n k : ℕ) (r : Option (FixedBuffer × List FixedBuffer))
    → Ensures (λ r. IsSized n r.0 × (length r.1 ≡ k) × AreSized n r.1) r
    → Ensures (λ r. IsFresh n (some r.0) × AreSized n r.1 × (k ≤ length r.1)) (reset_back r)
unfolding reset
reset_back-Ensures n k none v = absurd v
reset_back-Ensures n k (some (b, rest)) v = ((v.0.size_is, refl), v.2, omega arith)

-- A reset buffer is back, and at most one is taken for it.
refill-Ensures :
    (n : ℕ) (o : Option FixedBuffer) (bs : List FixedBuffer)
    → IsSpare n o
    → AreSized n bs
    → Leaves 1 o bs
    → Ensures
        (λ r. IsFresh n (some r.0) × AreSized n r.1 × (length bs - 1 ≤ length r.1))
        (refill o bs)
unfolding refill
refill-Ensures n (some b) bs h v l = (h, v, omega arith)
refill-Ensures n none [] h v l = absurd (omega arith)
refill-Ensures n none (b ∷ bs) h v l =
    Ensures-mono _ _ (reset_back (split_back (b ∷ bs))) (λ r h. (h.0, h.1, omega arith))
      (reset_back-Ensures n (length bs) (split_back (b ∷ bs)) (split_back-Ensures n b bs v))

Leaves-mono :
    (k l : ℕ) (o : Option FixedBuffer) (bs cs : List FixedBuffer)
    → (k ≤ length bs → l ≤ length cs)
    → Leaves k o bs
    → Leaves l o cs
Leaves-mono k l none bs cs f h = f h
Leaves-mono k l (some b) bs cs f h = tt

refill_both-Ensures :
    (n : ℕ) (b : Option FixedBuffer) (w : List FixedBuffer)
    → IsSpare n b
    → AreSized n w
    → 1 ≤ length w
    → Leaves 2 b w
    → Ensures (λ r. IsFresh n (some r.0) × IsFresh n (some r.1)) (refill_both none b w)
unfolding refill_both
refill_both-Ensures n b w h v l e =
    >>=-Ensures (λ r. IsFresh n (some r.0) × AreSized n r.1 × (length w - 1 ≤ length r.1)) _
      (refill none w) _ (refill-Ensures n none w tt v l)
      λ r _ first.
        >>=-Ensures (λ r. IsFresh n (some r.0) × AreSized n r.1 × _) _ (refill b r.1) _
          (refill-Ensures n b r.1 h first.1 (Leaves-mono 2 1 b w r.1 (λ p. omega arith) e))
          λ q _ second. (first.0, second.0)

AreSized-take : (n k : ℕ) (bs : List FixedBuffer) → AreSized n bs → AreSized n (take k bs)
AreSized-take n zero bs v = tt
AreSized-take n (suc k) [] v = tt
AreSized-take n (suc k) (b ∷ bs) v = (v.0, AreSized-take n k bs v.1)

pub is_empty-false : (w : List FixedBuffer) → 1 ≤ length w → is_empty w ≡ false
is_empty-false [] h = absurd (omega arith)
is_empty-false (b ∷ w) h = refl

module _ (report : ℕ → List ℕ) where
  shed-Ensures :
      (n : ℕ) (w : List FixedBuffer)
      → AreSized n w
      → AreSized n (take 2 (shed report w).1)
        × (min 2 (length w) ≤ length (take 2 (shed report w).1))
  unfolding shed
  shed-Ensures n w v = elim (Bool-cases (ltb 25 (length w))) [
    | inl many ↦ rw many (
      AreSized-take n 2 (take 2 w) (AreSized-take n 2 w v),
      omega (arith, length-take 2 w, length-take 2 (take 2 w)),
    )
    | inr few ↦ rw few (AreSized-take n 2 w v, omega (arith, length-take 2 w))
  ]

  -- A consumer that has collected writes, and gets its two buffers back.
  drain-Inv :
      (s : System)
      → Inv s
      → HasCollected s.buffer_size s.buffers_to_write s.new_buffer1 s.new_buffer2
      → Ensures Inv (drain report s)
  unfolding drain
  drain-Inv s v c =
      let (sized, kept) = shed-Ensures s.buffer_size s.buffers_to_write v.written_sized in
      rw (is_empty-false _ c.something_to_write, c.first)
        (>>=-Ensures (λ r. IsFresh s.buffer_size (some r.0) × IsFresh s.buffer_size (some r.1)) Inv
          (refill_both none s.new_buffer2 (take 2 (shed report s.buffers_to_write).1)) _
          (refill_both-Ensures s.buffer_size s.new_buffer2 _ c.second sized
            (omega (arith, c.something_to_write))
            (Leaves-mono 2 2 s.new_buffer2 s.buffers_to_write _ (λ h. omega arith) c.enough))
          λ r _ fresh. record {
            current = v.current;
            next = v.next;
            next_used = v.next_used;
            sized = v.sized;
            written_sized = tt;
            phase = inl (record { nothing_to_write = refl; first = fresh.0; second = fresh.1 });
          })

  consume-Inv :
      (s : System)
      → Inv s
      → Phase s.buffer_size s.buffers_to_write s.new_buffer1 s.new_buffer2
      → Ensures Inv (step report s consume)
  unfolding step
  consume-Inv s v (inl idle) = rw (ap is_empty idle.nothing_to_write) (collect-Inv s v idle)
  consume-Inv s v (inr c) = rw (is_empty-false _ c.something_to_write) (drain-Inv s v c)

  pub step-Inv : (s : System) (e : Event) → Inv s → Ensures Inv (step report s e)
  unfolding step
  step-Inv s (line l) v = append-Inv s l v
  step-Inv s consume v = consume-Inv s v v.phase

  pub run-Inv : (s : System) (es : List Event) → Inv s → Ensures Inv (run report s es)
  unfolding run
  run-Inv s [] v = v
  run-Inv s (e ∷ es) v =
      >>=-Ensures Inv Inv (step report s e) _ (step-Inv s e v) λ t _ w. run-Inv t es w

  -- Whatever lines are appended, of any length, and however the producers and the consumer are
  -- interleaved, no assert of the consumer fails: the run goes on to its end. There all buffers have
  -- the size of the log, none is over-full, and the consumer either has two empty buffers, or is
  -- about to write what it collected.
  pub run-init-Inv :
      (size : ℕ) (sync : Bool) (es : List Event) → Ensures Inv (run report (init size sync) es)
  run-init-Inv size sync es = run-Inv (init size sync) es (init-Inv size sync)
