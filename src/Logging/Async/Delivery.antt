-- ===== src/Logging/Async/Delivery.antt =====
-- Every line reaches the log file, once and in order.
use so_l.Common.{
  Ensures-mono, subst, ◌∙◌, ℕ, ◌≤◌, ◌<◌, ◌≡◌, refl, sym, ap, Bool, true, false, ltb, Option, none,
  some, List, [], ◌∷◌, ◌++◌, length, append-nil, append_assoc, arith, ◌⊎◌, inl, inr, Bool-cases,
  Ensures, >>=-Ensures, le→ltb, ltb→lt,
}
use mathlib.Core.Option.{some-injective}
use so_l.Logging.FixedBuffer.{FixedBuffer, new_buffer, avail, append as buffer_append, append_fits}
use so_l.Logging.Async.{
  System, init, append, spare, is_empty, collect_into, collect, concat, shed, drain, Event, line,
  consume, step, run,
}
use so_l.Logging.Async.Buffers.{Inv, IsSpare, IsFresh, init-Inv, is_clean-some, Phase}
use so_l.Logging.Async.Invariant.{step-Inv}

-- All bytes of the log: what is written, then what the consumer holds, then what is shared.
pub content : System → List ℕ
content s = s.output ++ (concat s.buffers_to_write ++ (concat s.buffers ++ s.current_buffer.bytes))

-- The lines that the producers append, one after the other.
abbrev pub lines : List Event → List ℕ
lines [] = []
lines (line l ∷ es) = l ++ lines es
lines (consume ∷ es) = lines es

-- Every line is shorter than a buffer.
abbrev pub AreShort : ℕ → List Event → Type 0
AreShort n [] = Unit
AreShort n (line l ∷ es) = (length l < n) × AreShort n es
AreShort n (consume ∷ es) = AreShort n es

concat-snoc :
    (bs : List FixedBuffer) (b : FixedBuffer) → concat (bs ++ (b ∷ [])) ≡ concat bs ++ b.bytes
unfolding concat
concat-snoc [] b = append-nil b.bytes
concat-snoc (c ∷ bs) b =
    ap (◌++◌ c.bytes) (concat-snoc bs b) ∙ sym (append_assoc c.bytes (concat bs) b.bytes)

append_spare :
    (n : ℕ) (o : Option FixedBuffer) (l : List ℕ)
    → IsSpare n o
    → length l < n
    → (buffer_append (spare n o) l).bytes ≡ l
unfolding avail
append_spare n none l h k =
    ap (λ (b : FixedBuffer). b.bytes) (append_fits (new_buffer n) l (omega arith))
append_spare n (some b) l h k =
    ap (λ (b : FixedBuffer). b.bytes) (append_fits b l (omega (arith, ap length h.1)))
    ∙ ap (λ (w : List ℕ). w ++ l) h.1

content-append :
    (s : System) (l : List ℕ)
    → Inv s
    → length l < s.buffer_size
    → content (append s l).0 ≡ content s ++ l
unfolding append content
content-append s l v h = elim (Bool-cases (ltb (length l) (avail s.current_buffer))) [
  | inl fits ↦ rw fits (rw (append_fits s.current_buffer l (ltb→lt _ _ fits)) (simp append_assoc))
  | inr full ↦
      rw full (
        rw (append_spare s.buffer_size s.next_buffer l v.next h) (simp (append_assoc, concat-snoc)))
]

content-collect_into :
    (s : System) (a : Option FixedBuffer)
    → IsFresh s.buffer_size a
    → s.buffers_to_write ≡ []
    → Ensures (λ t. content t ≡ content s) (collect_into s a)
unfolding collect_into content concat
content-collect_into s none f e = f
content-collect_into s (some b) f e = rw (f.1, e) (simp (concat-snoc, append-nil))

content-collect :
    (s : System)
    → s.buffers_to_write ≡ []
    → Phase s.buffer_size s.buffers_to_write s.new_buffer1 s.new_buffer2
    → Ensures (λ t. content t ≡ content s) (collect s)
unfolding collect
content-collect s e (inl idle) =
    rw
      (
        is_clean-some _ s.new_buffer1 idle.first,
        is_clean-some _ s.new_buffer2 idle.second,
        ap is_empty e,
      )
      (content-collect_into s s.new_buffer1 idle.first e)
content-collect s e (inr c) = absurd (omega (arith, c.something_to_write, ap (length {0}) e))

is_empty-cases : (w : List FixedBuffer) → ((w ≡ []) × (is_empty w ≡ true)) ⊎ (is_empty w ≡ false)
is_empty-cases [] = inl (refl, refl)
is_empty-cases (b ∷ w) = inr refl

AreShort-cons :
    (n : ℕ) (e : Event) (es : List Event)
    → AreShort n (e ∷ es)
    → AreShort n (e ∷ []) × AreShort n es
AreShort-cons n (line l) es h = ((h.0, tt), h.1)
AreShort-cons n consume es h = (tt, h)

lines-cons : (e : Event) (es : List Event) → lines (e ∷ es) ≡ lines (e ∷ []) ++ lines es
lines-cons (line l) es = sym (append_assoc l [] (lines es))
lines-cons consume es = refl

module _ (report : ℕ → List ℕ) where
  -- At no step of the run the consumer holds more than 25 buffers.
  abbrev pub Quiet : System → List Event → Type 0
  Quiet s [] = Unit
  Quiet s (e ∷ es) =
      (length s.buffers_to_write ≤ 25)
      × elim (step report s e) [ none ↦ Unit | some t ↦ Quiet t es ]

  shed_few : (w : List FixedBuffer) → length w ≤ 25 → shed report w ≡ ([], w)
  unfolding shed
  shed_few w h = rw (le→ltb 25 (length w) h)

  content-drain :
      (s t : System)
      → length s.buffers_to_write ≤ 25
      → drain report s ≡ some t
      → content t ≡ content s
  unfolding drain content concat
  content-drain s t h e = ground (
    arith,
    shed_few s.buffers_to_write h,
    append_assoc s.output (concat s.buffers_to_write) (concat s.buffers ++ s.current_buffer.bytes),
  )

  content-consume :
      (s t : System)
      → Inv s
      → length s.buffers_to_write ≤ 25
      → step report s consume ≡ some t
      → content t ≡ content s
  unfolding step
  content-consume s t v h e = elim (is_empty-cases s.buffers_to_write) [
    | inl (none_left, empty) ↦
        let found : collect s ≡ some t = rw empty at e in
        subst (Ensures (λ t. content t ≡ content s)) found (content-collect s none_left v.phase)
    | inr busy ↦ content-drain s t h (rw busy at e)
  ]

  buffer_size-step :
      (s t : System) (e : Event) → step report s e ≡ some t → t.buffer_size ≡ s.buffer_size
  unfolding step append collect collect_into drain
  buffer_size-step s t (line l) e = ground arith
  buffer_size-step s t consume e = ground arith

  content-step :
      (s t : System) (e : Event)
      → Inv s
      → AreShort s.buffer_size (e ∷ [])
      → length s.buffers_to_write ≤ 25
      → step report s e ≡ some t
      → content t ≡ content s ++ lines (e ∷ [])
  content-step s t (line l) v short h e =
      let made : (append s l).0 ≡ t = unfold step in some-injective _ _ e in
      subst (λ (t : System). content t ≡ content s ++ (l ++ [])) made
        (content-append s l v short.0 ∙ ap (◌++◌ (content s)) (sym (append-nil l)))
  content-step s t consume v short h e = content-consume s t v h e ∙ sym (append-nil (content s))

  content-run :
      (s : System) (es : List Event)
      → Inv s
      → AreShort s.buffer_size es
      → Quiet s es
      → Ensures (λ t. content t ≡ content s ++ lines es) (run report s es)
  unfolding run
  content-run s [] v short quiet = sym (append-nil (content s))
  content-run s (e ∷ es) v short quiet =
      let (now, later) = AreShort-cons s.buffer_size e es short in
      >>=-Ensures Inv _ (step report s e) _ (step-Inv report s e v) λ t made w.
        Ensures-mono _ _ (run report t es)
          (λ u h.
            h
            ∙ ap (λ (c : List ℕ). c ++ lines es) (content-step s t e v now quiet.0 made)
            ∙ append_assoc (content s) (lines (e ∷ [])) (lines es)
            ∙ ap (◌++◌ (content s)) (sym (lines-cons e es)))
          (content-run t es w (subst (λ n. AreShort n es) (sym (buffer_size-step s t e made)) later)
            (rw made at quiet.1))

  -- If every line is shorter than a buffer, and the consumer never holds more than 25 buffers, then
  -- after any interleaving of producers and consumer the bytes written to the log file, then those
  -- that the consumer holds, then those of the full buffers, then those of the front buffer, are
  -- the lines in the order in which they were appended: nothing is lost, doubled or reordered.
  pub content-run-init :
      (size : ℕ) (sync : Bool) (es : List Event)
      → AreShort size es
      → Quiet (init size sync) es
      → Ensures (λ t. content t ≡ lines es) (run report (init size sync) es)
  unfolding content init concat
  content-run-init size sync es short quiet =
      content-run (init size sync) es (init-Inv size sync) short quiet
