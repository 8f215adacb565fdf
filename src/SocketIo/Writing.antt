-- ===== src/SocketIo/Writing.antt =====
-- What `writen` sends, and what it leaves in the string.
use so_l.Common.{
  length-drop, subst, ◌≢◌, ℕ, ◌+◌, ◌-◌, ◌≤◌, ◌≡◌, refl, sym, ap, ◌∙◌, ◌==◌, if◌then◌else◌, Option,
  none, some, List, [], ◌∷◌, ◌++◌, length, take, drop, take-append-drop, drop-length-append,
  length-append, length-take, append_assoc, arith, ◌⊎◌, inl, inr, Ensures, Ensures-mono,
  suc-eq-zero,
}
use so_l.SocketIo.{
  WriteAnswer, wrote, Count, count, minus_one, Ending, done, again, error, to_count, keep_unsent,
  writen_loop, writen, writen_string,
}

-- write(2) takes no more than it was given.
abbrev pub Takes : ℕ → List WriteAnswer → Type 0
Takes n [] = Unit
Takes n (wrote k ∷ answers) = (k ≤ n) × Takes (n - k) answers
Takes n (_ ∷ answers) = Takes n answers

-- The loop ends: everything is taken, or an answer stops it.
abbrev pub Halts : ℕ → List WriteAnswer → Type 0
Halts n [] = n ≡ 0
Halts n (wrote k ∷ answers) = Halts (n - k) answers
Halts n (WriteAnswer.interrupted ∷ answers) = Halts n answers
Halts n (WriteAnswer.would_block ∷ answers) = Unit
Halts n (WriteAnswer.failed ∷ answers) = Unit

-- What went out is a prefix of the bytes, all of them if the loop was done.
abbrev pub IsSent : ℕ → List ℕ → List ℕ → Ending × ℕ × List ℕ → Type 0
IsSent start before ptr (e, sum, sent) =
    (rest : List ℕ) × (sent ++ rest ≡ before ++ ptr)
    × (sum + length before ≡ start + length sent)
    × (((rest ≡ []) × (e ≡ done)) ⊎ ((rest ≢ []) × (e ≢ done)))

writen_loop-IsSent :
    (ptr : List ℕ) (sum : ℕ) (sent : List ℕ) (answers : List WriteAnswer)
    → Takes (length ptr) answers
    → Halts (length ptr) answers
    → Ensures (IsSent sum sent ptr) (writen_loop ptr sum sent answers)
unfolding writen_loop
writen_loop-IsSent [] sum sent [] t s = ([], refl, refl, inl (refl, refl))
writen_loop-IsSent [] sum sent (wrote k ∷ answers) t s = ([], refl, refl, inl (refl, refl))
writen_loop-IsSent [] sum sent (WriteAnswer.interrupted ∷ answers) t s =
    ([], refl, refl, inl (refl, refl))
writen_loop-IsSent [] sum sent (WriteAnswer.would_block ∷ answers) t s =
    ([], refl, refl, inl (refl, refl))
writen_loop-IsSent [] sum sent (WriteAnswer.failed ∷ answers) t s =
    ([], refl, refl, inl (refl, refl))
writen_loop-IsSent (b ∷ bs) sum sent [] t s = absurd (omega arith)
writen_loop-IsSent (b ∷ bs) sum sent (wrote k ∷ answers) t s =
    let ptr : List ℕ = b ∷ bs in
    let left : length ptr - k ≡ length (drop k ptr) = sym (length-drop k ptr) in
    rw (suc-eq-zero (length bs)) (
      Ensures-mono _ _ (writen_loop (drop k ptr) (sum + k) (sent ++ take k ptr) answers)
        (λ r h. (
          h.0,
          h.1
              ∙ append_assoc sent (take k ptr) (drop k ptr)
              ∙ ap (◌++◌ sent) (take-append-drop k ptr),
          omega (arith, h.2, t.0, length-append sent (take k ptr), length-take k ptr),
          h.3,
        ))
        (writen_loop-IsSent (drop k ptr) (sum + k) (sent ++ take k ptr) answers
          (subst (λ n. Takes n answers) left t.1) (subst (λ n. Halts n answers) left s)))
writen_loop-IsSent (b ∷ bs) sum sent (WriteAnswer.interrupted ∷ answers) t s =
    rw (suc-eq-zero (length bs)) (writen_loop-IsSent (b ∷ bs) sum sent answers t s)
writen_loop-IsSent (b ∷ bs) sum sent (WriteAnswer.would_block ∷ answers) t s =
    rw (suc-eq-zero (length bs)) (b ∷ bs, refl, refl, inr (λ h. cc, λ h. cc))
writen_loop-IsSent (b ∷ bs) sum sent (WriteAnswer.failed ∷ answers) t s =
    rw (suc-eq-zero (length bs)) (b ∷ bs, refl, refl, inr (λ h. cc, λ h. cc))

-- `sent` is a prefix of `ptr`; a count is the number of bytes sent, and it is that of all bytes
-- unless an answer stopped the loop.
abbrev pub IsWritten : List ℕ → Count × List ℕ → Type 0
IsWritten ptr (c, sent) =
    (rest : List ℕ) × (sent ++ rest ≡ ptr)
    × ((c ≡ count (length sent)) ⊎ ((c ≡ minus_one) × (rest ≢ [])))

ending-count :
    (e : Ending) (sum n : ℕ) (rest : List ℕ)
    → sum ≡ n
    → ((rest ≡ []) × (e ≡ done)) ⊎ ((rest ≢ []) × (e ≢ done))
    → (to_count e sum ≡ count n) ⊎ ((to_count e sum ≡ minus_one) × (rest ≢ []))
ending-count done sum n rest h k = inl (ap count h)
ending-count again sum n rest h k = inl (ap count h)
ending-count error sum n rest h (inl k) = cc
ending-count error sum n rest h (inr k) = inr (refl, k.0)

to-IsWritten :
    (ptr : List ℕ) (r : Option (Ending × ℕ × List ℕ))
    → Ensures (IsSent 0 [] ptr) r
    → Ensures
        (IsWritten ptr)
        (elim r [ none ↦ none | some (e, sum, sent) ↦ some (to_count e sum, sent) ])
to-IsWritten ptr none h = absurd h
to-IsWritten ptr (some (e, sum, sent)) h =
    (h.0, h.1, ending-count e sum (length sent) h.0 (omega (arith, h.2)) h.3)

-- If write(2) takes at most what it is given, and the calls end in everything being taken, in EAGAIN
-- or in another error, then `writen` returns: what went out is a prefix of the bytes, in order, and
-- the result is its length, or -1 with a part of the bytes unsent.
pub writen-IsWritten :
    (ptr : List ℕ) (answers : List WriteAnswer)
    → Takes (length ptr) answers
    → Halts (length ptr) answers
    → Ensures (IsWritten ptr) (writen ptr answers)
unfolding writen
writen-IsWritten ptr answers t s =
    to-IsWritten ptr (writen_loop ptr 0 [] answers) (writen_loop-IsSent ptr 0 [] answers t s)

-- What went out, followed by what is left in the string, is the string as it was, if a count is
-- returned; on -1 the string is as it was, whatever went out.
abbrev pub Leaves : List ℕ → Count × List ℕ × List ℕ → Type 0
Leaves sbuff (count k, left, sent) = (k ≡ length sent) × (sent ++ left ≡ sbuff)
Leaves sbuff (minus_one, left, sent) = left ≡ sbuff

left_over :
    (sent rest : List ℕ) → (if length sent == length (sent ++ rest) then [] else rest) ≡ rest
left_over sent [] = ground arith
left_over sent (c ∷ cs) = ground (arith, length-append sent (c ∷ cs))

drop-prefix :
    (sum : ℕ) (sbuff sent rest : List ℕ)
    → sent ++ rest ≡ sbuff
    → sum ≡ length sent
    → sent ++ (if sum == length sbuff then [] else drop sum sbuff) ≡ sbuff
drop-prefix sum sbuff sent rest h k =
    rw (← h, k, drop-length-append sent rest) (ap (◌++◌ sent) (left_over sent rest))

to-Leaves :
    (sbuff : List ℕ) (r : Option (Ending × ℕ × List ℕ))
    → Ensures (IsSent 0 [] sbuff) r
    → Ensures (Leaves sbuff) (elim r [
      | none ↦ none
      | some (e, sum, sent) ↦ some (to_count e sum, keep_unsent e sum sbuff, sent)
    ])
to-Leaves sbuff none h = absurd h
to-Leaves sbuff (some (done, sum, sent)) h =
    (omega (arith, h.2), drop-prefix sum sbuff sent h.0 h.1 (omega (arith, h.2)))
to-Leaves sbuff (some (again, sum, sent)) h =
    (omega (arith, h.2), drop-prefix sum sbuff sent h.0 h.1 (omega (arith, h.2)))
to-Leaves sbuff (some (error, sum, sent)) h = refl

-- Under the same conditions the `writen` on a string returns. With a count, the bytes that went out
-- are so many, and followed by those left in the string they are the string as it was: no byte is
-- lost or kept for a second time. With -1 the string is as it was.
pub writen_string-Leaves :
    (sbuff : List ℕ) (answers : List WriteAnswer)
    → Takes (length sbuff) answers
    → Halts (length sbuff) answers
    → Ensures (Leaves sbuff) (writen_string sbuff answers)
unfolding writen_string
writen_string-Leaves sbuff answers t s =
    to-Leaves sbuff (writen_loop sbuff 0 [] answers) (writen_loop-IsSent sbuff 0 [] answers t s)
