-- ===== src/SocketIo/Reading.antt =====
-- What `readn` returns, and that it returns.
use so_l.Common.{
  zero, suc, take, suc-eq-zero, and_ltb_zero, ltb, ◌&&◌, Ensures-mono, take-append, ℕ, ◌+◌, ◌-◌,
  ◌≤◌, ◌≡◌, refl, sym, ap, ◌∙◌, Bool, true, false, if◌then◌else◌, List, [], ◌∷◌, ◌++◌, length,
  length-append, append-nil, append_assoc, arith, Ensures,
}
use so_l.SocketIo.{
  ReadAnswer, got, Count, count, minus_one, readn_loop, readn, readn_string_loop, readn_string,
}

-- read(2) returns no more than it was asked for.
abbrev pub Fits : ℕ → List ReadAnswer → Type 0
Fits nleft [] = Unit
Fits nleft (got bs ∷ answers) = (length bs ≤ nleft) × Fits (nleft - length bs) answers
Fits nleft (_ ∷ answers) = Fits nleft answers

-- The bytes of the answers up to the first that ends the loop: the end of the stream, EAGAIN or
-- another error.
abbrev pub received : List ReadAnswer → List ℕ
received [] = []
received (got [] ∷ answers) = []
received (got (b ∷ bs) ∷ answers) = (b ∷ bs) ++ received answers
received (ReadAnswer.interrupted ∷ answers) = received answers
received (ReadAnswer.would_block ∷ answers) = []
received (ReadAnswer.failed ∷ answers) = []

-- Some answer ends the loop, whatever was asked for.
abbrev pub Ends : List ReadAnswer → Type 0
Ends [] = ⊥
Ends (got [] ∷ answers) = Unit
Ends (got (b ∷ bs) ∷ answers) = Ends answers
Ends (ReadAnswer.interrupted ∷ answers) = Ends answers
Ends (ReadAnswer.would_block ∷ answers) = Unit
Ends (ReadAnswer.failed ∷ answers) = Unit

-- The answer that ends the loop is an error other than EAGAIN.
abbrev pub ends_in_error : List ReadAnswer → Bool
ends_in_error [] = false
ends_in_error (got [] ∷ answers) = false
ends_in_error (got (b ∷ bs) ∷ answers) = ends_in_error answers
ends_in_error (ReadAnswer.interrupted ∷ answers) = ends_in_error answers
ends_in_error (ReadAnswer.would_block ∷ answers) = false
ends_in_error (ReadAnswer.failed ∷ answers) = true

-- `n` bytes at most of what is received are kept, behind `buff`; -1 is returned just when an error
-- comes before the n-th byte, and otherwise `sum` and the number of bytes kept.
abbrev pub IsRead : ℕ → ℕ → List ℕ → List ReadAnswer → Count × List ℕ → Type 0
IsRead n sum buff answers (c, out) =
    (out ≡ buff ++ take n (received answers))
    × (c ≡ (
        if ends_in_error answers && ltb (length (received answers)) n
        then minus_one
        else count (sum + length (take n (received answers)))))

readn_loop-IsRead :
    (n sum : ℕ) (buff : List ℕ) (answers : List ReadAnswer)
    → Fits n answers
    → Ends answers
    → Ensures (IsRead n sum buff answers) (readn_loop n sum buff answers)
unfolding readn_loop
readn_loop-IsRead n sum buff [] f e = absurd e
readn_loop-IsRead zero sum buff (got [] ∷ answers) f e = (simp append-nil, ground arith)
readn_loop-IsRead zero sum buff (got (b ∷ bs) ∷ answers) f e = absurd (omega arith)
readn_loop-IsRead zero sum buff (ReadAnswer.interrupted ∷ answers) f e =
    (simp append-nil, rw and_ltb_zero (ground arith))
readn_loop-IsRead zero sum buff (ReadAnswer.would_block ∷ answers) f e =
    (simp append-nil, ground arith)
readn_loop-IsRead zero sum buff (ReadAnswer.failed ∷ answers) f e = (simp append-nil, ground arith)
readn_loop-IsRead (suc n) sum buff (got [] ∷ answers) f e =
    rw (suc-eq-zero n) (simp append-nil, ground arith)
readn_loop-IsRead (suc n) sum buff (got (b ∷ bs) ∷ answers) f e =
    rw (suc-eq-zero n, suc-eq-zero (length bs))
      (Ensures-mono _ _
        (readn_loop (suc n - suc (length bs)) (sum + suc (length bs)) (buff ++ (b ∷ bs)) answers)
        (λ r h.
          let more : List ℕ = received answers in
          let kept = take-append (suc n) (b ∷ bs) more f.0 in
          (
            h.0
                ∙ append_assoc buff (b ∷ bs) (take (suc n - suc (length bs)) more)
                ∙ ap (◌++◌ buff) (sym kept),
            ground (
              arith,
              h.1,
              length-append bs more,
              ap (length {0}) kept,
              length-append bs (take (suc n - suc (length bs)) more),
            ),
          ))
        (readn_loop-IsRead (suc n - suc (length bs)) (sum + suc (length bs)) (buff ++ (b ∷ bs))
          answers f.1 e))
readn_loop-IsRead (suc n) sum buff (ReadAnswer.interrupted ∷ answers) f e =
    rw (suc-eq-zero n) (readn_loop-IsRead (suc n) sum buff answers f e)
readn_loop-IsRead (suc n) sum buff (ReadAnswer.would_block ∷ answers) f e =
    (simp append-nil, ground arith)
readn_loop-IsRead (suc n) sum buff (ReadAnswer.failed ∷ answers) f e =
    rw (suc-eq-zero n) (simp append-nil, ground arith)

-- If read(2) returns at most what it was asked for, and the stream ends, runs dry or fails at some
-- point, then `readn` returns: the buffer holds the first `n` bytes that were received before that
-- point, in order, interrupted calls being repeated; -1 is returned just when an error other than
-- EAGAIN came before the n-th byte, and otherwise the number of bytes in the buffer.
pub readn-IsRead :
    (n : ℕ) (answers : List ReadAnswer)
    → Fits n answers
    → Ends answers
    → Ensures (IsRead n 0 [] answers) (readn n answers)
unfolding readn
readn-IsRead n answers f e = readn_loop-IsRead n 0 [] answers f e

-- The answer that ends the loop is the end of the stream.
abbrev pub at_end : List ReadAnswer → Bool
at_end [] = false
at_end (got [] ∷ answers) = true
at_end (got (b ∷ bs) ∷ answers) = at_end answers
at_end (ReadAnswer.interrupted ∷ answers) = at_end answers
at_end (ReadAnswer.would_block ∷ answers) = false
at_end (ReadAnswer.failed ∷ answers) = false

abbrev pub IsReadAll : ℕ → List ℕ → Bool → List ReadAnswer → Count × List ℕ × Bool → Type 0
IsReadAll sum buff flag answers (c, out, z) =
    (out ≡ buff ++ received answers)
    × (z ≡ (if at_end answers then true else flag))
    × (c ≡ (if ends_in_error answers then minus_one else count (sum + length (received answers))))

readn_string_loop-IsReadAll :
    (sum : ℕ) (buff : List ℕ) (flag : Bool) (answers : List ReadAnswer)
    → Ends answers
    → Ensures (IsReadAll sum buff flag answers) (readn_string_loop sum buff flag answers)
unfolding readn_string_loop
readn_string_loop-IsReadAll sum buff z [] e = absurd e
readn_string_loop-IsReadAll sum buff z (got [] ∷ answers) e = (simp append-nil, refl, ground arith)
readn_string_loop-IsReadAll sum buff z (got (b ∷ bs) ∷ answers) e = rw (suc-eq-zero (length bs)) (
    Ensures-mono _ _ (readn_string_loop (sum + suc (length bs)) (buff ++ (b ∷ bs)) z answers)
      (λ r h. (
        h.0 ∙ append_assoc buff (b ∷ bs) (received answers),
        h.1,
        ground (arith, h.2, length-append bs (received answers)),
      ))
      (readn_string_loop-IsReadAll (sum + suc (length bs)) (buff ++ (b ∷ bs)) z answers e))
readn_string_loop-IsReadAll sum buff z (ReadAnswer.interrupted ∷ answers) e =
    readn_string_loop-IsReadAll sum buff z answers e
readn_string_loop-IsReadAll sum buff z (ReadAnswer.would_block ∷ answers) e =
    (simp append-nil, refl, ground arith)
readn_string_loop-IsReadAll sum buff z (ReadAnswer.failed ∷ answers) e =
    (simp append-nil, refl, refl)

-- If the stream ends, runs dry or fails at some point, then the `readn` on a string returns: it has
-- appended all bytes received before that point, in order; the flag is set just when it was set or
-- the stream ended; -1 is returned just when an error other than EAGAIN came, and otherwise the
-- number of bytes appended.
pub readn_string-IsReadAll :
    (in_buffer : List ℕ) (flag : Bool) (answers : List ReadAnswer)
    → Ends answers
    → Ensures (IsReadAll 0 in_buffer flag answers) (readn_string in_buffer flag answers)
unfolding readn_string
readn_string-IsReadAll in_buffer z answers e = readn_string_loop-IsReadAll 0 in_buffer z answers e
