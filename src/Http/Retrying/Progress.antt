-- ===== src/Http/Retrying/Progress.antt =====
-- The loop of `readn` ends.
use so_l.Common.{
  ℕ, zero, suc, ◌+◌, ◌-◌, ◌≤◌, ◌<◌, ◌≡◌, refl, sym, ap, ◌∙◌, Ensures, Ensures-mono, List, [], ◌∷◌,
  ◌++◌, length, length-append, append_assoc, append-nil, arith, suc-eq-zero,
}
use so_l.SocketIo.{ReadAnswer, got}
use so_l.SocketIo.Reading.{Fits}
use so_l.Http.Retrying.{readn_loop, readn}

-- All bytes that come in these answers.
abbrev pub arrived : List ReadAnswer → List ℕ
arrived [] = []
arrived (got bs ∷ answers) = bs ++ arrived answers
arrived (_ ∷ answers) = arrived answers

-- The bytes kept behind `buf` are the first ones that arrived, n at most, and they are counted.
abbrev pub IsKept : ℕ → ℕ → List ℕ → List ReadAnswer → ℕ × List ℕ → Type 0
IsKept n nread buf answers (count, out) =
    (kept : List ℕ) × (lost : List ℕ) × (out ≡ buf ++ kept)
    × (arrived answers ≡ kept ++ lost)
    × (count ≡ nread + length kept)
    × (length kept ≤ n)

nothing-IsKept :
    (n nread : ℕ) (buf : List ℕ) (answers : List ReadAnswer)
    → IsKept n nread buf answers (nread, buf)
nothing-IsKept n nread buf answers =
    ([], arrived answers, sym (append-nil buf), refl, ground arith, ground arith)

more-IsKept :
    (n nread : ℕ) (buf bs : List ℕ) (answers : List ReadAnswer) (r : ℕ × List ℕ)
    → length bs ≤ n
    → IsKept (n - length bs) (nread + length bs) (buf ++ bs) answers r
    → IsKept n nread buf (got bs ∷ answers) r
more-IsKept n nread buf bs answers r fits (kept, lost, out, all, count, few) = (
  bs ++ kept,
  lost,
  out ∙ append_assoc buf bs kept,
  ap (◌++◌ bs) all ∙ sym (append_assoc bs kept lost),
  ground (arith, count, length-append bs kept),
  ground (arith, few, fits, length-append bs kept),
)

readn_loop-IsKept :
    (n retry nread : ℕ) (buf : List ℕ) (answers : List ReadAnswer)
    → Fits n answers
    → n + retry < length answers
    → Ensures (IsKept n nread buf answers) (readn_loop n retry nread buf answers)
unfolding readn_loop
readn_loop-IsKept zero retry nread buf answers f enough = nothing-IsKept zero nread buf answers
readn_loop-IsKept (suc n) retry nread buf [] f enough = absurd (omega (arith, enough))
readn_loop-IsKept (suc n) retry nread buf (got [] ∷ answers) f enough =
    nothing-IsKept (suc n) nread buf (got [] ∷ answers)
readn_loop-IsKept (suc n) retry nread buf (got (b ∷ bs) ∷ answers) f enough =
    rw (suc-eq-zero (length bs)) (
      Ensures-mono _ _
        (readn_loop (suc n - suc (length bs)) retry (nread + suc (length bs)) (buf ++ (b ∷ bs))
          answers)
        (λ r h. more-IsKept (suc n) nread buf (b ∷ bs) answers r f.0 h)
        (readn_loop-IsKept (suc n - suc (length bs)) retry (nread + suc (length bs))
          (buf ++ (b ∷ bs)) answers f.1 (omega (arith, enough))))
readn_loop-IsKept (suc n) zero nread buf (ReadAnswer.interrupted ∷ answers) f enough =
    nothing-IsKept (suc n) nread buf (ReadAnswer.interrupted ∷ answers)
readn_loop-IsKept (suc n) (suc retry) nread buf (ReadAnswer.interrupted ∷ answers) f enough =
    readn_loop-IsKept (suc n) retry nread buf answers f (omega (arith, enough))
readn_loop-IsKept (suc n) zero nread buf (ReadAnswer.would_block ∷ answers) f enough =
    nothing-IsKept (suc n) nread buf (ReadAnswer.would_block ∷ answers)
readn_loop-IsKept (suc n) (suc retry) nread buf (ReadAnswer.would_block ∷ answers) f enough =
    readn_loop-IsKept (suc n) retry nread buf answers f (omega (arith, enough))
readn_loop-IsKept (suc n) retry nread buf (ReadAnswer.failed ∷ answers) f enough =
    nothing-IsKept (suc n) nread buf (ReadAnswer.failed ∷ answers)

-- If read(2) returns at most what it was asked for, readn on n bytes ends within n + 11 calls, whatever
-- they answer, errors included: the buffer holds the first bytes that arrived, n at most, and the
-- result is their count.
pub readn-IsKept :
    (n : ℕ) (answers : List ReadAnswer)
    → Fits n answers
    → n + 10 < length answers
    → Ensures (IsKept n 0 [] answers) (readn n answers)
unfolding readn
readn-IsKept n answers f enough = readn_loop-IsKept n 10 0 [] answers f enough
