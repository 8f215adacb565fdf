-- ===== src/Threads/Latch/Examples.antt =====
-- Runs of a latch: `AsyncLogging::start` waits for the thread that it starts to count down.
use so_l.Common.{ℕ, zero, suc, ◌≡◌, refl, true, false, Option, none, some, List, [], ◌∷◌}
use so_l.Common.Int.{pos, ltb_ℤ}
use so_l.Threads.Latch.{Pc, wait_begins, count_begins, Latch, new_latch, run}
use so_l.Threads.Latch.Invariant.{Inv}
use so_l.Threads.Latch.Wakeup.{begins, run-new_latch-Inv}
use so_l.Threads.Latch.Progress.{is_waiting, Through, wait_ends}

-- Thread 0 starts the logging, thread 1 is its consumer, and no other thread comes.
abbrev starting : ℕ → Pc
starting zero = wait_begins
starting (suc j) = count_begins

starting-begins : (j : ℕ) → begins (starting j) ≡ true
starting-begins zero = refl
starting-begins (suc j) = refl

-- The starter waits, and sleeps.
abbrev asleep_schedule : List ℕ
asleep_schedule = 0 ∷ 0 ∷ []

-- Then the consumer counts down.
abbrev counted_schedule : List ℕ
counted_schedule = 0 ∷ 0 ∷ 1 ∷ 1 ∷ []

abbrev after : List ℕ → Latch → Latch
after is s = or_else s (run is s)
  where
    or_else : Latch → Option Latch → Latch
    or_else s (some t) = t
    or_else s none = s

abbrev fresh : Latch
fresh = new_latch (pos 1) starting

asleep_run : run asleep_schedule fresh ≡ some (after asleep_schedule fresh)
unfolding run new_latch
asleep_run = refl

counted_run : run counted_schedule fresh ≡ some (after counted_schedule fresh)
unfolding run new_latch
counted_run = refl

counted_down : ltb_ℤ (pos 0) (after counted_schedule fresh).count ≡ false
unfolding run new_latch
counted_down = refl

still_waits : is_waiting ((after counted_schedule fresh).pc 0) ≡ true
unfolding run new_latch
still_waits = refl

run-new_latch-Inv_example : Inv (after asleep_schedule fresh)
run-new_latch-Inv_example =
    run-new_latch-Inv (pos 1) starting asleep_schedule (after asleep_schedule fresh) starting-begins
      asleep_run

wait_ends_example : Through 0 (after counted_schedule fresh)
wait_ends_example =
    wait_ends (pos 1) starting counted_schedule (after counted_schedule fresh) 0 starting-begins
      counted_run counted_down still_waits
