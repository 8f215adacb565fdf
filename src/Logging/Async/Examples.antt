-- ===== src/Logging/Async/Examples.antt =====
-- The theorems on `AsyncLogging` at a log whose buffers hold eight bytes.
use so_l.Common.{ℕ, ◌≡◌, refl, true, List, [], ◌∷◌, ◌++◌, Ensures, arith}
use so_l.Logging.FixedBuffer.{append as buffer_append, avail}
use so_l.Logging.Async.{
  init, append, collect, concat, shed, refill, refill_both, split_back, drain, Event, line, consume,
  step, run,
}
use so_l.Logging.Async.Buffers.{Inv}
use so_l.Logging.Async.Invariant.{run-init-Inv}
use so_l.Logging.Async.Delivery.{content, Quiet, content-run-init}

abbrev report : ℕ → List ℕ
report n = 63 ∷ n ∷ []

abbrev five : List ℕ
five = 1 ∷ 2 ∷ 3 ∷ 4 ∷ 5 ∷ []

-- Three lines fill two buffers; another comes between the two steps of the consumer's round.
abbrev schedule : List Event
schedule = line five ∷ line five ∷ line five ∷ consume ∷ line five ∷ consume ∷ []

schedule_output :
    Ensures (λ t. t.output ≡ five ++ (five ++ five)) (run report (init 8 true) schedule)
unfolding init append buffer_append avail collect drain shed refill_both refill split_back step run
    concat
schedule_output = refl

schedule-Quiet : Quiet report (init 8 true) schedule
unfolding init append buffer_append avail collect drain shed refill_both refill split_back step run
    concat
schedule-Quiet = omega arith

run-init-Inv_example : Ensures Inv (run report (init 8 true) schedule)
run-init-Inv_example = run-init-Inv report 8 true schedule

content-run-init_example :
    Ensures (λ t. content t ≡ five ++ (five ++ (five ++ five))) (run report (init 8 true) schedule)
content-run-init_example = content-run-init report 8 true schedule (omega arith) schedule-Quiet
