-- ===== src/Threads/TimedWait/Examples.antt =====
-- The log of a program whose consumer looks before a buffer of 8 bytes is full.
use so_l.Common.{ℕ, ◌≡◌, ◌⊎◌, refl, true, some, List, [], ◌∷◌, Ensures}
use so_l.Logging.FixedBuffer.{append as buffer_append, avail}
use so_l.Logging.Async.{init, append}
use so_l.Threads.{lock}
use so_l.Threads.TimedWait.{
  testing, locking, Shared, start, Action, produce, consume, produce_line, consume_at, act, run,
}
use so_l.Threads.TimedWait.Blocked.{IsStopped, wait_stops, stops_only_waiting}

abbrev report : ℕ → List ℕ
report n = n ∷ []

-- Thread 2 appends three bytes, and then the consumer, thread 1, locks the mutex.
abbrev actions : List Action
actions = produce 2 (7 ∷ 8 ∷ 9 ∷ []) ∷ consume ∷ []

abbrev looking : Shared
looking = record {
  mutex = some 1;
  system = (append (init 8 true) (7 ∷ 8 ∷ 9 ∷ [])).0;
  consumer = testing;
  thread = 1;
}

run-actions : run report (start 8 true 1) actions ≡ some looking
unfolding run start act produce_line consume_at lock
run-actions = refl

wait_stops_example : Ensures (IsStopped report) (act report looking consume)
unfolding init append buffer_append avail
wait_stops_example = wait_stops report 8 true 1 actions looking run-actions refl refl

stops_only_waiting_example :
    ((looking.consumer ≡ locking) × IsStopped report looking)
    ⊎ ((t : Shared) × (act report looking consume ≡ some t))
stops_only_waiting_example = stops_only_waiting report 8 true 1 actions looking run-actions
