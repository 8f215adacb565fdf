-- ===== src/Loop/Examples.antt =====
-- The theorems on the reactor, at small states of it.
use so_l.Common.{◌≡◌, refl, true, false, none, some, List, [], ◌∷◌}
use so_l.Loop.Channel.{Channel, no_events, in_et, read, handle_events}
use so_l.Loop.EventLoop.{
  polling, calling, EventLoop, init, Action, push, notify, poll, enter, swap, call, leave,
  queue_push, queue_notify, step, run,
}
use so_l.Loop.EventLoop.Fairness.{Inv, queued, history-run-init}
use so_l.Loop.EventLoop.Wakeup.{round, queue_while_polling, queue_while_calling}

-- Two threads queue, the second while the first functor runs.
abbrev schedule : List Action
schedule = push 1 ∷ notify ∷ poll false ∷ enter ∷ push 2 ∷ swap ∷ notify ∷ call ∷ push 3 ∷ call ∷ []

abbrev after_schedule : EventLoop
after_schedule = record {
  phase = calling;
  calling_pending_functors = true;
  pending_functors = 3 ∷ [];
  functors = [];
  wakeup_count = 0;
  notifying = 1;
  executed = 1 ∷ 2 ∷ [];
}

schedule_runs : run init schedule ≡ some after_schedule
unfolding run init step queue_push queue_notify
schedule_runs = refl

history-run-init_example : Inv after_schedule × (1 ∷ 2 ∷ 3 ∷ [] ≡ queued schedule)
history-run-init_example = history-run-init schedule after_schedule schedule_runs

abbrev waiting : EventLoop
waiting = record {
  phase = polling;
  calling_pending_functors = false;
  pending_functors = [];
  functors = [];
  wakeup_count = 0;
  notifying = 0;
  executed = [];
}

queue_while_polling_example :
    run waiting (push 5 ∷ notify ∷ round 1) ≡ some (record waiting { executed = 5 ∷ [] })
queue_while_polling_example = queue_while_polling waiting 5 refl refl refl

queue_while_calling_example :
    (t : EventLoop) × (run after_schedule (push 4 ∷ notify ∷ leave ∷ []) ≡ some t)
    × (t.phase ≡ polling)
    × (t.pending_functors ≡ 3 ∷ 4 ∷ [])
    × (t.executed ≡ 1 ∷ 2 ∷ [])
    × (step t (poll false) ≡ none)
queue_while_calling_example = queue_while_calling after_schedule 4 refl refl refl refl

-- A channel with input and room for output, whose write handler is not set.
abbrev readable : Channel
readable = record {
  fd = 7;
  events = in_et;
  revents = record no_events { in_ = true; out = true };
  last_events = in_et;
  read_handler = true;
  write_handler = false;
  error_handler = false;
  conn_handler = false;
}

readable_calls : (handle_events readable).1 ≡ read 7 ∷ []
unfolding handle_events
readable_calls = refl
