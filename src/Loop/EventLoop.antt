-- ===== src/Loop/EventLoop.antt =====
-- The functor queue of `EventLoop` (net/EventLoop.cpp): `queueInLoop`, `loop`, `doPendingFunctors`,
-- `wakeup` and `handleRead`. Any thread queues; one thread loops. A step is what one thread does
-- between two points at which another can see it, so a run is a list of steps in the order in which
-- they happen. Functors are numbered. `none` is a step that cannot be made in the state.
pub mod Fairness
pub mod Wakeup
use so_l.Common.{
  ◌>>=◌, ℕ, zero, suc, ◌+◌, ◌-◌, Bool, true, false, ◌||◌, ltb, if◌then◌else◌, Option, none, some,
  List, [], ◌∷◌, ◌++◌, ◌==◌,
}

-- Where the looping thread stands: in `epoll_wait`, past the handlers, behind
-- `callingPendingFunctors_ = true`, and behind the block that swaps the vectors.
pub data Phase : Type 0 where
  polling dispatched entered calling : Phase

pub record EventLoop : Type 0 where
  pub phase : Phase
  pub calling_pending_functors : Bool
  pub pending_functors : List ℕ
  -- the local vector of `doPendingFunctors`, without those that have run
  pub functors : List ℕ
  -- the counter of the event descriptor
  pub wakeup_count : ℕ
  -- calls of `queueInLoop` that have pushed and not yet tested the flag
  pub notifying : ℕ
  -- what has run, oldest first
  pub executed : List ℕ

unfoldable pub init : EventLoop
init = record {
  phase = polling;
  calling_pending_functors = false;
  pending_functors = [];
  functors = [];
  wakeup_count = 0;
  notifying = 0;
  executed = [];
}

pub data Action : Type 0 where
  push : ℕ → Action
  notify : Action
  poll : Bool → Action
  enter swap call leave : Action

-- The block of `queueInLoop` under the mutex.
unfoldable pub queue_push : EventLoop → ℕ → EventLoop
queue_push s f = record s {
  pending_functors = s.pending_functors ++ (f ∷ []);
  notifying = s.notifying + 1;
}

-- `if (!callingPendingFunctors_) wakeup();`
unfoldable pub queue_notify : EventLoop → Option EventLoop
queue_notify s =
    if s.notifying == 0
    then none
    else some (record s {
      notifying = s.notifying - 1;
      wakeup_count = if s.calling_pending_functors then s.wakeup_count else s.wakeup_count + 1;
    })

-- `poller->poll` and the handlers: it returns if the event descriptor is readable, which
-- `handleRead` sets back, or if `other` holds, another event or the end of the wait.
poll_step : EventLoop → Phase → Bool → Option EventLoop
poll_step s polling other =
    if other || ltb 0 s.wakeup_count
    then some (record s { phase = dispatched; wakeup_count = 0 })
    else none
poll_step s _ other = none

enter_step : EventLoop → Phase → Option EventLoop
enter_step s dispatched = some (record s { phase = entered; calling_pending_functors = true })
enter_step s _ = none

-- `functors.swap(pendingFunctors_)`, of an empty vector.
swap_step : EventLoop → Phase → Option EventLoop
swap_step s entered =
    some (record s { phase = calling; functors = s.pending_functors; pending_functors = [] })
swap_step s _ = none

call_step : EventLoop → Phase → List ℕ → Option EventLoop
call_step s calling (f ∷ fs) = some (record s { functors = fs; executed = s.executed ++ (f ∷ []) })
call_step s calling [] = none
call_step s _ fs = none

leave_step : EventLoop → Phase → List ℕ → Option EventLoop
leave_step s calling [] = some (record s { phase = polling; calling_pending_functors = false })
leave_step s calling (f ∷ fs) = none
leave_step s _ fs = none

unfoldable pub step : EventLoop → Action → Option EventLoop
unfolding poll_step enter_step swap_step call_step leave_step
step s (push f) = some (queue_push s f)
step s notify = queue_notify s
step s (poll other) = poll_step s s.phase other
step s enter = enter_step s s.phase
step s swap = swap_step s s.phase
step s call = call_step s s.phase s.functors
step s leave = leave_step s s.phase s.functors

unfoldable pub run : EventLoop → List Action → Option EventLoop
run s [] = some s
run s (a ∷ actions) = step s a >>= λ t. run t actions
