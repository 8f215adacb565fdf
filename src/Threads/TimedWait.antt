-- ===== src/Threads/TimedWait.antt =====
-- `Condition::waitForSeconds` of base/Condition.cpp, as the consumer of `AsyncLogging::threadFunc` of
-- base/async_logging.cpp calls it within the mutex that the producers lock in `AsyncLogging::append`.
-- `Logging.Async` has the buffers; here is who holds the mutex as they change.
pub mod Blocked
mod Examples
use so_l.Common.{ℕ, Bool, true, false, if◌then◌else◌, Option, none, some, List, [], ◌∷◌, ◌>>=◌}
use so_l.Logging.Async.{System, init, append, is_empty, collect, drain}
use so_l.Threads.{MutexLock, lock}

-- Where the consumer is in its loop: before the block under the mutex; in it, at its test; in
-- `waitForSeconds`, at the guard there, then asleep in the condition, then back in the block; or behind it.
pub data Consumer : Type 0 where
  outside testing locking timing returned writing : Consumer

pub record Shared : Type 0 where
  pub mutex : MutexLock
  pub system : System
  pub consumer : Consumer
  -- the thread that runs `threadFunc`
  pub thread : ℕ

unfoldable pub start : ℕ → Bool → ℕ → Shared
start size sync i = record { mutex = none; system = init size sync; consumer = outside; thread = i }

-- A producer appends a line, under the mutex from its beginning to its end; or the consumer goes on.
pub data Action : Type 0 where
  produce : ℕ → List ℕ → Action
  consume : Action

unfoldable pub produce_line : ℕ → List ℕ → Shared → Option Shared
produce_line i l s = lock i s.mutex >>= λ m. some (record s { system = (append s.system l).0 })

-- The end of the block under the mutex, which takes the buffers and unlocks.
abbrev pub finish : Shared → Option Shared
finish s = collect s.system >>= λ taken.
    some (record s { mutex = none; system = taken; consumer = writing })

module _ (report : ℕ → List ℕ) where
  -- A thread that waits in a condition lets go of the mutex and has it again at the end; the guard of
  -- `waitForSeconds` unlocks it then.
  unfoldable pub consume_at : Consumer → Shared → Option Shared
  consume_at outside s =
      lock s.thread s.mutex >>= λ m. some (record s { mutex = m; consumer = testing })
  consume_at testing s =
      if is_empty s.system.buffers then some (record s { consumer = locking }) else finish s
  consume_at locking s =
      lock s.thread s.mutex >>= λ m. some (record s { mutex = none; consumer = timing })
  consume_at timing s =
      lock s.thread s.mutex >>= λ m. some (record s { mutex = none; consumer = returned })
  consume_at returned s = finish s
  consume_at writing s =
      drain report s.system >>= λ written. some (record s { system = written; consumer = outside })

  unfoldable pub act : Shared → Action → Option Shared
  act s (produce i l) = produce_line i l s
  act s consume = consume_at s.consumer s

  unfoldable pub run : Shared → List Action → Option Shared
  run s [] = some s
  run s (a ∷ rest) = act s a >>= λ t. run t rest
