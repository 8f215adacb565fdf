-- ===== src/Threads.antt =====
-- The monitors of base/: `MutexLock` of base/Mutex.h, `Condition` of base/Condition.h and Condition.cpp, and the
-- code that waits on them. A thread is a number. What a thread does between locking and unlocking is
-- one step, as no other thread sees a part of it; a wait is two, since it lets go of the mutex.
pub mod Latch
pub mod TimedWait
use so_l.Common.{ℕ, Bool, true, false, ◌==◌, if◌then◌else◌, Option, none, some}

-- `MutexLock`: the thread that has it. A thread that locks waits until no thread has it, itself included.
abbrev pub MutexLock : Type 0
MutexLock = Option ℕ

unfoldable pub lock : ℕ → MutexLock → Option MutexLock
lock i none = some (some i)
lock i (some j) = none
