-- ===== src/LoopPool.antt =====
-- `EventLoopThreadPool` of net/EventLoopThreadPool.h and .cpp. A loop is a number; which loop the
-- i-th thread starts is the threads' matter, and a parameter.
pub mod RoundRobin
pub mod Accepting
use so_l.Common.{
  ℕ, zero, suc, ◌+◌, ◌%◌, Bool, true, false, ◌==◌, if◌then◌else◌, Option, none, some, List, [], ◌∷◌,
  ◌++◌, get_elem?, ◌>>=◌,
}

pub record LoopPool : Type 0 where
  pub base_loop : ℕ
  pub started : Bool
  pub num_threads : ℕ
  pub next : ℕ
  pub loops : List ℕ

-- The constructor; `none` is `abort()`. A count of threads that is not positive is 0.
unfoldable pub new_pool : ℕ → ℕ → Option LoopPool
new_pool base_loop num_threads =
    if num_threads == 0
    then none
    else some (record {
      base_loop = base_loop;
      started = false;
      num_threads = num_threads;
      next = 0;
      loops = [];
    })

-- The loop of `start`, from thread `i` on.
unfoldable pub start_threads : (ℕ → ℕ) → ℕ → ℕ → List ℕ → List ℕ
start_threads start_loop zero i loops = loops
start_threads start_loop (suc left) i loops =
    start_threads start_loop left (i + 1) (loops ++ (start_loop i ∷ []))

unfoldable pub start : (ℕ → ℕ) → LoopPool → LoopPool
unfolding start_threads
start start_loop p = record p {
  started = true;
  loops = start_threads start_loop p.num_threads 0 p.loops;
}

-- `loops_[next_]` and the step of `next_`, unless there are no loops; `none` is a read out of range.
next_of : LoopPool → List ℕ → Option (ℕ × LoopPool)
next_of p [] = some (p.base_loop, p)
next_of p (l ∷ ls) = get_elem? (l ∷ ls) p.next >>= λ loop.
    some (loop, record p { next = (p.next + 1) % p.num_threads })

-- `getNextLoop`; `none` is also the assert.
unfoldable pub get_next_loop : LoopPool → Option (ℕ × LoopPool)
unfolding next_of
get_next_loop p = if p.started then next_of p p.loops else none

-- So many calls, with the loops that they return, in order.
unfoldable pub get_loops : ℕ → LoopPool → Option (List ℕ × LoopPool)
get_loops zero p = some ([], p)
get_loops (suc k) p =
    get_next_loop p >>= λ r. get_loops k r.1 >>= λ rest. some (r.0 ∷ rest.0, rest.1)
