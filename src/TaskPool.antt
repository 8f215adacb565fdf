-- ===== src/TaskPool.antt =====
-- The pool of worker threads of Examples/Ver0.1/threadpool.h and threadpool.cpp: a ring of tasks
-- behind a mutex and a condition. The calls of pthreads are arguments: whether a lock, an unlock, a
-- signal or a thread's creation succeeds. A task is a number, for its function and argument.
pub mod Ring
pub mod Lifetime
mod Examples
use so_l.Common.{
  ℕ, suc, ◌+◌, ◌-◌, ◌%◌, Bool, true, false, not, ◌||◌, ◌&&◌, ltb, leb, ◌==◌, if◌then◌else◌, Option,
  none, some, List, [], ◌∷◌, length, get_or, set, replicate,
}

-- The error codes, and 0.
pub data Status : Type 0 where
  success invalid lock_failure queue_full shutdown_error thread_failure : Status

-- `pool->shutdown`: 0, `immediate_shutdown` or `graceful_shutdown`.
pub data Shutdown : Type 0 where
  running immediate_shutdown graceful_shutdown : Shutdown

abbrev pub is_shutdown : Shutdown → Bool
is_shutdown running = false
is_shutdown _ = true

pub record Pool : Type 0 where
  pub queue : List ℕ
  pub thread_count : ℕ
  pub queue_size : ℕ
  pub head : ℕ
  pub tail : ℕ
  pub count : ℕ
  pub shutdown : Shutdown
  pub started : ℕ

abbrev pub max_threads : ℕ
max_threads = 1024

abbrev pub max_queue : ℕ
max_queue = 65535

-- The fields that `threadpool_create` fills in before it starts threads. An argument that is not
-- positive is 0.
unfoldable pub empty_pool : ℕ → Pool
empty_pool queue_size = record {
  queue = replicate queue_size 0;
  thread_count = 0;
  queue_size = queue_size;
  head = 0;
  tail = 0;
  count = 0;
  shutdown = running;
  started = 0;
}

-- The loop over `pthread_create`. `none` is NULL, behind a call of `threadpool_destroy`. The threads that run
-- already also write to `started`, without the mutex; what they do to it is left out.
unfoldable pub create_threads : Pool → List Bool → Option Pool
create_threads p [] = some p
create_threads p (true ∷ created) =
    create_threads (record p { thread_count = p.thread_count + 1; started = p.started + 1 }) created
create_threads p (false ∷ created) = none

-- `threadpool_create`; `created` tells of each `pthread_create`, one for each thread.
unfoldable pub create : ℕ → Bool → List Bool → Option Pool
create queue_size initialised created =
    if leb (length created) 0
      || ltb max_threads (length created)
      || leb queue_size 0
      || ltb max_queue queue_size
    then none
    else if initialised
    then create_threads (empty_pool queue_size) created
    else none

-- `threadpool_add`, with the answers of lock, signal and unlock.
unfoldable pub add : Pool → ℕ → Bool → Bool → Bool → Status × Pool
add pool task locked signalled unlocked =
    let next = (pool.tail + 1) % pool.queue_size in
    let finish = λ (err : Status). if unlocked then err else lock_failure in
    if not locked
    then (lock_failure, pool)
    else if pool.count == pool.queue_size
    then (finish queue_full, pool)
    else if is_shutdown pool.shutdown
    then (finish shutdown_error, pool)
    else (
      finish (if signalled then success else lock_failure),
      record pool { queue = set pool.queue pool.tail task; tail = next; count = pool.count + 1 },
    )

-- What a worker does once it holds the lock: it waits, leaves its loop, or takes a task.
pub data Turn : Type 0 where
  waits : Turn
  leaves : Turn
  takes : ℕ → Pool → Turn

abbrev take_task : Pool → Turn
take_task pool =
    takes (get_or pool.queue pool.head 0)
      (record pool { head = (pool.head + 1) % pool.queue_size; count = pool.count - 1 })

turn : Pool → Shutdown → Turn
turn pool running = if pool.count == 0 then waits else take_task pool
turn pool immediate_shutdown = leaves
turn pool graceful_shutdown = if pool.count == 0 then leaves else take_task pool

-- A round of `threadpool_thread`.
unfoldable pub worker_turn : Pool → Turn
unfolding turn
worker_turn pool = turn pool pool.shutdown

-- `threadpool_free`: 0 and the pool is gone, or -1.
unfoldable pub free : Pool → Option Pool
free pool = if ltb 0 pool.started then some pool else none

-- `threadpool_destroy` up to the joins: the status, and the pool that the workers then find.
unfoldable pub begin_destroy : Pool → Bool → Bool → Bool → Status × Pool
begin_destroy pool graceful locked broadcast_unlocked =
    if not locked
    then (lock_failure, pool)
    else if is_shutdown pool.shutdown
    then (shutdown_error, pool)
    else (
      if broadcast_unlocked then success else lock_failure,
      record pool { shutdown = if graceful then graceful_shutdown else immediate_shutdown },
    )
