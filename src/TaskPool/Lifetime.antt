-- ===== src/TaskPool/Lifetime.antt =====
-- The pool that is created.
use so_l.Common.{
  ℕ, zero, suc, ◌+◌, ◌≤◌, ◌≡◌, refl, ap, ◌∙◌, Bool, true, false, ◌||◌, ltb, leb, some, List, [],
  ◌∷◌, length, replicate, arith, Ensures,
}
use so_l.TaskPool.{Pool, running, max_threads, max_queue, empty_pool, create_threads, create}
use so_l.TaskPool.Ring.{Inv, pending, window}

-- Every `pthread_create` succeeds.
abbrev pub AllTrue : List Bool → Type 0
AllTrue [] = Unit
AllTrue (b ∷ bs) = (b ≡ true) × AllTrue bs

create_threads_lem :
    (p : Pool) (created : List Bool)
    → AllTrue created
    → create_threads p created
      ≡ some (record p {
        thread_count = p.thread_count + length created;
        started = p.started + length created;
      })
unfolding create_threads
create_threads_lem p [] h = ground arith
create_threads_lem p (b ∷ bs) h = rw (h.0) (
    create_threads_lem (record p { thread_count = p.thread_count + 1; started = p.started + 1 }) bs
      h.1
    ∙ ground arith)

length-replicate : (n : ℕ) → length {A = ℕ} (replicate n 0) ≡ n
length-replicate zero = refl
length-replicate (suc n) = ap suc (length-replicate n)

-- If both objects of the lock are initialised, every thread can be created, and there are 1 to 1024
-- threads and 1 to 65535 places, then a pool is returned; it counts so many threads, it is not shut
-- down, and its ring is valid and empty.
pub create_lem :
    (queue_size : ℕ) (created : List Bool)
    → AllTrue created
    → 1 ≤ length created
    → length created ≤ max_threads
    → 1 ≤ queue_size
    → queue_size ≤ max_queue
    → Ensures
        (λ p. Inv p × (pending p ≡ []) × (p.shutdown ≡ running) × (p.thread_count ≡ length created))
        (create queue_size true created)
unfolding create empty_pool window
create_lem n created h a b c d =
    let accepted : (leb (length created) 0
          || ltb max_threads (length created)
          || leb n 0
          || ltb max_queue n)
        ≡ false =
      ground arith in
    rw (accepted, create_threads_lem (empty_pool n) created h)
      (
        record {
          storage = length-replicate n;
          head_in = c;
          count_in = omega arith;
          tail_is = ground arith;
        },
        refl,
        refl,
        omega arith,
      )
