-- ===== src/TaskPool/Examples.antt =====
-- The theorems on the pool at a ring of three places that has wrapped round.
use so_l.Common.{Ensures, ℕ, ◌≡◌, ◌≢◌, ◌⊎◌, ◌↔◌, refl, true, [], ◌∷◌, ◌++◌, arith}
use so_l.TaskPool.{
  success, running, immediate_shutdown, graceful_shutdown, Pool, add, waits, leaves, takes,
  worker_turn, create,
}
use so_l.TaskPool.Ring.{Inv, pending, window, add_lem, worker_turn_lem}
use so_l.TaskPool.Lifetime.{create_lem}

abbrev wrapped : Pool
wrapped = record {
  queue = 13 ∷ 11 ∷ 12 ∷ [];
  thread_count = 2;
  queue_size = 3;
  head = 2;
  tail = 1;
  count = 2;
  shutdown = running;
  started = 2;
}

pending-wrapped : pending wrapped ≡ 12 ∷ 13 ∷ []
unfolding window
pending-wrapped = refl

Inv-wrapped : Inv wrapped
Inv-wrapped = record {
  storage = refl;
  head_in = omega arith;
  count_in = omega arith;
  tail_is = refl;
}

add_lem_example :
    let (status, q) = add wrapped 14 true true true in
    Inv q
    × (pending q ≡ pending wrapped ++ (14 ∷ []))
    × ((status ≡ success) ↔ ((true ≡ true) × (true ≡ true) × (true ≡ true)))
add_lem_example = add_lem wrapped 14 true true true Inv-wrapped

worker_turn_lem_example :
    ((worker_turn wrapped ≡ waits) × (pending wrapped ≡ []) × (running ≡ running))
    ⊎ (((worker_turn wrapped ≡ leaves)
          × ((running ≡ immediate_shutdown)
              ⊎ ((running ≡ graceful_shutdown) × (pending wrapped ≡ []))))
        ⊎ ((t : ℕ) × (q : Pool) × (worker_turn wrapped ≡ takes t q)
            × (pending wrapped ≡ t ∷ pending q)
            × (running ≢ immediate_shutdown)
            × Inv q))
worker_turn_lem_example = worker_turn_lem wrapped Inv-wrapped

create_lem_example :
    Ensures
      (λ p. Inv p × (pending p ≡ []) × (p.shutdown ≡ running) × (p.thread_count ≡ 2))
      (create 3 true (true ∷ true ∷ []))
create_lem_example =
    create_lem 3 (true ∷ true ∷ []) (refl, (refl, tt)) (omega arith) (omega arith) (omega arith)
      (omega arith)
