-- ===== src/LoopPool/Accepting/Turns.antt =====
-- Which loop a connection goes to.
use so_l.Common.{
  get_or, ℕ, suc, ◌+◌, ◌%◌, ◌≡◌, refl, sym, ap, ◌∙◌, Bool, true, false, ltb, ◌==◌, ◌&&◌, not, inl,
  inr, if◌then◌else◌, Bool-cases, some, List, [], ◌∷◌, ◌++◌, arith,
}
use native.Mathlib.Nat.{mod-add-mod, mod-eq_of_lt}
use so_l.Loop.Epoll.{max_fds}
use so_l.LoopPool.{LoopPool, get_next_loop}
use so_l.LoopPool.RoundRobin.{IsRunning, get_next_loop-eq}
use so_l.LoopPool.Accepting.{
  Accepted, Effect, close, add_to_poller, queue_in_loop, Handled, connection, before, hand_new_conn,
}

-- The loop of turn k of a pool, counted from the one that is next.
abbrev pub loop_at : LoopPool → ℕ → ℕ
loop_at p k = get_or p.loops ((p.next + k) % p.num_threads) 0

-- The pool after so many turns.
abbrev pub pool_at : LoopPool → ℕ → LoopPool
pool_at p k = record p { next = (p.next + k) % p.num_threads }

-- The connections before a descriptor 0.
abbrev pub nonzero : List Accepted → List Accepted
nonzero [] = []
nonzero (a ∷ cs) = if a.fd == 0 then [] else a ∷ nonzero cs

-- A connection that ends the function.
abbrev pub stops : Accepted → Bool
stops a = ltb a.fd max_fds && not a.set_non_blocking

abbrev pub any_stops : List Accepted → Bool
any_stops [] = false
any_stops (a ∷ cs) = if stops a then true else any_stops cs

-- The connections before the one that ends the function.
abbrev pub served : List Accepted → List Accepted
served [] = []
served (a ∷ cs) = if stops a then [] else a ∷ served cs

-- The turns that are taken, that of the one that ends the function included.
abbrev pub turns : List Accepted → ℕ
turns [] = 0
turns (a ∷ cs) = suc (if stops a then 0 else turns cs)

abbrev pub effects_at : ℕ → ℕ → List Effect
effects_at loop fd =
    if ltb fd max_fds
    then add_to_poller loop (connection fd) ∷ queue_in_loop loop ∷ []
    else close fd ∷ []

-- What is done for connections from turn k on.
abbrev pub effects_from : LoopPool → ℕ → List Accepted → List Effect
effects_from p k [] = []
effects_from p k (a ∷ cs) = effects_at (loop_at p k) a.fd ++ effects_from p (suc k) cs

abbrev pub handled_from : LoopPool → ℕ → List Accepted → Handled
handled_from p k cs = record {
  effects = effects_from p k (served cs);
  armed = not (any_stops cs);
  pool = pool_at p (k + turns cs);
}

pool_at-IsRunning : (p : LoopPool) (k : ℕ) → IsRunning p → IsRunning (pool_at p k)
pool_at-IsRunning p k v = record {
  is_started = v.is_started;
  enough = v.enough;
  next_in = ground (arith, v.next_in);
}

get_next_loop-pool_at :
    (p : LoopPool) (k : ℕ)
    → IsRunning p
    → get_next_loop (pool_at p k) ≡ some (loop_at p k, pool_at p (suc k))
get_next_loop-pool_at p k v =
    get_next_loop-eq (pool_at p k) (pool_at-IsRunning p k v)
    ∙ ap (λ n. some (loop_at p k, record p { next = n })) next
  where
    next : ((p.next + k) % p.num_threads + 1) % p.num_threads ≡ (p.next + suc k) % p.num_threads
    next = mod-add-mod (p.next + k) p.num_threads 1 ∙ ap (λ n. n % p.num_threads) (omega arith)

effects_at-small :
    (loop fd : ℕ)
    → ltb fd max_fds ≡ true
    → add_to_poller loop (connection fd) ∷ queue_in_loop loop ∷ [] ≡ effects_at loop fd
effects_at-small loop fd h = rw h refl

effects_at-large : (loop fd : ℕ) → ltb fd max_fds ≡ false → close fd ∷ [] ≡ effects_at loop fd
effects_at-large loop fd h = rw h refl

moved :
    (p : LoopPool) (k : ℕ) (cs : List Accepted) (now then_ : List Effect)
    → now ≡ then_
    → some (before now (handled_from p (suc k) cs))
      ≡ some (record {
        effects = then_ ++ effects_from p (suc k) (served cs);
        armed = not (any_stops cs);
        pool = pool_at p (k + suc (turns cs));
      })
moved p k cs now then_ e =
    ap (λ effects. some (before effects (handled_from p (suc k) cs))) e
    ∙ ap
        (λ n. some (record {
          effects = then_ ++ effects_from p (suc k) (served cs);
          armed = not (any_stops cs);
          pool = pool_at p n;
        }))
        (omega arith)

hand_new_conn-from :
    (p : LoopPool) (k : ℕ) (cs : List Accepted)
    → IsRunning p
    → hand_new_conn cs (pool_at p k) ≡ some (handled_from p k (nonzero cs))
unfolding hand_new_conn
hand_new_conn-from p k [] v =
    ap (λ n. some (record { effects = []; armed = true; pool = pool_at p n })) (omega arith)
hand_new_conn-from p k (a ∷ cs) v =
    let rest = hand_new_conn-from p (suc k) cs v in
    elim (Bool-cases (a.fd == 0)) [
      | inl zero ↦
          rw zero (
            ap (λ n. some (record { effects = []; armed = true; pool = pool_at p n }))
              (omega arith))
      | inr more ↦ elim (Bool-cases (ltb a.fd max_fds)) [
        | inr large ↦
            rw (more, get_next_loop-pool_at p k v, large, rest)
              (moved p k (nonzero cs) _ _ (effects_at-large (loop_at p k) a.fd large))
        | inl small ↦ elim (Bool-cases a.set_non_blocking) [
          | inl set ↦
              rw (more, get_next_loop-pool_at p k v, set, small, rest)
                (moved p k (nonzero cs) _ _ (effects_at-small (loop_at p k) a.fd small))
          | inr fails ↦
              rw (more, get_next_loop-pool_at p k v, small, fails)
                (ap (λ n. some (record { effects = []; armed = false; pool = pool_at p n }))
                  (omega arith))
        ]
      ]
    ]

pool_at-zero : (p : LoopPool) → IsRunning p → pool_at p 0 ≡ p
pool_at-zero p v =
    ap (λ n. record p { next = n })
      (ap (λ n. n % p.num_threads) (omega arith) ∙ mod-eq_of_lt v.next_in)

-- With a running pool, handNewConn returns. It goes through the connections before a descriptor 0. Those
-- of them before the first that fits the table but cannot be set to non-blocking are each given the loop
-- of their turn, round the pool from the one that is next: the k-th is added to the poller of the loop k
-- places on, with a functor queued there, or closed if its descriptor does not fit the table. The end
-- of the function is reached just when there is no such first one; that one too takes a turn, and is
-- neither added nor closed.
pub hand_new_conn_lem :
    (p : LoopPool) (cs : List Accepted)
    → IsRunning p
    → hand_new_conn cs p ≡ some (handled_from p 0 (nonzero cs))
hand_new_conn_lem p cs v =
    ap (hand_new_conn cs) (sym (pool_at-zero p v)) ∙ hand_new_conn-from p 0 cs v
