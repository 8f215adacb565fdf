-- ===== src/LoopPool/Accepting/Examples.antt =====
-- New connections at a pool of three loops.
use so_l.Common.{◌≡◌, refl, true, false, some, List, [], ◌∷◌, arith}
use so_l.LoopPool.{LoopPool}
use so_l.LoopPool.RoundRobin.{IsRunning}
use so_l.LoopPool.Accepting.{
  Accepted, Handled, hand_new_conn, close, add_to_poller, queue_in_loop, connection,
}
use so_l.LoopPool.Accepting.Turns.{hand_new_conn_lem}

abbrev three : LoopPool
three = record {
  base_loop = 5;
  started = true;
  num_threads = 3;
  next = 2;
  loops = 20 ∷ 21 ∷ 22 ∷ [];
}

three-IsRunning : IsRunning three
three-IsRunning = record { is_started = refl; enough = refl; next_in = omega arith }

-- The second does not fit the table, and the fourth cannot be set to non-blocking.
abbrev connections : List Accepted
connections =
    record { fd = 8; set_non_blocking = true }
    ∷ record { fd = 100000; set_non_blocking = true }
    ∷ record { fd = 9; set_non_blocking = true }
    ∷ record { fd = 10; set_non_blocking = false }
    ∷ record { fd = 11; set_non_blocking = true }
    ∷ []

abbrev handled : Handled
handled = record {
  effects =
      add_to_poller 22 (connection 8)
      ∷ queue_in_loop 22
      ∷ close 100000
      ∷ add_to_poller 21 (connection 9)
      ∷ queue_in_loop 21
      ∷ [];
  armed = false;
  pool = record three { next = 0 };
}

hand_new_conn_lem_example : hand_new_conn connections three ≡ some handled
hand_new_conn_lem_example = hand_new_conn_lem three connections three-IsRunning
