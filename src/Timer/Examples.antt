-- ===== src/Timer/Examples.antt =====
-- The theorems on timers at a queue of three nodes.
use so_l.Common.{ℕ, ◌≡◌, refl, true, false, List, [], ◌∷◌, arith}
use so_l.Timer.{TimerNode, Time, milliseconds, new_node, is_valid, handle_expired_event}
use so_l.Timer.Expiry.{new_node_never_expires}

abbrev node : ℕ → TimerNode
node expired_time = record { deleted = false; expired_time = expired_time; request_data = 7 }

abbrev queue : List TimerNode
queue =
    node 1500 ∷ record { deleted = true; expired_time = 2500; request_data = 8 } ∷ node 4000 ∷ []

abbrev noon : Time
noon = record { tv_sec = 2; tv_usec = 500 }

abbrev late : Time
late = record { tv_sec = 9999; tv_usec = 900000 }

queue_at_noon : handle_expired_event noon queue ≡ node 4000 ∷ []
unfolding handle_expired_event is_valid milliseconds
queue_at_noon = refl

new_node_never_expires_example :
    ((is_valid noon (new_node late 9 500)).0 ≡ true)
    × (handle_expired_event noon (new_node late 9 500 ∷ queue) ≡ new_node late 9 500 ∷ queue)
unfolding milliseconds
new_node_never_expires_example =
    new_node_never_expires late noon 9 500 queue (omega arith) (omega arith) (omega arith)
