-- ===== src/LoopPool/Accepting.antt =====
-- `Server::handNewConn` of net/Server.cpp: new connections are given to the loops of the pool. What
-- accept returns, until it fails, and whether a descriptor can be set to non-blocking, are arguments;
-- the calls on the loops are returned, in order. The address of the client is not kept.
pub mod Turns
mod Examples
use so_l.Common.{
  ℕ, Bool, true, false, ltb, ◌==◌, if◌then◌else◌, Option, none, some, List, [], ◌∷◌, ◌++◌, ◌>>=◌,
}
use so_l.Loop.Channel.{Channel, no_events, in_et, set_events, new_channel}
use so_l.Loop.Epoll.{max_fds}
use so_l.LoopPool.{LoopPool, get_next_loop}

pub record Accepted : Type 0 where
  pub fd : ℕ
  pub set_non_blocking : Bool

pub data Effect : Type 0 where
  close : ℕ → Effect
  add_to_poller : ℕ → Channel → Effect
  queue_in_loop : ℕ → Effect

-- Whether the end of the function was reached, where the accepting channel gets its mask back.
pub record Handled : Type 0 where
  pub effects : List Effect
  pub armed : Bool
  pub pool : LoopPool

-- The channel of a new connection; its handlers are set.
unfoldable pub connection : ℕ → Channel
unfolding new_channel set_events
connection fd = record (set_events (new_channel fd no_events) in_et) {
  read_handler = true;
  conn_handler = true;
}

abbrev pub before : List Effect → Handled → Handled
before effects h = record h { effects = effects ++ h.effects }

-- A descriptor that is 0 ends the loop, as an error does.
unfoldable pub hand_new_conn : List Accepted → LoopPool → Option Handled
unfolding connection
hand_new_conn [] p = some (record { effects = []; armed = true; pool = p })
hand_new_conn (a ∷ cs) p =
    let next = get_next_loop p in
    let rest = next >>= λ r. hand_new_conn cs r.1 in
    if a.fd == 0
    then some (record { effects = []; armed = true; pool = p })
    else (next >>= λ r.
        if ltb a.fd max_fds
        then (if a.set_non_blocking
            then (rest >>= λ h.
                some (before (add_to_poller r.0 (connection a.fd) ∷ queue_in_loop r.0 ∷ []) h))
            else some (record { effects = []; armed = false; pool = r.1 }))
        else (rest >>= λ h. some (before (close a.fd ∷ []) h)))
