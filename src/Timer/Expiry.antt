-- ===== src/Timer/Expiry.antt =====
-- Which timers are dropped, and which never are.
use so_l.Common.{
  Bool-cases, ltb→lt, ltb→le, ℕ, ◌+◌, ◌≤◌, ◌<◌, ◌≡◌, refl, ap, Bool, true, false, not, ltb,
  if◌then◌else◌, List, [], ◌∷◌, ◌++◌, arith, ◌⊎◌, inl, inr,
}
use so_l.Timer.{
  TimerNode, Time, milliseconds, new_node, is_valid, push, add_timer, handle_expired_event,
}

-- The node is deleted, or its time has come.
abbrev pub IsDue : Time → TimerNode → Type 0
IsDue now n = (n.deleted ≡ true) ⊎ (n.expired_time ≤ milliseconds now)

abbrev pub AllDue : Time → List TimerNode → Type 0
AllDue now [] = Unit
AllDue now (n ∷ ns) = IsDue now n × AllDue now ns

-- Sorted by expiry.
abbrev pub AllAfter : ℕ → List TimerNode → Type 0
AllAfter t [] = Unit
AllAfter t (n ∷ ns) = (t ≤ n.expired_time) × AllAfter n.expired_time ns

-- The top of the queue is in use and not yet due.
abbrev pub TopIsLive : Time → List TimerNode → Type 0
TopIsLive now [] = Unit
TopIsLive now (n ∷ ns) = (n.deleted ≡ false) × (milliseconds now < n.expired_time)

-- What one turn of the loop leaves, by its two tests.
kept : Bool → Bool → TimerNode → List TimerNode → List TimerNode → List TimerNode
kept deleted valid n ns rest = if deleted then rest else if not valid then rest else n ∷ ns

-- The queue is a dropped part that was due, and then the kept part, with a top that is live.
abbrev IsDrop : Time → List TimerNode → List TimerNode → Type 0
IsDrop now queue left =
    (dropped : List TimerNode) × (queue ≡ dropped ++ left) × AllDue now dropped × TopIsLive now left

kept-IsDrop :
    (now : Time) (n : TimerNode) (ns rest : List TimerNode) (deleted valid : Bool)
    → n.deleted ≡ deleted
    → (is_valid now n).0 ≡ valid
    → IsDrop now ns rest
    → IsDrop now (n ∷ ns) (kept deleted valid n ns rest)
unfolding kept is_valid
kept-IsDrop now n ns rest true valid d v (ds, e, all, top) =
    (n ∷ ds, ap (◌∷◌ n) e, (inl d, all), top)
kept-IsDrop now n ns rest false true d v h = ([], refl, tt, (d, ground arith))
kept-IsDrop now n ns rest false false d v (ds, e, all, top) =
    (n ∷ ds, ap (◌∷◌ n) e, (inr (ground arith), all), top)

-- Handling expired events drops a front part of the queue in which every node is deleted or due, and
-- stops at a node that is neither, or at the end.
pub handle_expired_event_lem :
    (now : Time) (queue : List TimerNode)
    → (dropped : List TimerNode) × (queue ≡ dropped ++ handle_expired_event now queue)
      × AllDue now dropped
      × TopIsLive now (handle_expired_event now queue)
unfolding handle_expired_event kept
handle_expired_event_lem now [] = ([], refl, tt, tt)
handle_expired_event_lem now (n ∷ ns) =
    kept-IsDrop now n ns (handle_expired_event now ns) n.deleted (is_valid now n).0 refl refl
      (handle_expired_event_lem now ns)

push-AllAfter :
    (t : ℕ) (node : TimerNode) (queue : List TimerNode)
    → t ≤ node.expired_time
    → AllAfter t queue
    → AllAfter t (push node queue)
unfolding push
push-AllAfter t node [] le h = (le, tt)
push-AllAfter t node (n ∷ ns) le h = elim (Bool-cases (ltb node.expired_time n.expired_time)) [
  | inl earlier ↦ rw earlier (le, (omega (arith, ltb→lt _ _ earlier), h.1))
  | inr later ↦
      rw later (h.0, push-AllAfter n.expired_time node ns (omega (arith, ltb→le _ _ later)) h.1)
]

-- Adding a timer keeps the queue in the order of expiry.
pub add_timer-AllAfter :
    (now : Time) (queue : List TimerNode) (request_data timeout : ℕ)
    → AllAfter 0 queue
    → AllAfter 0 (add_timer now queue request_data timeout)
unfolding add_timer
add_timer-AllAfter now queue r t h = push-AllAfter 0 (new_node now r t) queue (omega arith) h

-- A timer that is set so late in the ten thousand seconds of the clock that its time falls behind
-- their end is valid at every time, and is never dropped from the top of the queue.
pub new_node_never_expires :
    (set now : Time) (request_data timeout : ℕ) (queue : List TimerNode)
    → set.tv_usec < 1000000
    → now.tv_usec < 1000000
    → 10000000 ≤ milliseconds set + timeout
    → let node = new_node set request_data timeout in
      ((is_valid now node).0 ≡ true) × (handle_expired_event now (node ∷ queue) ≡ node ∷ queue)
unfolding new_node is_valid milliseconds handle_expired_event
new_node_never_expires set now r t queue a b h = (ground arith, ground arith)
