-- ===== src/Timer.antt =====
-- `TimerNode` and `TimerManager` of net/Timer.h and net/Timer.cpp. The time of day is an argument,
-- in seconds and microseconds; the answers of `gettimeofday` within one call of
-- `handle_expired_event` are one time. `std::priority_queue` is a list in the order of its top; which
-- of two nodes with one time comes first is not said there, and is the older one here.
pub mod Expiry
mod Examples
use so_l.Common.{ℕ, ◌+◌, ◌*◌, ◌/◌, ◌%◌, Bool, true, false, not, ltb, if◌then◌else◌, List, [], ◌∷◌}

pub record TimerNode : Type 0 where
  pub deleted : Bool
  pub expired_time : ℕ
  -- the channel that the node is for
  pub request_data : ℕ

pub record Time : Type 0 where
  pub tv_sec : ℕ
  pub tv_usec : ℕ

-- Milliseconds, of a clock that goes round every ten thousand seconds.
unfoldable pub milliseconds : Time → ℕ
milliseconds now = now.tv_sec % 10000 * 1000 + now.tv_usec / 1000

-- `TimerNode::TimerNode(std::shared_ptr<Channel>, int)`
unfoldable pub new_node : Time → ℕ → ℕ → TimerNode
unfolding milliseconds
new_node now request_data timeout = record {
  deleted = false;
  expired_time = milliseconds now + timeout;
  request_data = request_data;
}

unfoldable pub update : Time → TimerNode → ℕ → TimerNode
unfolding milliseconds
update now node timeout = record node { expired_time = milliseconds now + timeout }

unfoldable pub set_deleted : TimerNode → TimerNode
set_deleted node = record node { deleted = true }

-- `isValid`, with the node afterwards.
unfoldable pub is_valid : Time → TimerNode → Bool × TimerNode
unfolding milliseconds set_deleted
is_valid now node =
    if ltb (milliseconds now) node.expired_time then (true, node) else (false, set_deleted node)

-- `priority_queue::push` by `TimerCmp`.
unfoldable pub push : TimerNode → List TimerNode → List TimerNode
push node [] = node ∷ []
push node (n ∷ ns) =
    if ltb node.expired_time n.expired_time then node ∷ n ∷ ns else n ∷ push node ns

unfoldable pub add_timer : Time → List TimerNode → ℕ → ℕ → List TimerNode
unfolding push new_node
add_timer now queue request_data timeout = push (new_node now request_data timeout) queue

unfoldable pub handle_expired_event : Time → List TimerNode → List TimerNode
unfolding is_valid
handle_expired_event now [] = []
handle_expired_event now (n ∷ ns) =
    let rest = handle_expired_event now ns in
    if n.deleted then rest else if not (is_valid now n).0 then rest else n ∷ ns
