-- ===== src/Loop/Epoll.antt =====
-- `Epoll` of net/Epoll.h and net/Epoll.cpp: the table from descriptors to channels. A channel that is
-- shared is a number, and `channels` is what it holds. `calls` are the calls of epoll_ctl that
-- succeeded, the latest first; whether one succeeds is an argument. `add_timer` and `handleExpired`,
-- whose bodies are empty, and their timeouts are left out. An index out of the table is `none`.
pub mod Interest
pub mod Registered
pub mod Dispatch
pub mod Runs
mod Examples
use so_l.Common.{
  ℕ, Bool, true, false, not, ltb, ◌==◌, if◌then◌else◌, Option, none, some, List, [], ◌∷◌, ◌++◌,
  ◌>>=◌,
}
use so_l.Loop.Channel.{
  Channel, Events, no_events, set_revents, set_events, equal_and_update_last_events,
}

-- The calls of epoll_ctl.
pub data Ctl : Type 0 where
  ctl_add ctl_mod : ℕ → Events → Ctl
  ctl_del : ℕ → Ctl

pub record Epoll : Type 0 where
  pub fd2chan : ℕ → Option ℕ
  pub channels : ℕ → Channel
  pub calls : List Ctl

-- `Epoll::Epoll`, next to channels that are there already.
unfoldable pub new_epoll : (ℕ → Channel) → Epoll
new_epoll channels = record { fd2chan = λ fd. none; channels = channels; calls = [] }

abbrev pub max_fds : ℕ
max_fds = 100000

unfoldable pub put {ℓ} : {A : Type ℓ} → (ℕ → A) → ℕ → A → ℕ → A
put f n a m = if m == n then a else f m

-- `fd2chan_[fd] = ...`
unfoldable pub set_chan : ℕ → Option ℕ → Epoll → Option Epoll
unfolding put
set_chan fd c e = if ltb fd max_fds then some (record e { fd2chan = put e.fd2chan fd c }) else none

abbrev pub log : Bool → Ctl → Epoll → Epoll
log ok ctl e = record e { calls = if ok then ctl ∷ e.calls else e.calls }

abbrev pub put_channel : ℕ → Channel → Epoll → Epoll
put_channel c channel e = record e { channels = put e.channels c channel }

unfoldable pub epoll_add : ℕ → Bool → Epoll → Option Epoll
unfolding set_chan equal_and_update_last_events
epoll_add request ok e =
    let channel = e.channels request in
    let u = put_channel request (equal_and_update_last_events channel).0 e in
    set_chan channel.fd (some request) u >>= λ v.
    let w = log ok (ctl_add channel.fd channel.events) v in
    if ok then some w else set_chan channel.fd none w

unfoldable pub epoll_mod : ℕ → Bool → Epoll → Option Epoll
unfolding set_chan equal_and_update_last_events
epoll_mod request ok e =
    let channel = e.channels request in
    let (updated, equal) = equal_and_update_last_events channel in
    let u = put_channel request updated e in
    if equal
    then some u
    else (let v = log ok (ctl_mod channel.fd updated.events) u in
        if ok then some v else set_chan channel.fd none v)

unfoldable pub epoll_del : ℕ → Bool → Epoll → Option Epoll
unfolding set_chan
epoll_del request ok e =
    let fd = (e.channels request).fd in set_chan fd none (log ok (ctl_del fd) e)

-- A channel that has an event.
unfoldable pub activate : ℕ → Events → Epoll → Epoll
unfolding set_revents set_events
activate c ev e = put_channel c (set_events (set_revents (e.channels c) ev) no_events) e

-- What is done with one event: the channel of its descriptor, if there is one, is active.
unfoldable pub take_event : Option ℕ → Events → Epoll → Epoll × List ℕ
unfolding activate
take_event none ev e = (e, [])
take_event (some c) ev e = (activate c ev e, c ∷ [])

-- `getEventsRequest` on what epoll_wait returned.
unfoldable pub get_events_request : List (ℕ × Events) → Epoll → Option (Epoll × List ℕ)
unfolding take_event
get_events_request [] e = some (e, [])
get_events_request ((fd, ev) ∷ evs) e =
    let (u, cs) = take_event (e.fd2chan fd) ev e in
    let rest = get_events_request evs u in
    if ltb fd max_fds then (rest >>= λ r. some (r.0, cs ++ r.1)) else none

-- What is done with a poller: the operations, and a channel's new mask between them.
pub data Op : Type 0 where
  add mod_ del : ℕ → Bool → Op
  mask : ℕ → Events → Op
  poll : List (ℕ × Events) → Op

unfoldable pub apply : Op → Epoll → Option Epoll
unfolding epoll_add epoll_mod epoll_del get_events_request set_events
apply (add c ok) e = epoll_add c ok e
apply (mod_ c ok) e = epoll_mod c ok e
apply (del c ok) e = epoll_del c ok e
apply (mask c ev) e = some (put_channel c (set_events (e.channels c) ev) e)
apply (poll evs) e = get_events_request evs e >>= λ r. some r.0

unfoldable pub run : List Op → Epoll → Option Epoll
unfolding apply
run [] e = some e
run (op ∷ ops) e = apply op e >>= λ u. run ops u
