-- ===== src/Http/Server.antt =====
-- The main program of Examples/Ver0.1/main.cpp, with `mytimer` and the destructors of HttpData.cpp:
-- who owns a request. `acceptConnection` makes a request and a timer at once, and the model gives
-- both one number. A use of what was deleted, or a second delete, is `none`. The path of a request,
-- which nothing reads, and the calls of epoll are left out; the pool is the list of the requests that
-- it has been given.
pub mod Slots
pub mod Invariant
pub mod Armed
pub mod Events
pub mod Expiry
pub mod Ownership
mod Examples
use so_l.Common.{
  ℕ, ◌+◌, Bool, true, false, not, ◌||◌, ltb, ◌==◌, if◌then◌else◌, Option, none, some, List, [], ◌∷◌,
  ◌++◌, ◌>>=◌,
}

-- `requestData`, as far as the main program sees it.
pub record Conn : Type 0 where
  pub fd : ℕ
  pub timer : Option ℕ

-- `mytimer`
pub record MyTimer : Type 0 where
  pub deleted : Bool
  pub expired_time : ℕ
  pub request_data : Option ℕ

-- The request and the timer of one number, if they are there.
pub record Slot : Type 0 where
  pub request : Option Conn
  pub timer : Option MyTimer

-- `queue` is `myTimerQueue` in the order of its top.
pub record Server : Type 0 where
  pub slots : ℕ → Slot
  pub fresh : ℕ
  pub queue : List ℕ
  pub tasks : List ℕ
  pub listen_fd : ℕ

unfoldable pub update : (ℕ → Slot) → ℕ → Slot → ℕ → Slot
update slots n slot m = if m == n then slot else slots m

abbrev pub put_request : ℕ → Option Conn → Server → Server
put_request n c s = record s { slots = update s.slots n (record (s.slots n) { request = c }) }

abbrev pub put_timer : ℕ → Option MyTimer → Server → Server
put_timer n t s = record s { slots = update s.slots n (record (s.slots n) { timer = t }) }

-- `mytimer::clearReq`
clear_req_of : Option MyTimer → ℕ → Server → Option Server
clear_req_of none t s = none
clear_req_of (some m) t s =
    some (put_timer t (some (record m { request_data = none; deleted = true })) s)

-- `timer->clearReq()`, if there is a timer.
detach : Option ℕ → Server → Option Server
unfolding clear_req_of
detach none s = some s
detach (some t) s = clear_req_of (s.slots t).timer t s

-- `delete request`: `requestData::~requestData`
delete_request_of : Option Conn → ℕ → Server → Option Server
unfolding detach
delete_request_of none n s = none
delete_request_of (some c) n s = detach c.timer s >>= λ u. some (put_request n none u)

unfoldable pub delete_request : ℕ → Server → Option Server
unfolding delete_request_of update
delete_request n s = delete_request_of (s.slots n).request n s

-- `delete ptimer`: `mytimer::~mytimer`
delete_owned : Option ℕ → Server → Option Server
unfolding delete_request
delete_owned none s = some s
delete_owned (some n) s = delete_request n s

delete_timer_of : Option MyTimer → ℕ → Server → Option Server
unfolding delete_owned
delete_timer_of none t s = none
delete_timer_of (some m) t s = delete_owned m.request_data s >>= λ u. some (put_timer t none u)

unfoldable pub delete_timer : ℕ → Server → Option Server
unfolding delete_timer_of update
delete_timer t s = delete_timer_of (s.slots t).timer t s

-- `requestData::seperateTimer`
separate_of : Option Conn → ℕ → Server → Option Server
unfolding detach
separate_of none n s = none
separate_of (some c) n s =
    detach c.timer s >>= λ u. some (put_request n (some (record c { timer = none })) u)

unfoldable pub separate_timer : ℕ → Server → Option Server
unfolding separate_of update
separate_timer n s = separate_of (s.slots n).request n s

-- `priority_queue::push` by `comparator`.
abbrev expired_time_of : Option MyTimer → ℕ
expired_time_of none = 0
expired_time_of (some m) = m.expired_time

unfoldable pub push : (ℕ → Slot) → ℕ → List ℕ → List ℕ
push slots t [] = t ∷ []
push slots t (u ∷ us) =
    if ltb (expired_time_of (slots t).timer) (expired_time_of (slots u).timer)
    then t ∷ u ∷ us
    else u ∷ push slots t us

-- A round of `acceptConnection`: the descriptor, and the time in milliseconds.
unfoldable pub accept_one : ℕ → ℕ → Server → Server
unfolding update push
accept_one now fd s =
    let n = s.fresh in
    let slots = update s.slots n (record {
      request = some (record { fd = fd; timer = some n });
      timer = some (record { deleted = false; expired_time = now + 500; request_data = some n });
    }) in
    record s { slots = slots; fresh = n + 1; queue = push slots n s.queue }

-- `acceptConnection`; the descriptors are those that accept returns before it fails.
unfoldable pub accept_connection : ℕ → List ℕ → Server → Server
unfolding accept_one
accept_connection now [] s = s
accept_connection now (fd ∷ fds) s = accept_connection now fds (accept_one now fd s)

-- An event of epoll_wait, with what accept returns while it is handled, and whether threadpool_add
-- succeeds; nothing reads its result.
pub record Event : Type 0 where
  pub request : ℕ
  pub err : Bool
  pub hup : Bool
  pub in_ : Bool
  pub accepted : List ℕ
  pub added : Bool

pub add_task : Event → Server → Server
add_task e s = if e.added then record s { tasks = s.tasks ++ (e.request ∷ []) } else s

-- The body of the loop of `handle_events`.
handle_event_of : Option Conn → ℕ → Event → Server → Option Server
unfolding accept_connection delete_request separate_timer add_task
handle_event_of none now e s = none
handle_event_of (some c) now e s =
    if c.fd == s.listen_fd
    then some (accept_connection now e.accepted s)
    else if e.err || e.hup || not e.in_
    then delete_request e.request s
    else (separate_timer e.request s >>= λ u. some (add_task e u))

unfoldable pub handle_event : ℕ → Event → Server → Option Server
unfolding handle_event_of
handle_event now e s = handle_event_of (s.slots e.request).request now e s

unfoldable pub handle_events : ℕ → List Event → Server → Option Server
unfolding handle_event
handle_events now [] s = some s
handle_events now (e ∷ es) s = handle_event now e s >>= λ u. handle_events now es u

-- Whether the top of the queue goes, with the timer afterwards: `isDeleted`, and `isvalid`.
goes : ℕ → MyTimer → Bool × MyTimer
goes now m =
    if m.deleted
    then (true, m)
    else if ltb now m.expired_time
    then (false, m)
    else (true, record m { deleted = true })

expire_top : Option MyTimer → ℕ → ℕ → List ℕ → (Server → Option Server) → Server → Option Server
unfolding goes delete_timer
expire_top none now t ts next s = none
expire_top (some m) now t ts next s =
    if (goes now m).0
    then (delete_timer t (put_timer t (some (goes now m).1) (record s { queue = ts })) >>= next)
    else some s

-- The loop of `handle_expired_event` on the queue.
expire : ℕ → List ℕ → Server → Option Server
unfolding expire_top
expire now [] s = some s
expire now (t ∷ ts) s = expire_top (s.slots t).timer now t ts (λ u. expire now ts u) s

unfoldable pub handle_expired_event : ℕ → Server → Option Server
unfolding expire
handle_expired_event now s = expire now s.queue s

-- Rounds of the loop of `main`, each with its time and its events; a round with none goes on at once.
unfoldable pub run : List (ℕ × List Event) → Server → Option Server
unfolding handle_events handle_expired_event
run [] s = some s
run ((now, []) ∷ rounds) s = run rounds s
run ((now, e ∷ es) ∷ rounds) s =
    handle_events now (e ∷ es) s >>= λ u. handle_expired_event now u >>= λ v. run rounds v

-- `main` up to its loop: the listening request has no timer.
unfoldable pub init : ℕ → Server
init listen_fd = record {
  slots = λ n. record {
    request = if n == 0 then some (record { fd = listen_fd; timer = none }) else none;
    timer = none;
  };
  fresh = 1;
  queue = [];
  tasks = [];
  listen_fd = listen_fd;
}
