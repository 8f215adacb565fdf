-- ===== src/Http/Server/Events.antt =====
-- What the events that epoll_wait returns do to the requests: an armed request is there, and stays armed
-- until its own event is handled.
use so_l.Common.{
  ℕ, ◌+◌, ◌≤◌, ◌≡◌, inl, inr, refl, sym, ap, subst, ◌∙◌, Bool, true, false, not, ◌||◌, ◌==◌,
  Bool-cases, Option, none, some, List, [], ◌∷◌, ◌>>=◌, arith,
}
use so_l.Http.Server.{
  Conn, MyTimer, Slot, Server, accept_one, accept_connection, Event, add_task, handle_event_of,
  handle_event, handle_events,
}
use so_l.Http.Server.Slots.{Good, Touches, is_there, is_separate, slot_of, update_self, update_ne}
use so_l.Http.Server.Invariant.{
  NotIn, Inv, at_each, keeps_at, AllQueued-others, AllSeparate-kept, AllQueued-NotIn,
  AllQueued-push,
}
use so_l.Http.Server.Armed.{
  may_report, IsArmed, NotAgain, IsReported, armed_there, Good-slot, delete_request-Inv,
  separate_timer-Inv, add_task-Inv, add_task-IsArmed,
}

accept_one-Inv : (now fd : ℕ) (s : Server) → Inv s → Inv (accept_one now fd s)
unfolding accept_one
accept_one-Inv now fd s i = record {
  good =
      at_each (λ k slot. Good k slot.request slot.timer) n s.slots u.slots others i.good
        (Good-slot n (u.slots n) (some c) (some m) here (inl (refl, refl)));
  unused = λ k h.
      let older : s.fresh ≤ k = ground (arith, h) in
      let other : (k == n) ≡ false = ground (arith, h) in others k other ∙ i.unused k older;
  queued =
      AllQueued-push u.slots n s.queue (ap (λ (x : Slot). is_there x.timer) here) out
        (AllQueued-others n s.slots u.slots s.queue others out i.queued);
  separate =
      AllSeparate-kept n s.slots u.slots s.tasks others
        (λ h.
          let no : false ≡ true = ap (λ (x : Slot). is_separate x.request) (sym was) ∙ h in
          absurd (ground (arith, no)))
        i.separate;
}
  where
    n : ℕ
    n = s.fresh

    c : Conn
    c = record { fd = fd; timer = some n }

    m : MyTimer
    m = record { deleted = false; expired_time = now + 500; request_data = some n }

    u : Server
    u = accept_one now fd s

    here : u.slots n ≡ slot_of (some c) (some m)
    here = update_self s.slots n (slot_of (some c) (some m))

    others : (k : ℕ) → (k == n) ≡ false → u.slots k ≡ s.slots k
    others k h = update_ne s.slots n k (slot_of (some c) (some m)) h

    was : s.slots n ≡ slot_of none none
    was = i.unused n (ground arith)

    out : NotIn n s.queue
    out = AllQueued-NotIn s.slots n s.queue (ap (λ (x : Slot). is_there x.timer) was) i.queued

or_true : (b : Bool) → (b || true) ≡ true
or_true b = ground arith

accept_one-IsArmed :
    (now fd : ℕ) (s : Server) (k : ℕ) → IsArmed s k → IsArmed (accept_one now fd s) k
unfolding accept_one may_report
accept_one-IsArmed now fd s k =
    keeps_at (λ slot. may_report slot.request s.listen_fd) s.fresh s.slots
      (accept_one now fd s).slots (λ k h. update_ne s.slots s.fresh k new h)
      (λ h.
        ap (λ (x : Slot). may_report x.request s.listen_fd) (update_self s.slots s.fresh new)
        ∙ or_true (fd == s.listen_fd))
      k
  where
    new : Slot
    new =
        slot_of (some (record { fd = fd; timer = some s.fresh }))
          (some (record { deleted = false; expired_time = now + 500; request_data = some s.fresh }))

pub accept_connection-Inv :
    (now : ℕ) (fds : List ℕ) (s : Server)
    → Inv s
    → Inv (accept_connection now fds s)
      × ((k : ℕ) → IsArmed s k → IsArmed (accept_connection now fds s) k)
unfolding accept_connection
accept_connection-Inv now [] s i = (i, λ k h. h)
accept_connection-Inv now (fd ∷ fds) s i =
    let (inv, armed) =
      accept_connection-Inv now fds (accept_one now fd s) (accept_one-Inv now fd s i) in
    (inv, λ k h. armed k (accept_one-IsArmed now fd s k h))

Touches-IsArmed :
    (s u : Server) (n k : ℕ) → Touches n s u → (k == n) ≡ false → IsArmed s k → IsArmed u k
Touches-IsArmed s u n k t other h =
    ap (λ (x : Slot). may_report x.request u.listen_fd) (t.others k other)
    ∙ ap (may_report (s.slots k).request) t.same_listener
    ∙ h

-- What handling an event of an armed request gives.
abbrev Handled : ℕ → Server → Option Server → Type 0
Handled n s result =
    (u : Server) × (result ≡ some u)
    × Inv u
    × ((k : ℕ) → (k == n) ≡ false → IsArmed s k → IsArmed u k)

handle_request_event-Handled :
    (now : ℕ) (e : Event) (s : Server) (c : Conn)
    → Inv s
    → (s.slots e.request).request ≡ some c
    → ((c.fd == s.listen_fd) || is_there c.timer) ≡ true
    → Handled e.request s (handle_event_of (some c) now e s)
unfolding handle_event_of
handle_request_event-Handled now e s c i there armed = elim (Bool-cases (c.fd == s.listen_fd)) [
  | inl listens ↦
      let (inv, kept) = accept_connection-Inv now e.accepted s i in
      rw listens (accept_connection now e.accepted s, refl, inv, λ k h. kept k)
  | inr other ↦
      let runs : is_there c.timer ≡ true = ground (arith, other, armed) in
      elim (Bool-cases (e.err || e.hup || not e.in_)) [
        | inl failed ↦
            let (u, done, touches, inv) = delete_request-Inv s e.request c i there runs in
            rw (other, failed) (u, done, inv, λ k. Touches-IsArmed s u e.request k touches)
        | inr ready ↦
            let (u, done, touches, inv, separate) = separate_timer-Inv s e.request c i there in
            rw (other, ready)
              (
                add_task e u,
                ap (λ r. r >>= λ u. some (add_task e u)) done,
                add_task-Inv e u inv separate,
                λ k h a. add_task-IsArmed e u k (Touches-IsArmed s u e.request k touches h a),
              )
      ]
]

handle_event-Handled :
    (now : ℕ) (e : Event) (s : Server)
    → Inv s
    → IsArmed s e.request
    → Handled e.request s (handle_event now e s)
unfolding handle_event may_report
handle_event-Handled now e s i armed =
    let (c, there) = armed_there (s.slots e.request).request s.listen_fd armed in
    subst (λ r. Handled e.request s (handle_event_of r now e s)) (sym there)
      (handle_request_event-Handled now e s c i there
        (ap (λ r. may_report r s.listen_fd) (sym there) ∙ armed))

IsReported-kept :
    (s u : Server) (n : ℕ) (es : List Event)
    → ((k : ℕ) → (k == n) ≡ false → IsArmed s k → IsArmed u k)
    → NotAgain n es
    → IsReported es s
    → IsReported es u
IsReported-kept s u n [] kept out r = tt
IsReported-kept s u n (e ∷ es) kept (other, out) (armed, once, r) =
    (kept e.request other armed, once, IsReported-kept s u n es kept out r)

abbrev pub Returns : Option Server → Type 0
Returns result = (u : Server) × (result ≡ some u) × Inv u

pub handle_events-Inv :
    (now : ℕ) (es : List Event) (s : Server)
    → Inv s
    → IsReported es s
    → Returns (handle_events now es s)
unfolding handle_events
handle_events-Inv now [] s i r = (s, refl, i)
handle_events-Inv now (e ∷ es) s i (armed, once, r) =
    let (u, done, inv, kept) = handle_event-Handled now e s i armed in
    let (v, rest, end) =
      handle_events-Inv now es u inv (IsReported-kept s u e.request es kept once r) in
    (v, ap (λ r. r >>= λ u. handle_events now es u) done ∙ rest, end)
