-- ===== src/Loop/Epoll/Dispatch.antt =====
-- What the channels are told of the events that epoll_wait returns.
use so_l.Common.{
  ℕ, ◌≡◌, inl, inr, refl, sym, ap, subst, ◌∙◌, true, false, ltb, ◌==◌, Bool-cases, Option, none,
  some, Option-cases, List, [], ◌∷◌, ◌++◌, ◌>>=◌, arith,
}
use so_l.Loop.Channel.{Channel, Events, no_events, set_revents, set_events}
use so_l.Loop.Epoll.{Epoll, max_fds, activate, take_event, get_events_request}
use so_l.Loop.Epoll.Interest.{Agrees, AllAgree, put_self, put_ne, ==-eq}
use so_l.Loop.Epoll.Registered.{same-AllAgree}

abbrev pub NotIn : ℕ → List (ℕ × Events) → Type 0
NotIn fd [] = Unit
NotIn fd ((k, ev) ∷ evs) = ((fd == k) ≡ false) × NotIn fd evs

-- What one call of epoll_wait may return: descriptors in the table's range, each once.
abbrev pub IsReported : List (ℕ × Events) → Type 0
IsReported [] = Unit
IsReported ((fd, ev) ∷ evs) = (ltb fd max_fds ≡ true) × NotIn fd evs × IsReported evs

-- The channels of the events, in their order.
abbrev pub named : (ℕ → Option ℕ) → List (ℕ × Events) → List ℕ
named table [] = []
named table ((fd, ev) ∷ evs) = of (table fd) ++ named table evs
  where
    of : Option ℕ → List ℕ
    of none = []
    of (some c) = c ∷ []

abbrev Shows : (ℕ → Channel) → Events → Option ℕ → Type 0
Shows channels ev none = Unit
Shows channels ev (some c) = ((channels c).revents ≡ ev) × ((channels c).events ≡ no_events)

-- The channel of each event has been told of it, and waits for nothing until it is handled.
abbrev pub AllDelivered : (ℕ → Channel) → (ℕ → Option ℕ) → List (ℕ × Events) → Type 0
AllDelivered channels table [] = Unit
AllDelivered channels table ((fd, ev) ∷ evs) =
    Shows channels ev (table fd) × AllDelivered channels table evs

-- The channels whose descriptors have no event are as they were.
abbrev pub OthersKept : Epoll → Epoll → List (ℕ × Events) → Type 0
OthersKept e u evs = (fd c : ℕ) → NotIn fd evs → e.fd2chan fd ≡ some c → u.channels c ≡ e.channels c

abbrev pub Dispatches : Epoll → List (ℕ × Events) → Type 0
Dispatches e evs =
    (u : Epoll) × (get_events_request evs e ≡ some (u, named e.fd2chan evs))
    × (u.fd2chan ≡ e.fd2chan)
    × AllAgree u
    × AllDelivered u.channels e.fd2chan evs
    × OthersKept e u evs

agrees_at : (e : Epoll) (fd c : ℕ) → AllAgree e → e.fd2chan fd ≡ some c → (e.channels c).fd ≡ fd
agrees_at e fd c all h = (subst (Agrees e.channels e.calls fd) h (all fd)).0

-- Channels at two descriptors are two.
apart :
    (e : Epoll) (fd k c d : ℕ)
    → AllAgree e
    → e.fd2chan fd ≡ some c
    → e.fd2chan k ≡ some d
    → (fd == k) ≡ false
    → (c == d) ≡ false
apart e fd k c d all at_fd at_k differ = elim (Bool-cases (c == d)) [
  | inl one ↦
      let at_c = agrees_at e fd c all at_fd in
      let at_d = agrees_at e k d all at_k in
      let same : fd ≡ k = sym at_c ∙ ap (λ n. (e.channels n).fd) (==-eq c d one) ∙ at_d in
      absurd (ground (arith, differ, same))
  | inr other ↦ other
]

-- One event whose descriptor is in the table.
dispatch_found :
    (e : Epoll) (fd : ℕ) (ev : Events) (evs : List (ℕ × Events)) (c : ℕ)
    → e.fd2chan fd ≡ some c
    → ltb fd max_fds ≡ true
    → NotIn fd evs
    → AllAgree e
    → Dispatches (activate c ev e) evs
    → Dispatches e ((fd, ev) ∷ evs)
unfolding activate get_events_request take_event set_revents set_events
dispatch_found e fd ev evs c here below once all (u, done, table, agree, delivered, kept) = (
  u,
  rw (here, below) (ap (λ r. r >>= λ (p : Epoll × List ℕ). some (p.0, (c ∷ []) ++ p.1)) done),
  table,
  agree,
  (
    subst (Shows u.channels ev) (sym here) (
        subst (λ (x : Channel). (x.revents ≡ ev) × (x.events ≡ no_events))
          (sym (kept fd c once here ∙ put_self e.channels c new)) (refl, refl)),
    delivered,
  ),
  λ k d (other, out) at_k.
      kept k d out at_k ∙ put_ne e.channels c d new (apart e k fd d c all at_k here other),
)
  where
    new : Channel
    new = record (e.channels c) { revents = ev; events = no_events }

dispatch_missing :
    (e : Epoll) (fd : ℕ) (ev : Events) (evs : List (ℕ × Events))
    → e.fd2chan fd ≡ none
    → ltb fd max_fds ≡ true
    → Dispatches e evs
    → Dispatches e ((fd, ev) ∷ evs)
unfolding get_events_request take_event
dispatch_missing e fd ev evs here below (u, done, table, agree, delivered, kept) = (
  u,
  rw (here, below) (ap (λ r. r >>= λ (p : Epoll × List ℕ). some (p.0, [] ++ p.1)) done),
  table,
  agree,
  (subst (Shows u.channels ev) (sym here) tt, delivered),
  λ k d (other, out) at_k. kept k d out at_k,
)

activate-AllAgree : (c : ℕ) (ev : Events) (e : Epoll) → AllAgree e → AllAgree (activate c ev e)
unfolding activate set_revents set_events
activate-AllAgree c ev e all =
    same-AllAgree e c (record (e.channels c) { revents = ev; events = no_events }) (refl, refl) all

-- If the table and the kernel's interest agree, and the events are of descriptors in the table's range,
-- each once, then getEventsRequest returns: the active channels are those of the events, in order; each
-- has been told of its event and its own mask is empty; the other channels of the table, the table, and
-- that it agrees with the kernel, are as they were.
pub get_events_request-Dispatches :
    (e : Epoll) (evs : List (ℕ × Events)) → AllAgree e → IsReported evs → Dispatches e evs
unfolding get_events_request activate set_revents set_events
get_events_request-Dispatches e [] all r = (e, refl, refl, all, tt, λ k d out at_k. refl)
get_events_request-Dispatches e ((fd, ev) ∷ evs) all (below, once, r) =
    elim (Option-cases (e.fd2chan fd)) [
      | inl missing ↦
          dispatch_missing e fd ev evs missing below (get_events_request-Dispatches e evs all r)
      | inr (c, here) ↦
          dispatch_found e fd ev evs c here below once all
            (get_events_request-Dispatches (activate c ev e) evs (activate-AllAgree c ev e all) r)
    ]
