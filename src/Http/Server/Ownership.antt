-- ===== src/Http/Server/Ownership.antt =====
-- No request and no timer is used or deleted after it was deleted, and a request in the pool stays.
use so_l.Common.{
  ℕ, ◌≡◌, inl, inr, refl, ap, subst, ◌∙◌, false, ◌==◌, if◌then◌else◌, Bool-cases, Option, none,
  some, List, [], ◌∷◌, ◌>>=◌, arith,
}
use so_l.Http.Server.{Server, Event, handle_events, handle_expired_event, run, init}
use so_l.Http.Server.Slots.{Good, slot_of}
use so_l.Http.Server.Invariant.{Inv}
use so_l.Http.Server.Armed.{IsReported}
use so_l.Http.Server.Events.{Returns, handle_events-Inv}
use so_l.Http.Server.Expiry.{handle_expired_event-Settles}

abbrev pub After : (Server → Type 0) → Option Server → Type 0
After P none = Unit
After P (some s) = P s

-- What the calls of epoll_wait return in a run that goes on.
abbrev pub AllReported : List (ℕ × List Event) → Server → Type 0
AllReported [] s = Unit
AllReported ((now, []) ∷ rounds) s = AllReported rounds s
AllReported ((now, e ∷ es) ∷ rounds) s =
    IsReported (e ∷ es) s
    × After (λ u. AllReported rounds u)
        (handle_events now (e ∷ es) s >>= λ u. handle_expired_event now u)

run-Inv :
    (rounds : List (ℕ × List Event)) (s : Server)
    → Inv s
    → AllReported rounds s
    → Returns (run rounds s)
unfolding run
run-Inv [] s i r = (s, refl, i)
run-Inv ((now, []) ∷ rounds) s i r = run-Inv rounds s i r
run-Inv ((now, e ∷ es) ∷ rounds) s i (reported, later) =
    let (u, handled, inv_u) = handle_events-Inv now (e ∷ es) s i reported in
    let (v, expired, inv_v, settled) = handle_expired_event-Settles now u inv_u in
    let (w, rest, inv_w) =
      run-Inv rounds v inv_v
        (subst (After (λ u. AllReported rounds u)) (both u v handled expired) later) in
    (
      w,
      ap (λ r. r >>= λ u. handle_expired_event now u >>= λ v. run rounds v) handled
          ∙ ap (λ r. r >>= λ v. run rounds v) expired
          ∙ rest,
      inv_w,
    )
  where
    both :
        (u v : Server)
        → handle_events now (e ∷ es) s ≡ some u
        → handle_expired_event now u ≡ some v
        → (handle_events now (e ∷ es) s >>= λ u. handle_expired_event now u) ≡ some v
    both u v handled expired = ap (λ r. r >>= λ u. handle_expired_event now u) handled ∙ expired

pub init-Inv : (listen_fd : ℕ) → Inv (init listen_fd)
unfolding init
init-Inv listen_fd = record {
  good = good;
  unused = λ n h.
      let later : (n == 0) ≡ false = ground (arith, h) in
      ap (λ b. slot_of (if b then some (record { fd = listen_fd; timer = none }) else none) none)
        later;
  queued = tt;
  separate = tt;
}
  where
    good :
        (n : ℕ)
        → Good n (if n == 0 then some (record { fd = listen_fd; timer = none }) else none) none
    good n = elim (Bool-cases (n == 0)) [ inl first ↦ rw first refl | inr later ↦ rw later tt ]

-- If each call of epoll_wait returns requests that are armed, each in one event, then however long the
-- server runs, and whatever accept and the pool answer, no request and no timer is used or deleted after
-- it was deleted. Then a request and its timer point to one another or neither points to anything,
-- every timer of the queue is there, once, and every request given to the pool is there and points
-- to no timer.
pub run-init-Returns :
    (listen_fd : ℕ) (rounds : List (ℕ × List Event))
    → AllReported rounds (init listen_fd)
    → Returns (run rounds (init listen_fd))
run-init-Returns listen_fd rounds r = run-Inv rounds (init listen_fd) (init-Inv listen_fd) r
