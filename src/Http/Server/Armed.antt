-- ===== src/Http/Server/Armed.antt =====
-- Which requests epoll may report, and what deleting or separating such a one does.
use so_l.Common.{
  ℕ, ◌≡◌, inl, inr, refl, sym, ap, subst, ◌∙◌, Bool, true, false, not, ◌||◌, ◌==◌, Bool-cases,
  Option, none, some, List, [], ◌∷◌, arith,
}
use so_l.Http.Server.{Conn, MyTimer, Slot, Server, Event, add_task, delete_request, separate_timer}
use so_l.Http.Server.Slots.{
  Good, Touches, is_there, is_separate, slot_of, delete_request-Becomes, separate_timer-Becomes,
}
use so_l.Http.Server.Invariant.{Inv, AllSeparate-append, Touches-Inv, Touches-queued}

-- epoll reports the listening request, and one whose timer runs, which is armed for one event.
unfoldable pub may_report : Option Conn → ℕ → Bool
may_report none listen_fd = false
may_report (some c) listen_fd = (c.fd == listen_fd) || is_there c.timer

abbrev pub IsArmed : Server → ℕ → Type 0
IsArmed s n = may_report (s.slots n).request s.listen_fd ≡ true

abbrev pub NotAgain : ℕ → List Event → Type 0
NotAgain n [] = Unit
NotAgain n (e ∷ es) = ((e.request == n) ≡ false) × NotAgain n es

-- What one call of epoll_wait may return: requests that are armed, each in one event.
abbrev pub IsReported : List Event → Server → Type 0
IsReported [] s = Unit
IsReported (e ∷ es) s = IsArmed s e.request × NotAgain e.request es × IsReported es s

pub armed_there :
    (c : Option Conn) (listen_fd : ℕ) → may_report c listen_fd ≡ true → (d : Conn) × (c ≡ some d)
unfolding may_report
armed_there none listen_fd h = absurd (ground (arith, h))
armed_there (some d) listen_fd h = (d, refl)

no_slot : (slot : Slot) (c : Conn) → slot.request ≡ some c → ¬ (slot ≡ slot_of none none)
no_slot slot c e h =
    let there : false ≡ true = ap (λ (x : Slot). is_there x.request) (sym h) ∙ ap is_there e in
    absurd (ground (arith, there))

pub slot_eq :
    (s : Server) (n : ℕ) (c : Option Conn)
    → (s.slots n).request ≡ c
    → s.slots n ≡ slot_of c (s.slots n).timer
slot_eq s n c e = ap (λ d. slot_of d (s.slots n).timer) e

pub Good-request :
    (s : Server) (n : ℕ) (c : Option Conn)
    → Inv s
    → (s.slots n).request ≡ c
    → Good n c (s.slots n).timer
Good-request s n c i e = subst (λ d. Good n d (s.slots n).timer) e (i.good n)

pub Good-slot :
    (n : ℕ) (slot : Slot) (c : Option Conn) (m : Option MyTimer)
    → slot ≡ slot_of c m
    → Good n c m
    → Good n slot.request slot.timer
Good-slot n slot c m e h = subst (λ (x : Slot). Good n x.request x.timer) (sym e) h

-- A request whose timer runs is deleted, and nothing else is harmed.
pub delete_request-Inv :
    (s : Server) (n : ℕ) (c : Conn)
    → Inv s
    → (s.slots n).request ≡ some c
    → is_there c.timer ≡ true
    → (u : Server) × (delete_request n s ≡ some u) × Touches n s u × Inv u
delete_request-Inv s n c i e runs =
    let m = (s.slots n).timer in
    let (u, done, touches, (l, slot, good, kept)) =
      delete_request-Becomes s n c m (slot_eq s n (some c) e) (Good-request s n (some c) i e) in
    (
      u,
      done,
      touches,
      Touches-Inv s u n touches i (no_slot (s.slots n) c e)
          (Good-slot n (u.slots n) none l slot good)
          (Touches-queued s u n touches i
            (λ h. ap (λ (x : Slot). is_there x.timer) slot ∙ kept ∙ h))
          (λ h.
            let no : not (is_there c.timer) ≡ true = ap is_separate (sym e) ∙ h in
            absurd (ground (arith, no, runs))),
    )

-- A request is separated from its timer, and nothing else is harmed.
pub separate_timer-Inv :
    (s : Server) (n : ℕ) (c : Conn)
    → Inv s
    → (s.slots n).request ≡ some c
    → (u : Server) × (separate_timer n s ≡ some u)
      × Touches n s u
      × Inv u
      × (is_separate (u.slots n).request ≡ true)
separate_timer-Inv s n c i e =
    let m = (s.slots n).timer in
    let (u, done, touches, (l, slot, good, kept)) =
      separate_timer-Becomes s n c m (slot_eq s n (some c) e) (Good-request s n (some c) i e) in
    let separate : is_separate (u.slots n).request ≡ true =
      ap (λ (x : Slot). is_separate x.request) slot in
    (
      u,
      done,
      touches,
      Touches-Inv s u n touches i (no_slot (s.slots n) c e)
          (Good-slot n (u.slots n) (some (record c { timer = none })) l slot good)
          (Touches-queued s u n touches i
            (λ h. ap (λ (x : Slot). is_there x.timer) slot ∙ kept ∙ h))
          (λ h. separate),
      separate,
    )

pub add_task-Inv :
    (e : Event) (s : Server)
    → Inv s
    → is_separate (s.slots e.request).request ≡ true
    → Inv (add_task e s)
unfolding add_task
add_task-Inv e s i here = elim (Bool-cases e.added) [
  | inl taken ↦ rw taken (record {
    good = i.good;
    unused = i.unused;
    queued = i.queued;
    separate = AllSeparate-append s.slots e.request s.tasks i.separate here;
  })
  | inr refused ↦ rw refused i
]

pub add_task-IsArmed : (e : Event) (s : Server) (k : ℕ) → IsArmed s k → IsArmed (add_task e s) k
unfolding add_task
add_task-IsArmed e s k h = elim (Bool-cases e.added) [
  | inl taken ↦ rw taken h
  | inr refused ↦ rw refused h
]
