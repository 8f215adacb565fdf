-- ===== src/Http/Server/Expiry.antt =====
-- Handling expired timers: no request or timer is used or deleted after it was deleted.
use so_l.Common.{
  ℕ, ◌≡◌, inl, inr, refl, sym, ap, subst, ◌∙◌, true, false, ltb, Bool-cases, Option, none, some,
  Option-cases, Ensures, List, [], ◌∷◌, ◌>>=◌, arith,
}
use so_l.Http.Server.{
  Conn, MyTimer, Slot, Server, put_timer, delete_timer, goes, expire_top, expire,
  handle_expired_event,
}
use so_l.Http.Server.Slots.{
  Good, Touches, is_there, is_separate, slot_of, delete_timer-Becomes, put_timer-slot,
  Touches-put_timer, Touches-refl,
}
use so_l.Http.Server.Invariant.{AllQueued, Inv, AllQueued-others, Touches-Inv}
use so_l.Http.Server.Armed.{Good-slot}

goes-request : (now : ℕ) (m : MyTimer) → (goes now m).1.request_data ≡ m.request_data
unfolding goes
goes-request now m = elim (Bool-cases m.deleted) [
  | inl gone ↦ rw gone refl
  | inr stays ↦ elim (Bool-cases (ltb now m.expired_time)) [
    | inl runs ↦ rw (stays, runs) refl
    | inr late ↦ rw (stays, late) refl
  ]
]

Good-timer :
    (n : ℕ) (c : Option Conn) (m l : MyTimer)
    → l.request_data ≡ m.request_data
    → Good n c (some m)
    → Good n c (some l)
Good-timer n none m l e h = e ∙ h
Good-timer n (some c) m l e (inl (h, k)) = inl (h, e ∙ k)
Good-timer n (some c) m l e (inr (h, k)) = inr (h, e ∙ k)

Touches-trans : (n : ℕ) (s u v : Server) → Touches n s u → Touches n u v → Touches n s v
Touches-trans n s u v t r = record {
  others = λ k h. r.others k h ∙ t.others k h;
  same_fresh = r.same_fresh ∙ t.same_fresh;
  same_queue = r.same_queue ∙ t.same_queue;
  same_tasks = r.same_tasks ∙ t.same_tasks;
  same_listener = r.same_listener ∙ t.same_listener;
}

no_timer : (slot : Slot) (m : MyTimer) → slot.timer ≡ some m → ¬ (slot ≡ slot_of none none)
no_timer slot m e h =
    let there : false ≡ true = ap (λ (x : Slot). is_there x.timer) (sym h) ∙ ap is_there e in
    absurd (ground (arith, there))

-- The top of the queue is taken off and deleted, with its request, if it has one still.
delete_top-Inv :
    (now t : ℕ) (ts : List ℕ) (s : Server) (m : MyTimer)
    → Inv s
    → s.queue ≡ t ∷ ts
    → (s.slots t).timer ≡ some m
    → (u : Server) × (delete_timer t (put_timer t (some (goes now m).1) (record s { queue = ts }))
        ≡ some u)
      × (u.queue ≡ ts)
      × Inv u
delete_top-Inv now t ts s m i q e =
    let l = (goes now m).1 in
    let c = (s.slots t).request in
    let popped : Server = record s { queue = ts } in
    let marked : Server = put_timer t (some l) popped in
    let (there, once, rest) : AllQueued s.slots (t ∷ ts) = subst (AllQueued s.slots) q i.queued in
    let kept : Inv popped = record {
      good = i.good;
      unused = i.unused;
      queued = rest;
      separate = i.separate;
    } in
    let slot_here = put_timer-slot t c (some m) (some l) popped (ap (λ k. slot_of c k) e) in
    let good_here =
      Good-timer t c m l (goes-request now m) (subst (λ k. Good t c k) e (i.good t)) in
    let (u, done, touches, (d, slot, good, separate)) =
      delete_timer-Becomes marked t c l slot_here good_here in
    let from_popped =
      Touches-trans t popped marked u
        (Touches-put_timer t (some l) popped popped (Touches-refl t popped)) touches in
    (
      u,
      done,
      from_popped.same_queue,
      Touches-Inv popped u t from_popped kept (no_timer (s.slots t) m e)
          (Good-slot t (u.slots t) d none slot good)
          (AllQueued-others t s.slots u.slots ts from_popped.others once rest)
          (λ h. ap (λ (x : Slot). is_separate x.request) slot ∙ separate h),
    )

queued_there :
    (s : Server) (t : ℕ) (ts : List ℕ)
    → Inv s
    → s.queue ≡ t ∷ ts
    → (m : MyTimer) × ((s.slots t).timer ≡ some m)
queued_there s t ts i q = elim (Option-cases (s.slots t).timer) [
  | inl gone ↦
      let (there, once, rest) : AllQueued s.slots (t ∷ ts) = subst (AllQueued s.slots) q i.queued in
      let no : false ≡ true = ap is_there (sym gone) ∙ there in absurd (ground (arith, no))
  | inr found ↦ found
]

-- The top of the queue, if there is one, is neither deleted nor past its time.
abbrev pub IsSettled : ℕ → (ℕ → Slot) → List ℕ → Type 0
IsSettled now slots [] = Unit
IsSettled now slots (t ∷ ts) =
    Ensures (λ m. (m.deleted ≡ false) × (ltb now m.expired_time ≡ true)) (slots t).timer

abbrev pub Settles : ℕ → Option Server → Type 0
Settles now result = (u : Server) × (result ≡ some u) × Inv u × IsSettled now u.slots u.queue

goes-late :
    (now : ℕ) (m : MyTimer)
    → m.deleted ≡ false
    → ltb now m.expired_time ≡ false
    → (goes now m).0 ≡ true
unfolding goes
goes-late now m stays late = rw (stays, late) refl

goes-gone : (now : ℕ) (m : MyTimer) → m.deleted ≡ true → (goes now m).0 ≡ true
unfolding goes
goes-gone now m gone = rw gone refl

goes-stays :
    (now : ℕ) (m : MyTimer)
    → (goes now m).0 ≡ false
    → (m.deleted ≡ false) × (ltb now m.expired_time ≡ true)
goes-stays now m h = elim (Bool-cases m.deleted) [
  | inl gone ↦ absurd (ground (arith, h, goes-gone now m gone))
  | inr stays ↦ elim (Bool-cases (ltb now m.expired_time)) [
    | inl runs ↦ (stays, runs)
    | inr late ↦ absurd (ground (arith, h, goes-late now m stays late))
  ]
]

expire_top-Inv :
    (now t : ℕ) (ts : List ℕ) (s : Server) (m : MyTimer) (next : Server → Option Server)
    → Inv s
    → s.queue ≡ t ∷ ts
    → (s.slots t).timer ≡ some m
    → ((u : Server) → Inv u → u.queue ≡ ts → Settles now (next u))
    → Settles now (expire_top (some m) now t ts next s)
unfolding expire_top
expire_top-Inv now t ts s m next i q e continue = elim (Bool-cases (goes now m).0) [
  | inl away ↦
      let (u, done, queue, inv) = delete_top-Inv now t ts s m i q e in
      let (v, rest, end, settled) = continue u inv queue in
      rw away (v, ap (λ r. r >>= next) done ∙ rest, end, settled)
  | inr stays ↦
      let runs : IsSettled now s.slots (t ∷ ts) =
        subst (Ensures (λ m. (m.deleted ≡ false) × (ltb now m.expired_time ≡ true))) (sym e)
          (goes-stays now m stays) in
      rw stays (s, refl, i, subst (IsSettled now s.slots) (sym q) runs)
]

expire-Inv :
    (now : ℕ) (ts : List ℕ) (s : Server) → Inv s → s.queue ≡ ts → Settles now (expire now ts s)
unfolding expire
expire-Inv now [] s i q = (s, refl, i, subst (IsSettled now s.slots) (sym q) tt)
expire-Inv now (t ∷ ts) s i q =
    let (m, e) = queued_there s t ts i q in
    subst (λ k. Settles now (expire_top k now t ts (λ u. expire now ts u) s)) (sym e)
      (expire_top-Inv now t ts s m (λ u. expire now ts u) i q e (λ u. expire-Inv now ts u))

-- In a state as the server's runs give it, handle_expired_event returns, uses or deletes nothing that was
-- deleted, leaves a state of that kind, and the top of the queue is then neither deleted nor past its time.
pub handle_expired_event-Settles :
    (now : ℕ) (s : Server) → Inv s → Settles now (handle_expired_event now s)
unfolding handle_expired_event
handle_expired_event-Settles now s i = expire-Inv now s.queue s i refl
