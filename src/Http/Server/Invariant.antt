-- ===== src/Http/Server/Invariant.antt =====
-- What holds of the slots, the queue and the pool between the steps of the main program, and that a step
-- on one slot keeps it.
use so_l.Common.{
  ℕ, ◌≤◌, ◌≡◌, sym, ap, subst, ◌∙◌, inl, inr, Bool, true, false, ◌==◌, Bool-cases, none, List, [],
  ◌∷◌, ◌++◌, ltb, arith,
}
use so_l.Http.Server.{Slot, Server, push, expired_time_of}
use so_l.Http.Server.Slots.{Good, Touches, is_there, is_separate, slot_of}

abbrev pub NotIn : ℕ → List ℕ → Type 0
NotIn t [] = Unit
NotIn t (u ∷ us) = ((u == t) ≡ false) × NotIn t us

-- Every timer of the queue is there, and there once.
abbrev pub AllQueued : (ℕ → Slot) → List ℕ → Type 0
AllQueued slots [] = Unit
AllQueued slots (t ∷ ts) = (is_there (slots t).timer ≡ true) × NotIn t ts × AllQueued slots ts

-- Every request of the pool is there, and points to no timer.
abbrev pub AllSeparate : (ℕ → Slot) → List ℕ → Type 0
AllSeparate slots [] = Unit
AllSeparate slots (n ∷ ns) = (is_separate (slots n).request ≡ true) × AllSeparate slots ns

pub record Inv (s : Server) : Type 0 where
  pub good : (n : ℕ) → Good n (s.slots n).request (s.slots n).timer
  pub unused : (n : ℕ) → s.fresh ≤ n → s.slots n ≡ slot_of none none
  pub queued : AllQueued s.slots s.queue
  pub separate : AllSeparate s.slots s.tasks

==-eq : (a b : ℕ) → (a == b) ≡ true → a ≡ b
==-eq a b h = ground arith

-- Two tables of slots differ at one number.
abbrev pub Elsewhere : ℕ → (ℕ → Slot) → (ℕ → Slot) → Type 0
Elsewhere n f g = (k : ℕ) → (k == n) ≡ false → g k ≡ f k

-- What holds of every slot of a table still holds if it holds of the one that differs.
pub at_each :
    (P : ℕ → Slot → Type 0) (n : ℕ) (f g : ℕ → Slot)
    → Elsewhere n f g
    → ((k : ℕ) → P k (f k))
    → P n (g n)
    → (k : ℕ) → P k (g k)
at_each P n f g others all here k = elim (Bool-cases (k == n)) [
  | inl same ↦ subst (λ m. P m (g m)) (sym (==-eq k n same)) here
  | inr other ↦ subst (P k) (sym (others k other)) (all k)
]

-- A test that holds of one slot of a table, and that the one that differs keeps, holds of that slot still.
pub keeps_at :
    (test : Slot → Bool) (n : ℕ) (f g : ℕ → Slot)
    → Elsewhere n f g
    → (test (f n) ≡ true → test (g n) ≡ true)
    → (k : ℕ) → test (f k) ≡ true
    → test (g k) ≡ true
keeps_at test n f g others kept k =
    at_each (λ k slot. test (f k) ≡ true → test slot ≡ true) n f g others (λ k h. h) kept k

AllQueued-kept :
    (n : ℕ) (f g : ℕ → Slot) (ts : List ℕ)
    → Elsewhere n f g
    → (is_there (f n).timer ≡ true → is_there (g n).timer ≡ true)
    → AllQueued f ts
    → AllQueued g ts
AllQueued-kept n f g [] others kept q = tt
AllQueued-kept n f g (t ∷ ts) others kept (there, once, q) = (
  keeps_at (λ slot. is_there slot.timer) n f g others kept t there,
  once,
  AllQueued-kept n f g ts others kept q,
)

pub AllQueued-others :
    (n : ℕ) (f g : ℕ → Slot) (ts : List ℕ)
    → Elsewhere n f g
    → NotIn n ts
    → AllQueued f ts
    → AllQueued g ts
AllQueued-others n f g [] others out q = tt
AllQueued-others n f g (t ∷ ts) others (other, out) (there, once, q) = (
  ap (λ (x : Slot). is_there x.timer) (others t other) ∙ there,
  once,
  AllQueued-others n f g ts others out q,
)

pub AllSeparate-kept :
    (n : ℕ) (f g : ℕ → Slot) (ns : List ℕ)
    → Elsewhere n f g
    → (is_separate (f n).request ≡ true → is_separate (g n).request ≡ true)
    → AllSeparate f ns
    → AllSeparate g ns
AllSeparate-kept n f g [] others kept q = tt
AllSeparate-kept n f g (m ∷ ms) others kept (here, q) = (
  keeps_at (λ slot. is_separate slot.request) n f g others kept m here,
  AllSeparate-kept n f g ms others kept q,
)

pub AllSeparate-append :
    (f : ℕ → Slot) (n : ℕ) (ns : List ℕ)
    → AllSeparate f ns
    → is_separate (f n).request ≡ true
    → AllSeparate f (ns ++ (n ∷ []))
AllSeparate-append f n [] q here = (here, tt)
AllSeparate-append f n (m ∷ ms) (first, q) here = (first, AllSeparate-append f n ms q here)

-- A timer that is not there is not in the queue.
pub AllQueued-NotIn :
    (f : ℕ → Slot) (n : ℕ) (ts : List ℕ)
    → is_there (f n).timer ≡ false
    → AllQueued f ts
    → NotIn n ts
AllQueued-NotIn f n [] gone q = tt
AllQueued-NotIn f n (t ∷ ts) gone (there, once, q) = (apart, AllQueued-NotIn f n ts gone q)
  where
    apart : (t == n) ≡ false
    apart = elim (Bool-cases (t == n)) [
      | inl same ↦
          let same_there : is_there (f n).timer ≡ true =
            subst (λ k. is_there (f k).timer ≡ true) (==-eq t n same) there in
          absurd (ground (arith, gone, same_there))
      | inr other ↦ other
    ]

==_sym : (a b : ℕ) → (a == b) ≡ false → (b == a) ≡ false
==_sym a b h = ground arith

NotIn-push :
    (slots : ℕ → Slot) (t u : ℕ) (us : List ℕ)
    → (t == u) ≡ false
    → NotIn u us
    → NotIn u (push slots t us)
unfolding push
NotIn-push slots t u [] other out = (other, tt)
NotIn-push slots t u (v ∷ us) other (here, out) =
    elim (Bool-cases (ltb (expired_time_of (slots t).timer) (expired_time_of (slots v).timer))) [
      | inl first ↦ rw first (other, (here, out))
      | inr later ↦ rw later (here, NotIn-push slots t u us other out)
    ]

pub AllQueued-push :
    (slots : ℕ → Slot) (t : ℕ) (us : List ℕ)
    → is_there (slots t).timer ≡ true
    → NotIn t us
    → AllQueued slots us
    → AllQueued slots (push slots t us)
unfolding push
AllQueued-push slots t [] there out q = (there, tt, tt)
AllQueued-push slots t (u ∷ us) there (other, out) (here, once, q) =
    elim (Bool-cases (ltb (expired_time_of (slots t).timer) (expired_time_of (slots u).timer))) [
      | inl first ↦ rw first (there, (other, out), (here, once, q))
      | inr later ↦ rw later (
        here,
        NotIn-push slots t u us (==_sym u t other) once,
        AllQueued-push slots t us there out q,
      )
    ]

-- What is there has a number in use.
pub in_use : (s : Server) (n : ℕ) → Inv s → ¬ (s.slots n ≡ slot_of none none) → ¬ (s.fresh ≤ n)
in_use s n i here h = here (i.unused n h)

-- A step on the slot of a number in use, which leaves a timer where there was one, and a request without
-- one where there was such a one.
pub Touches-Inv :
    (s u : Server) (n : ℕ)
    → Touches n s u
    → Inv s
    → ¬ (s.slots n ≡ slot_of none none)
    → Good n (u.slots n).request (u.slots n).timer
    → AllQueued u.slots s.queue
    → (is_separate (s.slots n).request ≡ true → is_separate (u.slots n).request ≡ true)
    → Inv u
Touches-Inv s u n t i here good queued kept = record {
  good = at_each (λ k slot. Good k slot.request slot.timer) n s.slots u.slots t.others i.good good;
  unused = λ k h.
      at_each (λ k slot. s.fresh ≤ k → slot ≡ slot_of none none) n s.slots u.slots t.others i.unused
        (λ h. absurd (in_use s n i here h)) k (subst (λ m. m ≤ k) t.same_fresh h);
  queued = subst (AllQueued u.slots) (sym t.same_queue) queued;
  separate =
      subst (AllSeparate u.slots) (sym t.same_tasks)
        (AllSeparate-kept n s.slots u.slots s.tasks t.others kept i.separate);
}

pub Touches-queued :
    (s u : Server) (n : ℕ)
    → Touches n s u
    → Inv s
    → (is_there (s.slots n).timer ≡ true → is_there (u.slots n).timer ≡ true)
    → AllQueued u.slots s.queue
Touches-queued s u n t i kept = AllQueued-kept n s.slots u.slots s.queue t.others kept i.queued
