-- ===== src/Loop/EventLoop/Fairness.antt =====
-- Every functor runs once, in the order of queueing.
use so_l.Common.{
  subst, Option-cases, ℕ, ◌≡◌, refl, sym, ap, ◌∙◌, Bool, true, false, none, some, List, [], ◌∷◌,
  ◌++◌, append-nil, append_assoc, arith, ◌⊎◌, inl, inr,
}
use mathlib.Core.Option.{some-injective}
use so_l.Loop.EventLoop.{
  Phase, entered, calling, EventLoop, init, Action, push, swap, call, queue_push, queue_notify,
  poll_step, enter_step, swap_step, call_step, leave_step, step, run,
}

-- The functors that were queued, oldest first.
abbrev pub queued : List Action → List ℕ
queued [] = []
queued (push f ∷ actions) = f ∷ queued actions
queued (_ ∷ actions) = queued actions

-- All that was ever queued.
pub history : EventLoop → List ℕ
history s = s.executed ++ (s.functors ++ s.pending_functors)

-- Between `callingPendingFunctors_ = true` and `= false`.
abbrev pub in_functors : Phase → Bool
in_functors entered = true
in_functors calling = true
in_functors _ = false

-- The local vector is empty but between the swap and the end of `doPendingFunctors`.
pub record Inv (s : EventLoop) : Type 0 where
  pub flag : s.calling_pending_functors ≡ in_functors s.phase
  pub outside : (s.phase ≡ calling) ⊎ (s.functors ≡ [])

abbrev pub queued_by : Action → List ℕ
queued_by (push f) = f ∷ []
queued_by _ = []

step-Inv : (s t : EventLoop) (a : Action) → Inv s → step s a ≡ some t → Inv t
unfolding step queue_push queue_notify poll_step enter_step swap_step call_step leave_step
step-Inv s t a v e = ground arith

call_history :
    (s t : EventLoop) (p : Phase) (fs : List ℕ)
    → s.functors ≡ fs
    → call_step s p fs ≡ some t
    → history t ≡ history s ++ []
unfolding call_step history
call_history s t calling (f ∷ fs) h e = ground (
  arith,
  append-nil (s.executed ++ (s.functors ++ s.pending_functors)),
  append_assoc s.executed (f ∷ []) (fs ++ s.pending_functors),
)
call_history s t calling [] h e = cc
call_history s t _ fs h e = cc

history-step :
    (s t : EventLoop) (a : Action)
    → Inv s
    → step s a ≡ some t
    → history t ≡ history s ++ queued_by a
unfolding step queue_push queue_notify poll_step enter_step swap_step call_step leave_step history
history-step s t (push f) v e = ground (
  arith,
  append_assoc s.executed (s.functors ++ s.pending_functors) (f ∷ []),
  append_assoc s.functors s.pending_functors (f ∷ []),
)
history-step s t swap v e = ground (
  arith,
  append-nil s.pending_functors,
  append-nil (s.executed ++ (s.functors ++ s.pending_functors)),
)
history-step s t call v e = call_history s t s.phase s.functors refl e
history-step s t _ v e = ground (arith, append-nil (history s))

queued-cons :
    (a : Action) (actions : List Action) → queued (a ∷ actions) ≡ queued_by a ++ queued actions
queued-cons (push f) actions = refl
queued-cons _ actions = refl

history-run :
    (s : EventLoop) (actions : List Action) (t : EventLoop)
    → Inv s
    → run s actions ≡ some t
    → Inv t × (history t ≡ history s ++ queued actions)
unfolding run
history-run s [] t v e =
    subst (λ (u : EventLoop). Inv u × (history u ≡ history s ++ [])) (some-injective _ _ e)
      (v, sym (append-nil (history s)))
history-run s (a ∷ actions) t v e = elim (Option-cases (step s a)) [
  | inl stuck ↦ let none_left : none ≡ some t = rw stuck at e in cc
  | inr (u, made) ↦
      let later : run u actions ≡ some t = rw made at e in
      let (w, h) = history-run u actions t (step-Inv s u a v made) later in
      (
        w,
        h
            ∙ ap (λ (l : List ℕ). l ++ queued actions) (history-step s u a v made)
            ∙ append_assoc (history s) (queued_by a) (queued actions)
            ∙ ap (◌++◌ (history s)) (sym (queued-cons a actions)),
      )
]

init-Inv : Inv init
unfolding init
init-Inv = record { flag = refl; outside = inr refl }

-- After any run of the loop, whatever the interleaving of the threads that queue, the functors that
-- have run, followed by those being run and those still pending, are the functors that were queued,
-- in the order of queueing: none is lost, doubled or overtaken. The flag is set just while
-- `doPendingFunctors` runs, and the local vector is empty outside of it.
pub history-run-init :
    (actions : List Action) (t : EventLoop)
    → run init actions ≡ some t
    → Inv t × (t.executed ++ (t.functors ++ t.pending_functors) ≡ queued actions)
unfolding history init
history-run-init actions t e = history-run init actions t init-Inv e
