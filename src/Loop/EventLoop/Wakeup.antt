-- ===== src/Loop/EventLoop/Wakeup.antt =====
-- When the loop leaves `epoll_wait` for a functor, and when it does not.
use so_l.Common.{
  length-append, ℕ, zero, suc, ◌+◌, ◌≡◌, refl, sym, ◌∙◌, true, false, none, some, List, [], ◌∷◌,
  ◌++◌, append-nil, append_assoc, arith, length,
}
use so_l.Loop.EventLoop.{
  polling, calling, EventLoop, Action, push, notify, poll, enter, swap, call, leave, queue_push,
  queue_notify, poll_step, enter_step, swap_step, call_step, leave_step, step, run,
}

-- The steps of the looping thread from `epoll_wait` to `epoll_wait`, for so many functors.
abbrev calls : ℕ → List Action
calls zero = leave ∷ []
calls (suc n) = call ∷ calls n

abbrev pub round : ℕ → List Action
round n = poll false ∷ enter ∷ swap ∷ calls n

run-calls :
    (s : EventLoop) (fs : List ℕ)
    → s.phase ≡ calling
    → s.functors ≡ fs
    → run s (calls (length fs))
      ≡ some (record s {
        phase = polling;
        calling_pending_functors = false;
        functors = [];
        executed = s.executed ++ fs;
      })
unfolding run step call_step leave_step
run-calls s [] p h = rw (p, h, append-nil)
run-calls s (f ∷ fs) p h =
    rw (p, h)
      (run-calls (record s { phase = calling; functors = fs; executed = s.executed ++ (f ∷ []) }) fs
          refl refl
        ∙ rw (append_assoc s.executed (f ∷ []) fs))

-- The loop behind the swap, after a functor has woken it.
abbrev woken : EventLoop → ℕ → EventLoop
woken s f = record s {
  phase = calling;
  calling_pending_functors = true;
  pending_functors = [];
  functors = s.pending_functors ++ (f ∷ []);
  wakeup_count = 0;
}

run-wakeup :
    (s : EventLoop) (f : ℕ) (rest : List Action)
    → s.phase ≡ polling
    → s.calling_pending_functors ≡ false
    → s.functors ≡ []
    → run s (push f ∷ notify ∷ poll false ∷ enter ∷ swap ∷ rest) ≡ run (woken s f) rest
unfolding run step queue_push queue_notify poll_step enter_step swap_step
run-wakeup s f rest p c h = rw (p, c, h) (ground arith)

-- A functor that is queued while the loop waits in `epoll_wait`, with the queueing done, wakes it:
-- with no other event, the loop runs all pending functors, that one last, and waits again with
-- nothing pending.
pub queue_while_polling :
    (s : EventLoop) (f : ℕ)
    → s.phase ≡ polling
    → s.calling_pending_functors ≡ false
    → s.functors ≡ []
    → run s (push f ∷ notify ∷ round (length s.pending_functors + 1))
      ≡ some (record s {
        pending_functors = [];
        wakeup_count = 0;
        executed = s.executed ++ (s.pending_functors ++ (f ∷ []));
      })
queue_while_polling s f p c h =
    let fs : List ℕ = s.pending_functors ++ (f ∷ []) in
    let n : length s.pending_functors + 1 ≡ length fs =
      sym (length-append s.pending_functors (f ∷ [])) in
    rw n
      (run-wakeup s f (calls (length fs)) p c h ∙ run-calls (woken s f) fs refl refl ∙ rw (p, c, h))

-- A functor that is queued while the loop runs the last functors, with no wakeup on its way, stays
-- behind: the loop goes back to `epoll_wait` with the functor pending, and does not leave it until
-- another event or the end of the wait, ten seconds later.
pub queue_while_calling :
    (s : EventLoop) (f : ℕ)
    → s.phase ≡ calling
    → s.calling_pending_functors ≡ true
    → s.functors ≡ []
    → s.wakeup_count ≡ 0
    → (t : EventLoop) × (run s (push f ∷ notify ∷ leave ∷ []) ≡ some t)
      × (t.phase ≡ polling)
      × (t.pending_functors ≡ s.pending_functors ++ (f ∷ []))
      × (t.executed ≡ s.executed)
      × (step t (poll false) ≡ none)
unfolding run step queue_push queue_notify leave_step poll_step
queue_while_calling s f p c h w = (
  record s {
    phase = polling;
    calling_pending_functors = false;
    pending_functors = s.pending_functors ++ (f ∷ []);
  },
  ground arith,
  refl,
  refl,
  refl,
  ground arith,
)
