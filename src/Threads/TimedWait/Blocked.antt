-- ===== src/Threads/TimedWait/Blocked.antt =====
-- The consumer's wait with a time limit stops all threads of the log, and is the only thing that does.
use so_l.Common.{
  ℕ, ◌≡◌, ◌⊎◌, inl, inr, refl, sym, ap, subst, ◌∙◌, Bool, true, false, if◌then◌else◌, Bool-cases,
  Option, none, some, Option-cases, List, [], ◌∷◌, ◌>>=◌, Ensures, >>=-Ensures, arith,
}
use so_l.Logging.Async.{init, is_empty, collect, drain}
use so_l.Logging.Async.Buffers.{Inv, init-Inv, append-Inv}
use so_l.Logging.Async.Rounds.{append_written, collect-Full, drain-Empty}
use so_l.Threads.{MutexLock, lock}
use so_l.Threads.TimedWait.{
  Consumer, outside, testing, locking, timing, returned, writing, Shared, start, Action, produce,
  consume, produce_line, finish, consume_at, act, run,
}

-- Who has the mutex, and whether the consumer has nothing to write, by where it is.
abbrev mutex_at : ℕ → Consumer → MutexLock
mutex_at i testing = some i
mutex_at i locking = some i
mutex_at i outside = none
mutex_at i timing = none
mutex_at i returned = none
mutex_at i writing = none

abbrev has_written : Consumer → Bool
has_written writing = false
has_written c = true

record Held (s : Shared) : Type 0 where
  system : Inv s.system
  mutex : s.mutex ≡ mutex_at s.thread s.consumer
  written : is_empty s.system.buffers_to_write ≡ has_written s.consumer

lock-Ensures :
    (P : Shared → Type 0) (i : ℕ) (m : MutexLock) (f : MutexLock → Option Shared)
    → m ≡ none
    → Ensures P (f (some i))
    → Ensures P (lock i m >>= f)
unfolding lock
lock-Ensures P i m f free h = subst (λ m. Ensures P (lock i m >>= f)) (sym free) h

lock-none :
    (i j : ℕ) (m : MutexLock) (f : MutexLock → Option Shared) → m ≡ some j → (lock i m >>= f) ≡ none
unfolding lock
lock-none i j m f taken = ap (λ m. lock i m >>= f) taken

start-Held : (size : ℕ) (sync : Bool) (i : ℕ) → Held (start size sync i)
unfolding start init
start-Held size sync i = record { system = init-Inv size sync; mutex = refl; written = refl }

-- A line may be appended just while no thread has the mutex.
produce_line-Held :
    (i : ℕ) (l : List ℕ) (s t : Shared) → Held s → produce_line i l s ≡ some t → Held t
unfolding produce_line
produce_line-Held i l s t v e = elim (Option-cases s.mutex) [
  | inl free ↦ subst (Ensures Held) e (
      lock-Ensures Held i s.mutex _ free (record {
        system = append-Inv s.system l v.system;
        mutex = v.mutex;
        written = ap is_empty (append_written s.system l) ∙ v.written;
      }))
  | inr (j, taken) ↦
      let no : none ≡ some t = sym (lock-none i j s.mutex _ taken) ∙ e in
      absurd (ground (arith, no))
]

module _ (report : ℕ → List ℕ) where
  finish-Held :
      (s : Shared)
      → Inv s.system
      → is_empty s.system.buffers_to_write ≡ true
      → Ensures Held (finish s)
  finish-Held s v e =
      >>=-Ensures _ Held (collect s.system) _ (collect-Full report s.system v e)
        λ taken _ full. record { system = full.0; mutex = refl; written = full.1 }

  test-Held :
      (s : Shared)
      → Held s
      → s.consumer ≡ testing
      → Ensures Held
          (if is_empty s.system.buffers then some (record s { consumer = locking }) else finish s)
  test-Held s v at = elim (Bool-cases (is_empty s.system.buffers)) [
    | inl empty ↦ rw empty (record {
      system = v.system;
      mutex = v.mutex ∙ ap (mutex_at s.thread) at;
      written = v.written ∙ ap has_written at;
    })
    | inr full ↦ rw full (finish-Held s v.system (v.written ∙ ap has_written at))
  ]

  -- The consumer goes on, but where it locks the mutex again.
  consume_at-Held :
      (c : Consumer) (s : Shared)
      → Held s
      → s.consumer ≡ c
      → (s.consumer ≡ locking) ⊎ Ensures Held (consume_at report c s)
  unfolding consume_at
  consume_at-Held outside s v at = inr (
      lock-Ensures Held s.thread s.mutex _ (v.mutex ∙ ap (mutex_at s.thread) at)
        (record { system = v.system; mutex = refl; written = v.written ∙ ap has_written at }))
  consume_at-Held testing s v at = inr (test-Held s v at)
  consume_at-Held locking s v at = inl at
  consume_at-Held timing s v at = inr (
      lock-Ensures Held s.thread s.mutex _ (v.mutex ∙ ap (mutex_at s.thread) at)
        (record { system = v.system; mutex = refl; written = v.written ∙ ap has_written at }))
  consume_at-Held returned s v at = inr (finish-Held s v.system (v.written ∙ ap has_written at))
  consume_at-Held writing s v at = inr (
      >>=-Ensures _ Held (drain report s.system) _
        (drain-Empty report s.system v.system (v.written ∙ ap has_written at))
        λ written _ empty. record {
          system = empty.0;
          mutex = v.mutex ∙ ap (mutex_at s.thread) at;
          written = empty.1;
        })

  -- No thread goes on.
  abbrev pub IsStopped : Shared → Type 0
  IsStopped s = (a : Action) → act report s a ≡ none

  locking-IsStopped : (s : Shared) → Held s → s.consumer ≡ locking → IsStopped s
  unfolding act produce_line consume_at
  locking-IsStopped s v at (produce i l) =
      lock-none i s.thread s.mutex _ (v.mutex ∙ ap (mutex_at s.thread) at)
  locking-IsStopped s v at consume =
      ap (λ c. consume_at report c s) at
      ∙ lock-none s.thread s.thread s.mutex _ (v.mutex ∙ ap (mutex_at s.thread) at)

  act-Held : (s t : Shared) (a : Action) → Held s → act report s a ≡ some t → Held t
  unfolding act
  act-Held s t (produce i l) v e = produce_line-Held i l s t v e
  act-Held s t consume v e = elim (consume_at-Held s.consumer s v refl) [
    | inl at ↦
        let no : none ≡ some t = sym (locking-IsStopped s v at consume) ∙ e in
        absurd (ground (arith, no))
    | inr held ↦ subst (Ensures Held) e held
  ]

  run-Held :
      (actions : List Action) (s t : Shared) → Held s → run report s actions ≡ some t → Held t
  unfolding run
  run-Held [] s t v e = subst (Ensures Held) e v
  run-Held (a ∷ actions) s t v e = elim (Option-cases (act report s a)) [
    | inl stuck ↦
        let no : none ≡ some t = sym (ap (λ r. r >>= λ u. run report u actions) stuck) ∙ e in
        absurd (ground (arith, no))
    | inr (u, goes) ↦
        run-Held actions u t (act-Held s u a v goes)
          (sym (ap (λ r. r >>= λ u. run report u actions) goes) ∙ e)
  ]

  -- In a run of producers and the consumer from the start, in any order: when the consumer has locked the
  -- mutex and finds no full buffer, its next step is possible, and after it no thread ever goes on, neither a
  -- producer, whatever its line, nor the consumer.
  pub wait_stops :
      (size : ℕ) (sync : Bool) (i : ℕ) (actions : List Action) (s : Shared)
      → run report (start size sync i) actions ≡ some s
      → s.consumer ≡ testing
      → s.system.buffers ≡ []
      → Ensures IsStopped (act report s consume)
  unfolding act consume_at
  wait_stops size sync i actions s ran at empty =
      let v = run-Held actions (start size sync i) s (start-Held size sync i) ran in
      let u : Shared = record s { consumer = locking } in
      let waits : some u ≡ act report s consume = sym (
        ap (λ c. consume_at report c s) at
        ∙ ap (λ b. if is_empty b then some u else finish s) empty) in
      let w : Held u = record {
        system = v.system;
        mutex = v.mutex ∙ ap (mutex_at s.thread) at;
        written = v.written ∙ ap has_written at;
      } in
      subst (Ensures IsStopped) waits (locking-IsStopped u w refl)

  -- In a run of producers and the consumer from the start, in any order: either the consumer is in the wait with
  -- a time limit, where its guard locks the mutex again, and no thread goes on; or the consumer goes on.
  pub stops_only_waiting :
      (size : ℕ) (sync : Bool) (i : ℕ) (actions : List Action) (s : Shared)
      → run report (start size sync i) actions ≡ some s
      → ((s.consumer ≡ locking) × IsStopped s) ⊎ ((t : Shared) × (act report s consume ≡ some t))
  unfolding act
  stops_only_waiting size sync i actions s ran =
      let v = run-Held actions (start size sync i) s (start-Held size sync i) ran in
      elim (consume_at-Held s.consumer s v refl) [
        | inl at ↦ inl (at, locking-IsStopped s v at)
        | inr held ↦ elim (Option-cases (consume_at report s.consumer s)) [
          | inl stuck ↦ absurd (subst (Ensures Held) stuck held)
          | inr goes ↦ inr goes
        ]
      ]
