-- ===== src/Threads/Latch/Progress.antt =====
-- When the count is down, every thread that waits gets through.
use so_l.Common.{
  ℕ, ◌≤◌, ◌≡◌, inl, inr, refl, sym, ap, subst, ◌∙◌, Bool, true, false, ◌==◌, Bool-cases, none, some,
  Option-cases, List, [], ◌∷◌, length, ◌>>=◌, arith,
}
use so_l.Common.Int.{ℤ, pos, ◌-ℤ◌, ltb_ℤ, eqb_ℤ}
use so_l.Common.Update.{move, ==-eq, ==_refl}
use so_l.Threads.{lock}
use so_l.Threads.Latch.{
  Pc, wait_begins, testing, asleep, woken, count_begins, counting, waited, counted, Latch,
  new_latch, wake, enter, leave, count_down, step_at, step, run,
}
use so_l.Threads.Latch.Invariant.{has_mutex, sleeps, Inv, down-stays}
use so_l.Threads.Latch.Wakeup.{begins, run-new_latch-Inv}

-- A thread in `wait`.
abbrev pub is_waiting : Pc → Bool
is_waiting wait_begins = true
is_waiting testing = true
is_waiting asleep = true
is_waiting woken = true
is_waiting p = false

-- A thread that has yet to lock.
abbrev outside : Pc → Bool
outside wait_begins = true
outside woken = true
outside p = false

move_self : (pc : ℕ → Pc) (i : ℕ) (p : Pc) → move pc i p i ≡ p
unfolding move
move_self pc i p = rw (==_refl i) refl

move_ne : (pc : ℕ → Pc) (i j : ℕ) (p : Pc) → (j == i) ≡ false → move pc i p j ≡ pc j
unfolding move
move_ne pc i j p h = rw h refl

abbrev pub Through : ℕ → Latch → Type 0
Through i s =
    (js : List ℕ) × (t : Latch) × (run js s ≡ some t) × (t.pc i ≡ waited) × (length js ≤ 3)

step-eq : (i : ℕ) (s : Latch) (p : Pc) → s.pc i ≡ p → step i s ≡ step_at p i s
unfolding step
step-eq i s p at = ap (λ q. step_at q i s) at

-- From the test, in one step.
test-passes :
    (i : ℕ) (s : Latch)
    → s.pc i ≡ testing
    → ltb_ℤ (pos 0) s.count ≡ false
    → run (i ∷ []) s ≡ some (leave i waited s)
unfolding run step_at
test-passes i s at down =
    let passes : step_at testing i s ≡ some (leave i waited s) = rw down refl in
    ap (λ r. r >>= λ t. some t) (step-eq i s testing at ∙ passes)

lock-passes :
    (i : ℕ) (s : Latch)
    → outside (s.pc i) ≡ true
    → s.mutex ≡ none
    → step i s ≡ some (record s { mutex = some i; pc = move s.pc i testing })
unfolding step
lock-passes i s out free = by_place (s.pc i) out
  where
    entered : Latch
    entered = record s { mutex = some i; pc = move s.pc i testing }

    goes : enter i testing s ≡ some entered
    goes = ap (λ m. lock i m >>= λ m. some (record s { mutex = m; pc = move s.pc i testing })) free

    by_place : (p : Pc) → outside p ≡ true → step_at p i s ≡ some entered
    by_place wait_begins h = goes
    by_place woken h = goes
    by_place testing h = absurd (ground (arith, h))
    by_place asleep h = absurd (ground (arith, h))
    by_place count_begins h = absurd (ground (arith, h))
    by_place counting h = absurd (ground (arith, h))
    by_place waited h = absurd (ground (arith, h))
    by_place counted h = absurd (ground (arith, h))

-- From outside, once the mutex is free, in two.
free-passes :
    (i : ℕ) (s : Latch)
    → outside (s.pc i) ≡ true
    → s.mutex ≡ none
    → ltb_ℤ (pos 0) s.count ≡ false
    → (t : Latch) × (run (i ∷ i ∷ []) s ≡ some t) × (t.pc i ≡ waited)
unfolding run
free-passes i s out free down =
    let u : Latch = record s { mutex = some i; pc = move s.pc i testing } in
    (
      leave i waited u,
      ap (λ r. r >>= λ t. run (i ∷ []) t) (lock-passes i s out free)
          ∙ test-passes i u (move_self s.pc i testing) down,
      move_self u.pc i waited,
    )

outside-wake : (p : Pc) → outside p ≡ true → outside (wake p) ≡ true
outside-wake wait_begins h = refl
outside-wake woken h = refl
outside-wake testing h = absurd (ground (arith, h))
outside-wake asleep h = absurd (ground (arith, h))
outside-wake count_begins h = absurd (ground (arith, h))
outside-wake counting h = absurd (ground (arith, h))
outside-wake waited h = absurd (ground (arith, h))
outside-wake counted h = absurd (ground (arith, h))

-- The thread within the mutex lets go of it in its next step, and the count is still down.
abbrev Frees : ℕ → ℕ → Latch → Type 0
Frees i j s =
    (u : Latch) × (step j s ≡ some u)
    × (u.mutex ≡ none)
    × (ltb_ℤ (pos 0) u.count ≡ false)
    × (outside (u.pc i) ≡ true)

owner-Frees :
    (i j : ℕ) (s : Latch) (p : Pc)
    → s.pc j ≡ p
    → has_mutex p ≡ true
    → (i == j) ≡ false
    → outside (s.pc i) ≡ true
    → ltb_ℤ (pos 0) s.count ≡ false
    → Frees i j s
unfolding step_at count_down
owner-Frees i j s testing at has other out down = (
  leave j waited s,
  step-eq j s testing at ∙ rw down refl,
  refl,
  down,
  ap outside (move_ne s.pc j i waited other) ∙ out,
)
owner-Frees i j s counting at has other out down =
    let u = leave j counted (count_down s) in
    (
      u,
      step-eq j s counting at,
      refl,
      down-stays s.count down,
      ap outside (move_ne (count_down s).pc j i counted other) ∙ still,
    )
  where
    still : outside ((count_down s).pc i) ≡ true
    still = elim (Bool-cases (eqb_ℤ (s.count -ℤ pos 1) (pos 0))) [
      | inl last ↦ rw last (outside-wake (s.pc i) out)
      | inr more ↦ rw more out
    ]
owner-Frees i j s wait_begins at has other out down = absurd (ground (arith, has))
owner-Frees i j s asleep at has other out down = absurd (ground (arith, has))
owner-Frees i j s woken at has other out down = absurd (ground (arith, has))
owner-Frees i j s count_begins at has other out down = absurd (ground (arith, has))
owner-Frees i j s waited at has other out down = absurd (ground (arith, has))
owner-Frees i j s counted at has other out down = absurd (ground (arith, has))

outside-Through :
    (i : ℕ) (s : Latch)
    → Inv s
    → outside (s.pc i) ≡ true
    → has_mutex (s.pc i) ≡ false
    → ltb_ℤ (pos 0) s.count ≡ false
    → Through i s
unfolding run
outside-Through i s v out not_in down = elim (Option-cases s.mutex) [
  | inl free ↦
      let (t, goes, at) = free-passes i s out free down in (i ∷ i ∷ [], t, goes, at, ground arith)
  | inr (j, taken) ↦
      let has = v.held j taken in
      let other : (i == j) ≡ false = elim (Bool-cases (i == j)) [
        | inl same ↦
            let also : has_mutex (s.pc i) ≡ true =
              subst (λ k. has_mutex (s.pc k) ≡ true) (sym (==-eq i j same)) has in
            absurd (ground (arith, also, not_in))
        | inr other ↦ other
      ] in
      let (u, frees, free, still, out_u) = owner-Frees i j s (s.pc j) refl has other out down in
      let (t, goes, at) = free-passes i u out_u free still in
      (j ∷ i ∷ i ∷ [], t, ap (λ r. r >>= λ t. run (i ∷ i ∷ []) t) frees ∙ goes, at, ground arith)
]

waiting-Through :
    (i : ℕ) (s : Latch) (p : Pc)
    → Inv s
    → s.pc i ≡ p
    → is_waiting p ≡ true
    → ltb_ℤ (pos 0) s.count ≡ false
    → Through i s
waiting-Through i s wait_begins v at w down =
    outside-Through i s v (ap outside at) (ap has_mutex at) down
waiting-Through i s woken v at w down = outside-Through i s v (ap outside at) (ap has_mutex at) down
waiting-Through i s testing v at w down =
    (i ∷ [], leave i waited s, test-passes i s at down, move_self s.pc i waited, ground arith)
waiting-Through i s asleep v at w down = absurd (ground (arith, v.awake i (ap sleeps at), down))
waiting-Through i s count_begins v at w down = absurd (ground (arith, w))
waiting-Through i s counting v at w down = absurd (ground (arith, w))
waiting-Through i s waited v at w down = absurd (ground (arith, w))
waiting-Through i s counted v at w down = absurd (ground (arith, w))

-- After any interleaving of threads that wait and threads that count down, with wakeups out of nowhere,
-- the count being down: for each thread that is in `wait`, some steps, three at most, let it
-- through.
pub wait_ends :
    (count : ℤ) (pc : ℕ → Pc) (is : List ℕ) (s : Latch) (i : ℕ)
    → ((j : ℕ) → begins (pc j) ≡ true)
    → run is (new_latch count pc) ≡ some s
    → ltb_ℤ (pos 0) s.count ≡ false
    → is_waiting (s.pc i) ≡ true
    → Through i s
wait_ends count pc is s i first ran down waits =
    waiting-Through i s (s.pc i) (run-new_latch-Inv count pc is s first ran) refl waits down
