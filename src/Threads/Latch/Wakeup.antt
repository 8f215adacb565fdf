-- ===== src/Threads/Latch/Wakeup.antt =====
-- No thread sleeps on when the count is down, and none is let through before.
use so_l.Common.{
  ℕ, ◌≡◌, inl, inr, refl, sym, ap, subst, ◌∙◌, Bool, true, false, if◌then◌else◌, Bool-cases, none,
  some, Option-cases, List, [], ◌∷◌, ◌>>=◌, arith,
}
use so_l.Common.Int.{ℤ, pos, ltb_ℤ}
use so_l.Common.Update.{move, moved}
use so_l.Threads.{lock}
use so_l.Threads.Latch.{
  Pc, wait_begins, testing, asleep, woken, count_begins, counting, waited, counted, Latch,
  new_latch, enter, leave, step_at, step, run,
}
use so_l.Threads.Latch.Invariant.{
  has_mutex, sleeps, has_waited, Inv, enter-Inv, leave-Inv, count_down-Inv,
}

enter-Ensures :
    (i : ℕ) (p : Pc) (s t : Latch)
    → Inv s
    → has_mutex p ≡ true
    → sleeps p ≡ false
    → has_waited p ≡ false
    → enter i p s ≡ some t
    → Inv t
unfolding lock
enter-Ensures i p s t v has awake new e = elim (Option-cases s.mutex) [
  | inl free ↦
      let entered : Latch = record s { mutex = some i; pc = move s.pc i p } in
      let same : some entered ≡ some t =
        sym (ap (λ m. lock i m >>= λ m. some (record s { mutex = m; pc = move s.pc i p })) free)
        ∙ e in
      subst Inv (cc) (enter-Inv i p s v free has awake new)
  | inr (j, taken) ↦
      let no : none ≡ some t =
        sym (ap (λ m. lock i m >>= λ m. some (record s { mutex = m; pc = move s.pc i p })) taken)
        ∙ e in
      absurd (ground (arith, no))
]

-- A thread that wakes by itself.
spurious-Inv :
    (i : ℕ) (s : Latch) → Inv s → s.pc i ≡ asleep → Inv (record s { pc = move s.pc i woken })
spurious-Inv i s v at = record {
  owned =
      moved (λ j q. has_mutex q ≡ true → s.mutex ≡ some j) s.pc i woken
        (λ h. absurd (ground (arith, h))) (λ j other h. v.owned j h);
  held =
      moved (λ j q. s.mutex ≡ some j → has_mutex q ≡ true) s.pc i woken
        (λ h. ap has_mutex (sym at) ∙ v.held i h) (λ j other h. v.held j h);
  awake =
      moved (λ j q. sleeps q ≡ true → ltb_ℤ (pos 0) s.count ≡ true) s.pc i woken
        (λ h. absurd (ground (arith, h))) (λ j other h. v.awake j h);
  passed =
      moved (λ j q. has_waited q ≡ true → ltb_ℤ (pos 0) s.count ≡ false) s.pc i woken
        (λ h. absurd (ground (arith, h))) (λ j other h. v.passed j h);
}

-- The test of the loop of `wait`.
test-Inv :
    (i : ℕ) (s : Latch)
    → Inv s
    → s.mutex ≡ some i
    → Inv (if ltb_ℤ (pos 0) s.count then leave i asleep s else leave i waited s)
test-Inv i s v mine = elim (Bool-cases (ltb_ℤ (pos 0) s.count)) [
  | inl up ↦ rw up (
      leave-Inv i asleep s s.count s.pc v mine (λ j. refl) refl (λ h. up) (λ j h. v.awake j h)
        (λ h. absurd (ground (arith, h))) (λ j h. v.passed j h))
  | inr down ↦ rw down (
      leave-Inv i waited s s.count s.pc v mine (λ j. refl) refl (λ h. absurd (ground (arith, h)))
        (λ j h. v.awake j h) (λ h. down) (λ j h. v.passed j h))
]

step_at-Inv : (p : Pc) (i : ℕ) (s t : Latch) → Inv s → s.pc i ≡ p → step_at p i s ≡ some t → Inv t
unfolding step_at
step_at-Inv wait_begins i s t v at e = enter-Ensures i testing s t v refl refl refl e
step_at-Inv testing i s t v at e = subst Inv (cc) (test-Inv i s v (v.owned i (ap has_mutex at)))
step_at-Inv asleep i s t v at e = subst Inv (cc) (spurious-Inv i s v at)
step_at-Inv woken i s t v at e = enter-Ensures i testing s t v refl refl refl e
step_at-Inv count_begins i s t v at e = enter-Ensures i counting s t v refl refl refl e
step_at-Inv counting i s t v at e =
    subst Inv (cc) (count_down-Inv i s v (v.owned i (ap has_mutex at)))
step_at-Inv waited i s t v at e = absurd (ground (arith, e))
step_at-Inv counted i s t v at e = absurd (ground (arith, e))

step-Inv : (i : ℕ) (s t : Latch) → Inv s → step i s ≡ some t → Inv t
unfolding step
step-Inv i s t v e = step_at-Inv (s.pc i) i s t v refl e

run-Inv : (is : List ℕ) (s t : Latch) → Inv s → run is s ≡ some t → Inv t
unfolding run
run-Inv [] s t v e = subst Inv (cc) v
run-Inv (i ∷ is) s t v e = elim (Option-cases (step i s)) [
  | inl stuck ↦
      let no : none ≡ some t = sym (ap (λ r. r >>= λ u. run is u) stuck) ∙ e in
      absurd (ground (arith, no))
  | inr (u, goes) ↦
      run-Inv is u t (step-Inv i s u v goes) (sym (ap (λ r. r >>= λ u. run is u) goes) ∙ e)
]

-- A thread at one of its first places.
abbrev pub begins : Pc → Bool
begins wait_begins = true
begins count_begins = true
begins p = false

new_latch-Inv :
    (count : ℤ) (pc : ℕ → Pc) → ((i : ℕ) → begins (pc i) ≡ true) → Inv (new_latch count pc)
unfolding new_latch
new_latch-Inv count pc first = record {
  owned = λ i h.
      by_place (pc i) (first i) (λ q. has_mutex q ≡ true → none ≡ some i)
        (λ h. absurd (ground (arith, h))) (λ h. absurd (ground (arith, h))) h;
  held = λ i h. absurd (ground (arith, h));
  awake = λ i h.
      by_place (pc i) (first i) (λ q. sleeps q ≡ true → ltb_ℤ (pos 0) count ≡ true)
        (λ h. absurd (ground (arith, h))) (λ h. absurd (ground (arith, h))) h;
  passed = λ i h.
      by_place (pc i) (first i) (λ q. has_waited q ≡ true → ltb_ℤ (pos 0) count ≡ false)
        (λ h. absurd (ground (arith, h))) (λ h. absurd (ground (arith, h))) h;
}
  where
    by_place : (p : Pc) → begins p ≡ true → (P : Pc → Type 0) → P wait_begins → P count_begins → P p
    by_place wait_begins h P a b = a
    by_place count_begins h P a b = b
    by_place testing h P a b = absurd (ground (arith, h))
    by_place asleep h P a b = absurd (ground (arith, h))
    by_place woken h P a b = absurd (ground (arith, h))
    by_place counting h P a b = absurd (ground (arith, h))
    by_place waited h P a b = absurd (ground (arith, h))
    by_place counted h P a b = absurd (ground (arith, h))

-- After any interleaving of threads that wait and threads that count down, with wakeups out of nowhere: the
-- mutex is with just the one thread that is within it; while a thread sleeps, the count is up; and once
-- a thread has waited, it is down.
pub run-new_latch-Inv :
    (count : ℤ) (pc : ℕ → Pc) (is : List ℕ) (s : Latch)
    → ((j : ℕ) → begins (pc j) ≡ true)
    → run is (new_latch count pc) ≡ some s
    → Inv s
run-new_latch-Inv count pc is s first ran =
    run-Inv is (new_latch count pc) s (new_latch-Inv count pc first) ran
