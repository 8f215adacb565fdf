-- ===== src/Threads/Latch/Invariant.antt =====
-- What holds of the mutex, the count and the threads of a latch, and that each part of a step keeps it.
use so_l.Common.{
  ℕ, ◌≡◌, inl, inr, refl, sym, ◌∙◌, Bool, true, false, ◌==◌, Bool-cases, none, some, arith,
}
use so_l.Common.Int.{ℤ, pos, ◌-ℤ◌, ltb_ℤ, eqb_ℤ}
use so_l.Common.Update.{move, moved}
use so_l.Threads.{MutexLock}
use so_l.Threads.Latch.{
  Pc, wait_begins, testing, asleep, woken, count_begins, counting, waited, counted, Latch, wake,
  leave, count_down,
}

-- A thread is within the mutex just in these two places.
abbrev pub has_mutex : Pc → Bool
has_mutex testing = true
has_mutex counting = true
has_mutex p = false

abbrev pub sleeps : Pc → Bool
sleeps asleep = true
sleeps p = false

abbrev pub has_waited : Pc → Bool
has_waited waited = true
has_waited p = false

-- The mutex is with the one thread within it; while any thread sleeps, the count is up; and once one has
-- waited, it is down.
pub record Inv (s : Latch) : Type 0 where
  pub owned : (i : ℕ) → has_mutex (s.pc i) ≡ true → s.mutex ≡ some i
  pub held : (i : ℕ) → s.mutex ≡ some i → has_mutex (s.pc i) ≡ true
  pub awake : (i : ℕ) → sleeps (s.pc i) ≡ true → ltb_ℤ (pos 0) s.count ≡ true
  pub passed : (i : ℕ) → has_waited (s.pc i) ≡ true → ltb_ℤ (pos 0) s.count ≡ false

some_ne : (i j : ℕ) → (j == i) ≡ false → ¬ (◌≡◌ {A = MutexLock} (some i) (some j))
some_ne i j h e = absurd (ground (arith, h, e))

-- A thread that locks.
pub enter-Inv :
    (i : ℕ) (p : Pc) (s : Latch)
    → Inv s
    → s.mutex ≡ none
    → has_mutex p ≡ true
    → sleeps p ≡ false
    → has_waited p ≡ false
    → Inv (record s { mutex = some i; pc = move s.pc i p })
enter-Inv i p s v free has awake new = record {
  owned =
      moved (λ j q. has_mutex q ≡ true → some i ≡ some j) s.pc i p (λ h. refl)
        (λ j other h.
          let no : none ≡ some j = sym free ∙ v.owned j h in absurd (ground (arith, no)));
  held =
      moved (λ j q. some i ≡ some j → has_mutex q ≡ true) s.pc i p (λ h. has)
        (λ j other h. absurd (some_ne i j other h));
  awake =
      moved (λ j q. sleeps q ≡ true → ltb_ℤ (pos 0) s.count ≡ true) s.pc i p
        (λ h. absurd (ground (arith, h, awake))) (λ j other h. v.awake j h);
  passed =
      moved (λ j q. has_waited q ≡ true → ltb_ℤ (pos 0) s.count ≡ false) s.pc i p
        (λ h. absurd (ground (arith, h, new))) (λ j other h. v.passed j h);
}

-- The thread within the mutex leaves it; `count` is the count by then, and `pc` where the others are.
pub leave-Inv :
    (i : ℕ) (p : Pc) (s : Latch) (count : ℤ) (pc : ℕ → Pc)
    → Inv s
    → s.mutex ≡ some i
    → ((j : ℕ) → has_mutex (pc j) ≡ has_mutex (s.pc j))
    → has_mutex p ≡ false
    → (sleeps p ≡ true → ltb_ℤ (pos 0) count ≡ true)
    → ((j : ℕ) → sleeps (pc j) ≡ true → ltb_ℤ (pos 0) count ≡ true)
    → (has_waited p ≡ true → ltb_ℤ (pos 0) count ≡ false)
    → ((j : ℕ) → has_waited (pc j) ≡ true → ltb_ℤ (pos 0) count ≡ false)
    → Inv (record { mutex = none; count = count; pc = move pc i p })
leave-Inv i p s count pc v mine same out here others now later = record {
  owned =
      moved (λ j q. has_mutex q ≡ true → none ≡ some j) pc i p
        (λ h. absurd (ground (arith, h, out)))
        (λ j other h. absurd (some_ne i j other (sym mine ∙ v.owned j (sym (same j) ∙ h))));
  held = λ j h. absurd (ground (arith, h));
  awake =
      moved (λ j q. sleeps q ≡ true → ltb_ℤ (pos 0) count ≡ true) pc i p here
        (λ j other h. others j h);
  passed =
      moved (λ j q. has_waited q ≡ true → ltb_ℤ (pos 0) count ≡ false) pc i p now
        (λ j other h. later j h);
}

pub has_mutex-wake : (p : Pc) → has_mutex (wake p) ≡ has_mutex p
has_mutex-wake asleep = refl
has_mutex-wake wait_begins = refl
has_mutex-wake testing = refl
has_mutex-wake woken = refl
has_mutex-wake count_begins = refl
has_mutex-wake counting = refl
has_mutex-wake waited = refl
has_mutex-wake counted = refl

sleeps-wake : (p : Pc) → sleeps (wake p) ≡ false
sleeps-wake asleep = refl
sleeps-wake wait_begins = refl
sleeps-wake testing = refl
sleeps-wake woken = refl
sleeps-wake count_begins = refl
sleeps-wake counting = refl
sleeps-wake waited = refl
sleeps-wake counted = refl

has_waited-wake : (p : Pc) → has_waited (wake p) ≡ has_waited p
has_waited-wake asleep = refl
has_waited-wake wait_begins = refl
has_waited-wake testing = refl
has_waited-wake woken = refl
has_waited-wake count_begins = refl
has_waited-wake counting = refl
has_waited-wake waited = refl
has_waited-wake counted = refl

pub down-stays : (n : ℤ) → ltb_ℤ (pos 0) n ≡ false → ltb_ℤ (pos 0) (n -ℤ pos 1) ≡ false
unfolding ◌-ℤ◌
down-stays n h = ground arith

up-stays :
    (n : ℤ)
    → ltb_ℤ (pos 0) n ≡ true
    → eqb_ℤ (n -ℤ pos 1) (pos 0) ≡ false
    → ltb_ℤ (pos 0) (n -ℤ pos 1) ≡ true
unfolding ◌-ℤ◌
up-stays n h k = ground arith

zero-down : (n : ℤ) → eqb_ℤ n (pos 0) ≡ true → ltb_ℤ (pos 0) n ≡ false
zero-down n h = ground arith

-- Counting down, and letting go of the mutex.
pub count_down-Inv :
    (i : ℕ) (s : Latch) → Inv s → s.mutex ≡ some i → Inv (leave i counted (count_down s))
unfolding count_down
count_down-Inv i s v mine = elim (Bool-cases (eqb_ℤ (s.count -ℤ pos 1) (pos 0))) [
  | inl last ↦ rw last (
      leave-Inv i counted s (s.count -ℤ pos 1) (λ j. wake (s.pc j)) v mine
        (λ j. has_mutex-wake (s.pc j)) refl (λ h. absurd (ground (arith, h)))
        (λ j h. absurd (ground (arith, h, sleeps-wake (s.pc j)))) (λ h. absurd (ground (arith, h)))
        (λ j h. zero-down (s.count -ℤ pos 1) last))
  | inr more ↦ rw more (
      leave-Inv i counted s (s.count -ℤ pos 1) s.pc v mine (λ j. refl) refl
        (λ h. absurd (ground (arith, h))) (λ j h. up-stays s.count (v.awake j h) more)
        (λ h. absurd (ground (arith, h))) (λ j h. down-stays s.count (v.passed j h)))
]
