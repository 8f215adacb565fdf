-- ===== src/Threads/Latch.antt =====
-- `CountDownLatch` of base/countdown_latch.h and base/countdown_latch.cpp. The count is an int: it may be
-- counted below 0.
pub mod Invariant
pub mod Wakeup
pub mod Progress
mod Examples
use so_l.Common.{
  ℕ, Bool, true, false, ◌==◌, if◌then◌else◌, Option, none, some, List, [], ◌∷◌, ◌>>=◌,
}
use so_l.Common.Int.{ℤ, pos, ◌-ℤ◌, ltb_ℤ, eqb_ℤ}
use so_l.Common.Update.{move, moved, ==-eq, ==_refl}
use so_l.Threads.{MutexLock, lock}

-- Where a thread is: in `wait`, with or without the mutex, or asleep in the condition; in `countDown`; or
-- done with one of them.
pub data Pc : Type 0 where
  wait_begins testing asleep woken : Pc
  count_begins counting : Pc
  waited counted : Pc

pub record Latch : Type 0 where
  pub mutex : MutexLock
  pub count : ℤ
  pub pc : ℕ → Pc

unfoldable pub new_latch : ℤ → (ℕ → Pc) → Latch
new_latch count pc = record { mutex = none; count = count; pc = pc }

-- `notifyAll`
abbrev pub wake : Pc → Pc
wake asleep = woken
wake p = p

abbrev pub enter : ℕ → Pc → Latch → Option Latch
enter i p s = lock i s.mutex >>= λ m. some (record s { mutex = m; pc = move s.pc i p })

abbrev pub leave : ℕ → Pc → Latch → Latch
leave i p s = record s { mutex = none; pc = move s.pc i p }

unfoldable pub count_down : Latch → Latch
unfolding ◌-ℤ◌
count_down s =
    let count = s.count -ℤ pos 1 in
    record s { count = count; pc = if eqb_ℤ count (pos 0) then (λ j. wake (s.pc j)) else s.pc }

-- A step of a thread, by where it is; a thread that sleeps may wake by itself.
unfoldable pub step_at : Pc → ℕ → Latch → Option Latch
unfolding lock move count_down
step_at wait_begins i s = enter i testing s
step_at testing i s = some (if ltb_ℤ (pos 0) s.count then leave i asleep s else leave i waited s)
step_at asleep i s = some (record s { pc = move s.pc i woken })
step_at woken i s = enter i testing s
step_at count_begins i s = enter i counting s
step_at counting i s = some (leave i counted (count_down s))
step_at waited i s = none
step_at counted i s = none

unfoldable pub step : ℕ → Latch → Option Latch
unfolding step_at
step i s = step_at (s.pc i) i s

unfoldable pub run : List ℕ → Latch → Option Latch
unfolding step
run [] s = some s
run (i ∷ is) s = step i s >>= λ t. run is t
