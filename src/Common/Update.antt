-- ===== src/Common/Update.antt =====
-- A function on numbers that is changed at one of them.
use Prim.Native.Nat.{ℕ}
use mathlib.Core.Path.{◌≡◌, sym, subst}
use mathlib.Core.Logic.{inl, inr}
use mathlib.Core.Bool.{true, false}
use native.Mathlib.Omega.{arith}
use so_l.Common.Tests.{◌==◌, if◌then◌else◌, Bool-cases}

unfoldable pub move {ℓ} : {A : Type ℓ} → (ℕ → A) → ℕ → A → ℕ → A
move f i a j = if j == i then a else f j

pub ==-eq : (a b : ℕ) → (a == b) ≡ true → a ≡ b
==-eq a b h = ground arith

pub ==_refl : (n : ℕ) → (n == n) ≡ true
==_refl n = ground arith

-- What holds of each value holds after one of them is changed.
pub moved {ℓ} :
    {A : Type ℓ} (P : ℕ → A → Type 0) (f : ℕ → A) (i : ℕ) (a : A)
    → P i a
    → ((j : ℕ) → (j == i) ≡ false → P j (f j))
    → (j : ℕ) → P j (move f i a j)
unfolding move
moved P f i a here others j = elim (Bool-cases (j == i)) [
  | inl same ↦ rw same (subst (λ k. P k a) (sym (==-eq j i same)) here)
  | inr other ↦ rw other (others j other)
]
