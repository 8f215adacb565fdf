-- ===== src/Common/Search.antt =====
-- The searches of `std::string` on lists of bytes. A position is missing where the library returns
-- `npos`.
use Prim.Native.Nat.{ℕ, suc, ◌+◌}
use mathlib.Core.Path.{◌≡◌, refl, ap}
use mathlib.Core.Logic.{inl, inr}
use mathlib.Core.Bool.{Bool, true, false, ◌&&◌}
use mathlib.Core.Option.{Option, none, some}
use mathlib.Core.List.{List, [], ◌∷◌, ◌++◌}
use native.Mathlib.Omega.{arith}
use so_l.Common.Tests.{◌==◌, if◌then◌else◌, Bool-cases}
use so_l.Common.Lists.{length, take, drop, drop-length-append}

abbrev pub shift : ℕ → Option ℕ → Option ℕ
shift n none = none
shift n (some i) = some (n + i)

-- `str.find(c)`
unfoldable pub find : ℕ → List ℕ → Option ℕ
find c [] = none
find c (x ∷ xs) = if x == c then some 0 else shift 1 (find c xs)

-- `str.find(c, pos)`
unfoldable pub find_from : ℕ → List ℕ → ℕ → Option ℕ
unfolding find
find_from c str pos = shift pos (find c (drop pos str))

unfoldable pub starts : List ℕ → List ℕ → Bool
starts [] str = true
starts (p ∷ ps) [] = false
starts (p ∷ ps) (x ∷ xs) = x == p && starts ps xs

-- `str.find(pattern)`
unfoldable pub find_text : List ℕ → List ℕ → Option ℕ
unfolding starts
find_text p [] = if starts p [] then some 0 else none
find_text p (x ∷ xs) = if starts p (x ∷ xs) then some 0 else shift 1 (find_text p xs)

-- `str.substr(pos, len)`
abbrev pub substr : ℕ → ℕ → List ℕ → List ℕ
substr pos len str = take len (drop pos str)

-- `a == b`
unfoldable pub same_text : List ℕ → List ℕ → Bool
same_text [] [] = true
same_text [] (y ∷ ys) = false
same_text (x ∷ xs) [] = false
same_text (x ∷ xs) (y ∷ ys) = x == y && same_text xs ys

-- The byte does not occur.
abbrev pub Without : ℕ → List ℕ → Type 0
Without c [] = Unit
Without c (x ∷ xs) = ((x == c) ≡ false) × Without c xs

pub Without-append : (c : ℕ) (xs ys : List ℕ) → Without c xs → Without c ys → Without c (xs ++ ys)
Without-append c [] ys h k = k
Without-append c (x ∷ xs) ys (e, h) k = (e, Without-append c xs ys h k)

pub find-Without :
    (c : ℕ) (xs ys : List ℕ) → Without c xs → find c (xs ++ (c ∷ ys)) ≡ some (length xs)
unfolding find
find-Without c [] ys h = ground arith
find-Without c (x ∷ xs) ys (e, h) = rw (e, find-Without c xs ys h) (ap some (omega arith))

pub find-none : (c : ℕ) (xs : List ℕ) → Without c xs → find c xs ≡ none
unfolding find
find-none c [] h = refl
find-none c (x ∷ xs) (e, h) = rw (e, find-none c xs h) refl

pub find_from-append :
    (c : ℕ) (xs ys : List ℕ) (n : ℕ)
    → find c ys ≡ some n
    → find_from c (xs ++ ys) (length xs) ≡ some (length xs + n)
unfolding find_from
find_from-append c xs ys n e = rw (drop-length-append xs ys, e) refl

pub take-length-append : (xs ys : List ℕ) → take (length xs) (xs ++ ys) ≡ xs
take-length-append [] ys = refl
take-length-append (x ∷ xs) ys = ap (◌∷◌ x) (take-length-append xs ys)

pub drop-length-add : (xs ys : List ℕ) (n : ℕ) → drop (length xs + n) (xs ++ ys) ≡ drop n ys
drop-length-add [] ys n = let e : (0 + n ≡ n) = omega arith in rw e refl
drop-length-add (x ∷ xs) ys n =
    let e : (suc (length xs) + n ≡ suc (length xs + n)) = omega arith in
    rw e (drop-length-add xs ys n)

-- The part between two others.
pub substr-append : (xs ys zs : List ℕ) → substr (length xs) (length ys) (xs ++ (ys ++ zs)) ≡ ys
substr-append xs ys zs = rw (drop-length-append xs (ys ++ zs)) (take-length-append ys zs)

pub starts-append : (p xs : List ℕ) → starts p (p ++ xs) ≡ true
unfolding starts
starts-append [] xs = refl
starts-append (c ∷ p) xs = ground (arith, starts-append p xs)

-- A text that contains the pattern is found to contain it.
pub find_text-append : (p xs ys : List ℕ) → (i : ℕ) × (find_text p (xs ++ (p ++ ys)) ≡ some i)
unfolding find_text
find_text-append [] [] [] = (0, refl)
find_text-append [] [] (y ∷ ys) = (0, refl)
find_text-append (c ∷ p) [] ys = (0, rw (starts-append (c ∷ p) ys) refl)
find_text-append p (x ∷ xs) ys = elim (Bool-cases (starts p (x ∷ (xs ++ (p ++ ys))))) [
  | inl here ↦ (0, rw here refl)
  | inr later ↦ let (i, e) = find_text-append p xs ys in (1 + i, rw (later, e) refl)
]
