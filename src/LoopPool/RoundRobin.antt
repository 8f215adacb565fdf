-- ===== src/LoopPool/RoundRobin.antt =====
-- The loops are handed out in turn.
use so_l.Common.{
  get_or, drop, suc-eq-zero, append-nil, ℕ, zero, suc, ◌+◌, ◌%◌, ◌≤◌, ◌<◌, ◌≡◌, refl, sym, ap, ◌∙◌,
  true, none, some, List, [], ◌∷◌, ◌++◌, length, get_elem?, arith, Ensures, if◌then◌else◌,
  append_assoc,
}
use native.Mathlib.Nat.{mod_self, mod-eq_of_lt}
use so_l.LoopPool.{LoopPool, new_pool, start_threads, start, next_of, get_next_loop, get_loops}

-- The pool runs: it has a loop for each thread, and `next_` is one of them.
pub record IsRunning (p : LoopPool) : Type 0 where
  pub is_started : p.started ≡ true
  pub enough : length p.loops ≡ p.num_threads
  pub next_in : p.next < p.num_threads

-- The loops from the i-th thread on.
abbrev pub loops_from : (ℕ → ℕ) → ℕ → ℕ → List ℕ
loops_from start_loop zero i = []
loops_from start_loop (suc n) i = start_loop i ∷ loops_from start_loop n (i + 1)

start_threads-eq :
    (f : ℕ → ℕ) (n i : ℕ) (ls : List ℕ) → start_threads f n i ls ≡ ls ++ loops_from f n i
unfolding start_threads
start_threads-eq f zero i ls = sym (append-nil ls)
start_threads-eq f (suc n) i ls =
    start_threads-eq f n (i + 1) (ls ++ (f i ∷ []))
    ∙ append_assoc ls (f i ∷ []) (loops_from f n (i + 1))

length-loops_from : (f : ℕ → ℕ) (n i : ℕ) → length (loops_from f n i) ≡ n
length-loops_from f zero i = refl
length-loops_from f (suc n) i = ap suc (length-loops_from f n (i + 1))

-- A pool for a positive number of threads starts, and then runs with the loops of its threads, in
-- order; for no threads there is no pool.
pub start-IsRunning :
    (f : ℕ → ℕ) (base n : ℕ)
    → (new_pool base 0 ≡ none)
      × Ensures
          (λ p. IsRunning (start f p) × ((start f p).loops ≡ loops_from f (suc n) 0))
          (new_pool base (suc n))
unfolding new_pool start
start-IsRunning f base n = (
  refl,
  rw (suc-eq-zero n) (
    record {
      is_started = refl;
      enough = ap (length {0}) (start_threads-eq f (suc n) 0 []) ∙ length-loops_from f (suc n) 0;
      next_in = omega arith;
    },
    start_threads-eq f (suc n) 0 [],
  ),
)

get_elem?-get_or : (ls : List ℕ) (i : ℕ) → i < length ls → get_elem? ls i ≡ some (get_or ls i 0)
get_elem?-get_or [] i h = absurd (omega arith)
get_elem?-get_or (l ∷ ls) zero h = refl
get_elem?-get_or (l ∷ ls) (suc i) h = get_elem?-get_or ls i (omega arith)

next_of-eq :
    (p : LoopPool) (ls : List ℕ)
    → p.next < length ls
    → next_of p ls ≡ some (get_or ls p.next 0, record p { next = (p.next + 1) % p.num_threads })
unfolding next_of
next_of-eq p [] h = absurd (omega arith)
next_of-eq p (l ∷ ls) h = rw (get_elem?-get_or (l ∷ ls) p.next h)

pub get_next_loop-eq :
    (p : LoopPool)
    → IsRunning p
    → get_next_loop p
      ≡ some (get_or p.loops p.next 0, record p { next = (p.next + 1) % p.num_threads })
unfolding get_next_loop
get_next_loop-eq p v =
    ap (λ b. if b then next_of p p.loops else none) v.is_started
    ∙ next_of-eq p p.loops (omega (arith, v.enough, v.next_in))

step-IsRunning :
    (p : LoopPool) → IsRunning p → IsRunning (record p { next = (p.next + 1) % p.num_threads })
step-IsRunning p v = record {
  is_started = v.is_started;
  enough = v.enough;
  next_in = ground (arith, v.next_in);
}

-- A call hands out the loop that `next_` names, within the range of the loops, and keeps the pool
-- running.
pub get_next_loop_lem :
    (p : LoopPool)
    → IsRunning p
    → Ensures
        (λ r. (get_elem? p.loops p.next ≡ some r.0) × IsRunning r.1 × (r.1.loops ≡ p.loops))
        (get_next_loop p)
get_next_loop_lem p v =
    rw (get_next_loop-eq p v) (
      get_elem?-get_or p.loops p.next (omega (arith, v.enough, v.next_in)),
      step-IsRunning p v,
      refl,
    )

drop-get_or : (ls : List ℕ) (i : ℕ) → i < length ls → drop i ls ≡ get_or ls i 0 ∷ drop (suc i) ls
drop-get_or [] i h = absurd (omega arith)
drop-get_or (l ∷ ls) zero h = refl
drop-get_or (l ∷ ls) (suc i) h = drop-get_or ls i (omega arith)

drop-all : (ls : List ℕ) (i : ℕ) → length ls ≤ i → drop i ls ≡ []
drop-all [] zero h = refl
drop-all [] (suc i) h = refl
drop-all (l ∷ ls) zero h = absurd (omega arith)
drop-all (l ∷ ls) (suc i) h = drop-all ls i (omega arith)

get_loops-suc :
    (k : ℕ) (p q r : LoopPool) (l : ℕ) (ls : List ℕ)
    → get_next_loop p ≡ some (l, q)
    → get_loops k q ≡ some (ls, r)
    → get_loops (suc k) p ≡ some (l ∷ ls, r)
unfolding get_loops
get_loops-suc k p q r l ls e f = rw (e, f) refl

after : LoopPool → LoopPool
after p = record p { next = (p.next + 1) % p.num_threads }

rest_of_turn :
    (p : LoopPool) (k : ℕ)
    → IsRunning p
    → p.next + suc k ≡ p.num_threads
    → get_loops (suc k) p ≡ some (drop p.next p.loops, record p { next = 0 })
unfolding get_loops after
rest_of_turn p zero v e =
    let last : ((p.next + 1) % p.num_threads ≡ 0) =
      ap (λ n. n % p.num_threads) e ∙ mod_self p.num_threads in
    let one : (drop p.next p.loops ≡ get_or p.loops p.next 0 ∷ []) =
      drop-get_or p.loops p.next (omega (arith, v.enough, v.next_in))
      ∙ ap (◌∷◌ (get_or p.loops p.next 0))
          (drop-all p.loops (suc p.next) (omega (arith, v.enough, e))) in
    get_loops-suc 0 p (after p) (after p) _ _ (get_next_loop-eq p v) refl
    ∙ (λ i. some (sym one i, record p { next = last i }))
rest_of_turn p (suc k) v e =
    let go : ((p.next + 1) % p.num_threads ≡ suc p.next) =
      mod-eq_of_lt (omega (arith, e)) ∙ omega arith in
    get_loops-suc (suc k) p (after p) _ _ _ (get_next_loop-eq p v)
      (rest_of_turn (after p) k (step-IsRunning p v) (omega (arith, go, e)))
    ∙ ap (λ ls. some (ls, record p { next = 0 }))
        (ap (λ i. get_or p.loops p.next 0 ∷ drop i p.loops) go
          ∙ sym (drop-get_or p.loops p.next (omega (arith, v.enough, v.next_in))))

turn-from :
    (p : LoopPool) (n : ℕ)
    → IsRunning p
    → p.next ≡ 0
    → n ≡ p.num_threads
    → get_loops n p ≡ some (p.loops, p)
turn-from p zero v e f = absurd (omega (arith, v.next_in, f))
turn-from p (suc k) v e f =
    rest_of_turn p k v (omega (arith, e, f))
    ∙ (λ i. some (drop (e i) p.loops, record p { next = sym e i }))

-- From the first loop on, as many calls as there are threads hand out every loop once, in order,
-- and leave the pool as it was: the next turn begins with the first loop again.
pub get_loops-turn :
    (p : LoopPool) → IsRunning p → p.next ≡ 0 → get_loops p.num_threads p ≡ some (p.loops, p)
get_loops-turn p v e = turn-from p p.num_threads v e refl
