-- ===== src/TaskPool/Ring.antt =====
-- The ring is a queue: tasks are taken in the order in which they were added.
use native.Mathlib.Nat.{le_refl}
use mathlib.Core.Path.{ap₂}
use native.Mathlib.Numerals.{add-one}
use so_l.Common.{
  ◌↔◌, ◌&&◌, ℕ, zero, suc, ◌+◌, ◌-◌, ◌%◌, ◌≤◌, ◌<◌, ◌≡◌, ◌≢◌, ◌⊎◌, inl, inr, refl, sym, ap, ◌∙◌,
  Bool, true, false, not, ltb, ◌==◌, if◌then◌else◌, List, [], ◌∷◌, ◌++◌, length, get_or, set,
  length-set, arith,
}
use so_l.TaskPool.{
  take_task, success, Shutdown, running, immediate_shutdown, graceful_shutdown, is_shutdown, Pool,
  add, Turn, waits, leaves, takes, turn, worker_turn,
}

-- `n` tasks of the ring from the place `h` on.
unfoldable pub window : List ℕ → ℕ → ℕ → ℕ → List ℕ
window queue size h zero = []
window queue size h (suc n) = get_or queue h 0 ∷ window queue size ((h + 1) % size) n

-- The tasks that wait, oldest first.
abbrev pub pending : Pool → List ℕ
pending p = window p.queue p.queue_size p.head p.count

-- `n` places behind `h`, in a ring that is passed once at most.
abbrev behind : ℕ → ℕ → ℕ → ℕ
behind size h n = if ltb (h + n) size then h + n else h + n - size

pub record Inv (p : Pool) : Type 0 where
  pub storage : length p.queue ≡ p.queue_size
  pub head_in : p.head < p.queue_size
  pub count_in : p.count ≤ p.queue_size
  pub tail_is : p.tail ≡ behind p.queue_size p.head p.count

next_lem : (size h : ℕ) → h < size → (h + 1) % size ≡ behind size h 1
next_lem size h lt = grind arith

next-lt : (size h : ℕ) → h < size → (h + 1) % size < size
next-lt size h lt = grind arith

behind-suc :
    (size h n : ℕ) → h < size → n < size → behind size ((h + 1) % size) n ≡ behind size h (suc n)
behind-suc size h n lt lt' = rw (next_lem size h lt) (ground arith)

behind-ne : (size h n : ℕ) → h < size → 0 < n → n < size → behind size h n ≢ h
behind-ne size h n lt pos lt' = ground arith

get_or-set_self : (q : List ℕ) (i v d : ℕ) → i < length q → get_or (set q i v) i d ≡ v
get_or-set_self [] i v d h = absurd (omega arith)
get_or-set_self (x ∷ q) zero v d h = refl
get_or-set_self (x ∷ q) (suc i) v d h = get_or-set_self q i v d (omega arith)

get_or-set_ne : (q : List ℕ) (i j v d : ℕ) → i ≢ j → get_or (set q i v) j d ≡ get_or q j d
get_or-set_ne [] i j v d h = refl
get_or-set_ne (x ∷ q) zero zero v d h = absurd (h refl)
get_or-set_ne (x ∷ q) zero (suc j) v d h = refl
get_or-set_ne (x ∷ q) (suc i) zero v d h = refl
get_or-set_ne (x ∷ q) (suc i) (suc j) v d h = get_or-set_ne q i j v d (omega arith)

window-set :
    (q : List ℕ) (size h n v : ℕ)
    → h < size
    → (m : ℕ) → n ≤ m
    → m < size
    → window (set q (behind size h m) v) size h n ≡ window q size h n
unfolding window
window-set q size h zero v lt m le lt' = refl
window-set q size h (suc n) v lt zero le lt' = absurd (omega arith)
window-set q size h (suc n) v lt (suc m) le lt' =
    let back : behind size ((h + 1) % size) m ≡ behind size h (suc m) =
      behind-suc size h m lt (omega arith) in
    let rest =
      window-set q size ((h + 1) % size) n v (next-lt size h lt) m (omega arith) (omega arith) in
    let first =
      get_or-set_ne q (behind size h (suc m)) h v 0
        (behind-ne size h (suc m) lt (omega arith) lt') in
    ap₂ ◌∷◌ first (rw back at rest)

window-snoc :
    (q : List ℕ) (size h n : ℕ)
    → h < size
    → n < size
    → window q size h (suc n) ≡ window q size h n ++ (get_or q (behind size h n) 0 ∷ [])
unfolding window
window-snoc q size h zero lt lt' = ap (λ i. get_or q i 0 ∷ []) (ground arith)
window-snoc q size h (suc n) lt lt' =
    let rest = window-snoc q size ((h + 1) % size) n (next-lt size h lt) (omega arith) in
    ap (◌∷◌ (get_or q h 0)) (rw (behind-suc size h n lt (omega arith)) at rest)

tail-next :
    (p : Pool)
    → Inv p
    → p.count < p.queue_size
    → (p.tail + 1) % p.queue_size ≡ behind p.queue_size p.head (p.count + 1)
tail-next p v lt = ground (arith, next_lem p.queue_size p.tail)

enqueued :
    (p : Pool) (task : ℕ)
    → Inv p
    → p.count < p.queue_size
    → window (set p.queue p.tail task) p.queue_size p.head (p.count + 1) ≡ pending p ++ (task ∷ [])
enqueued p task v lt =
    let at_tail = get_or-set_self p.queue p.tail task 0 (ground arith) in
    rw (add-one p.count, v.tail_is)
      (window-snoc _ p.queue_size p.head p.count v.head_in lt
        ∙ ap₂ ◌++◌
            (window-set p.queue p.queue_size p.head p.count task v.head_in p.count (le_refl _) lt)
            (ap (λ t. t ∷ []) (rw v.tail_is at at_tail)))

-- What `threadpool_add` does, by the calls of pthreads and the state of the pool. A pool that is
-- locked, not full and not shutting down has the new task behind those that wait; in all other cases
-- it is as it was. Either way the invariant of the ring is kept.
pub add_lem :
    (p : Pool) (task : ℕ) (locked signalled unlocked : Bool)
    → Inv p
    → let (status, q) = add p task locked signalled unlocked in
      let accepts = locked && ltb p.count p.queue_size && not (is_shutdown p.shutdown) in
      Inv q
      × (pending q ≡ (if accepts then pending p ++ (task ∷ []) else pending p))
      × ((status ≡ success) ↔ ((accepts ≡ true) × (signalled ≡ true) × (unlocked ≡ true)))
unfolding add
add_lem p task locked signalled unlocked v = (
  ground (arith, tail-next p v, length-set p.queue p.tail task),
  ground (arith, enqueued p task v),
  ground arith,
)

dequeued :
    (p : Pool) (n : ℕ)
    → Inv p
    → p.count ≡ suc n
    → (pending p
        ≡ get_or p.queue p.head 0
          ∷ window p.queue p.queue_size ((p.head + 1) % p.queue_size) (p.count - 1))
      × Inv (record p { head = (p.head + 1) % p.queue_size; count = p.count - 1 })
unfolding window
dequeued p n v e =
    let less : p.count ≡ suc (p.count - 1) = omega arith in
    (
      ap (window p.queue p.queue_size p.head) less,
      record {
        storage = v.storage;
        head_in = next-lt p.queue_size p.head v.head_in;
        count_in = omega (arith, v.count_in);
        tail_is =
            v.tail_is
            ∙ ap (behind p.queue_size p.head) less
            ∙ sym (
                behind-suc p.queue_size p.head (p.count - 1) v.head_in (omega (arith, v.count_in)));
      },
    )

-- The three answers of a worker.
abbrev WorkerCases : Pool → Turn → Type 0
WorkerCases p r =
    ((r ≡ waits) × (pending p ≡ []) × (p.shutdown ≡ running))
    ⊎ (((r ≡ leaves)
          × ((p.shutdown ≡ immediate_shutdown)
              ⊎ ((p.shutdown ≡ graceful_shutdown) × (pending p ≡ []))))
        ⊎ ((t : ℕ) × (q : Pool) × (r ≡ takes t q)
            × (pending p ≡ t ∷ pending q)
            × (p.shutdown ≢ immediate_shutdown)
            × Inv q))

taken :
    (p : Pool) (n : ℕ)
    → Inv p
    → p.count ≡ suc n
    → p.shutdown ≢ immediate_shutdown
    → WorkerCases p (take_task p)
taken p n v e h = let (front, kept) = dequeued p n v e in inr (inr (_, _, refl, front, h, kept))

none_left : (p : Pool) → p.count ≡ 0 → pending p ≡ []
unfolding window
none_left p e = rw e

worker_cases :
    (p : Pool) (s : Shutdown) (n : ℕ)
    → p.shutdown ≡ s
    → p.count ≡ n
    → Inv p
    → WorkerCases p (turn p s)
unfolding turn
worker_cases p running zero h e v =
    let test : (p.count == 0) ≡ true = ground arith in rw test (inl (refl, none_left p e, h))
worker_cases p running (suc n) h e v =
    let test : (p.count == 0) ≡ false = ground arith in rw test (taken p n v e (λ i. cc))
worker_cases p immediate_shutdown n h e v = inr (inl (refl, inl h))
worker_cases p graceful_shutdown zero h e v =
    let test : (p.count == 0) ≡ true = ground arith in
    rw test (inr (inl (refl, inr (h, none_left p e))))
worker_cases p graceful_shutdown (suc n) h e v =
    let test : (p.count == 0) ≡ false = ground arith in rw test (taken p n v e (λ i. cc))

-- What a worker does when it holds the lock. It takes the oldest task, and leaves the others and the
-- invariant, if there is one and the pool is not shut down at once; it waits just when there is none
-- and the pool runs; it leaves its loop in all other cases.
pub worker_turn_lem :
    (p : Pool)
    → Inv p
    → ((worker_turn p ≡ waits) × (pending p ≡ []) × (p.shutdown ≡ running))
      ⊎ (((worker_turn p ≡ leaves)
            × ((p.shutdown ≡ immediate_shutdown)
                ⊎ ((p.shutdown ≡ graceful_shutdown) × (pending p ≡ []))))
          ⊎ ((t : ℕ) × (q : Pool) × (worker_turn p ≡ takes t q)
              × (pending p ≡ t ∷ pending q)
              × (p.shutdown ≢ immediate_shutdown)
              × Inv q))
unfolding worker_turn
worker_turn_lem p v = worker_cases p p.shutdown p.count refl refl v
