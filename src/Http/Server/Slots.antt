-- ===== src/Http/Server/Slots.antt =====
-- The operations on one request and its timer.
use so_l.Common.{
  ℕ, ◌≡◌, ◌⊎◌, inl, inr, refl, ap, ◌∙◌, Bool, true, false, not, ◌==◌, Option, none, some, ◌>>=◌,
  arith,
}
use so_l.Http.Server.{
  Conn, MyTimer, Slot, Server, update, put_request, put_timer, clear_req_of, detach,
  delete_request_of, delete_request, delete_owned, delete_timer_of, delete_timer, separate_of,
  separate_timer,
}

-- A request and its timer point to one another, or neither points to anything; what is left of the two
-- points to nothing.
abbrev pub Good : ℕ → Option Conn → Option MyTimer → Type 0
Good n none none = Unit
Good n none (some m) = m.request_data ≡ none
Good n (some c) none = c.timer ≡ none
Good n (some c) (some m) =
    ((c.timer ≡ some n) × (m.request_data ≡ some n)) ⊎ ((c.timer ≡ none) × (m.request_data ≡ none))

-- Only the slot of one number differs.
pub record Touches (n : ℕ) (s u : Server) : Type 0 where
  pub others : (k : ℕ) → (k == n) ≡ false → u.slots k ≡ s.slots k
  pub same_fresh : u.fresh ≡ s.fresh
  pub same_queue : u.queue ≡ s.queue
  pub same_tasks : u.tasks ≡ s.tasks
  pub same_listener : u.listen_fd ≡ s.listen_fd

==_refl : (n : ℕ) → (n == n) ≡ true
==_refl n = ground arith

pub update_self : (slots : ℕ → Slot) (n : ℕ) (slot : Slot) → update slots n slot n ≡ slot
unfolding update
update_self slots n slot = rw (==_refl n) refl

pub update_ne :
    (slots : ℕ → Slot) (n k : ℕ) (slot : Slot) → (k == n) ≡ false → update slots n slot k ≡ slots k
unfolding update
update_ne slots n k slot h = rw h refl

pub Touches-refl : (n : ℕ) (s : Server) → Touches n s s
Touches-refl n s = record {
  others = λ k h. refl;
  same_fresh = refl;
  same_queue = refl;
  same_tasks = refl;
  same_listener = refl;
}

Touches-put_request :
    (n : ℕ) (c : Option Conn) (s u : Server) → Touches n s u → Touches n s (put_request n c u)
Touches-put_request n c s u t = record {
  others = λ k h. update_ne u.slots n k (record (u.slots n) { request = c }) h ∙ t.others k h;
  same_fresh = t.same_fresh;
  same_queue = t.same_queue;
  same_tasks = t.same_tasks;
  same_listener = t.same_listener;
}

pub Touches-put_timer :
    (n : ℕ) (m : Option MyTimer) (s u : Server) → Touches n s u → Touches n s (put_timer n m u)
Touches-put_timer n m s u t = record {
  others = λ k h. update_ne u.slots n k (record (u.slots n) { timer = m }) h ∙ t.others k h;
  same_fresh = t.same_fresh;
  same_queue = t.same_queue;
  same_tasks = t.same_tasks;
  same_listener = t.same_listener;
}

abbrev pub slot_of : Option Conn → Option MyTimer → Slot
slot_of c m = record { request = c; timer = m }

put_request-slot :
    (n : ℕ) (c d : Option Conn) (m : Option MyTimer) (s : Server)
    → s.slots n ≡ slot_of c m
    → (put_request n d s).slots n ≡ slot_of d m
put_request-slot n c d m s e =
    update_self s.slots n (record (s.slots n) { request = d })
    ∙ ap (λ (x : Slot). record x { request = d }) e

pub put_timer-slot :
    (n : ℕ) (c : Option Conn) (m l : Option MyTimer) (s : Server)
    → s.slots n ≡ slot_of c m
    → (put_timer n l s).slots n ≡ slot_of c l
put_timer-slot n c m l s e =
    update_self s.slots n (record (s.slots n) { timer = l })
    ∙ ap (λ (x : Slot). record x { timer = l }) e

abbrev pub is_there {ℓ} : {A : Type ℓ} → Option A → Bool
is_there none = false
is_there (some a) = true

-- A request that points to no timer.
abbrev pub is_separate : Option Conn → Bool
is_separate none = false
is_separate (some c) = not (is_there c.timer)

abbrev cleared : MyTimer → MyTimer
cleared m = record m { request_data = none; deleted = true }

-- `detach` of a request that is good leaves a timer that points to nothing.
detach-slot :
    (s : Server) (n : ℕ) (c : Conn) (m : Option MyTimer)
    → s.slots n ≡ slot_of (some c) m
    → Good n (some c) m
    → (u : Server) × (l : Option MyTimer) × (detach c.timer s ≡ some u)
      × Touches n s u
      × (u.slots n ≡ slot_of (some c) l)
      × Good n none l
      × (is_there l ≡ is_there m)
unfolding detach
detach-slot s n c none e h = (s, none, ap (λ t. detach t s) h, Touches-refl n s, e, tt, refl)
detach-slot s n c (some m) e (inr (h, k)) =
    (s, some m, ap (λ t. detach t s) h, Touches-refl n s, e, k, refl)
detach-slot s n c (some m) e (inl (h, k)) = (
  put_timer n (some (cleared m)) s,
  some (cleared m),
  ap (λ t. detach t s) h ∙ ap (λ (x : Slot). clear_req_of x.timer n s) e,
  Touches-put_timer n (some (cleared m)) s s (Touches-refl n s),
  put_timer-slot n (some c) (some m) (some (cleared m)) s e,
  refl,
  refl,
)

-- What an operation on the slot `n` makes of it.
abbrev pub Becomes : Option Server → ℕ → Server → (Slot → Type 0) → Type 0
Becomes result n s P = (u : Server) × (result ≡ some u) × Touches n s u × P (u.slots n)

-- A request that is deleted once is gone, and its timer, if there is one, is left alone.
pub delete_request-Becomes :
    (s : Server) (n : ℕ) (c : Conn) (m : Option MyTimer)
    → s.slots n ≡ slot_of (some c) m
    → Good n (some c) m
    → Becomes (delete_request n s) n s (λ slot.
      (l : Option MyTimer) × (slot ≡ slot_of none l) × Good n none l × (is_there l ≡ is_there m))
unfolding delete_request
delete_request-Becomes s n c m e h =
    let (u, l, detached, touches, slot, good, kept) = detach-slot s n c m e h in
    (
      put_request n none u,
      ap (λ (x : Slot). delete_request_of x.request n s) e
          ∙ ap (λ r. r >>= λ u. some (put_request n none u)) detached,
      Touches-put_request n none s u touches,
      (l, put_request-slot n (some c) none l u slot, good, kept),
    )

Good-separated :
    (n : ℕ) (c : Conn) (l : Option MyTimer)
    → Good n none l
    → Good n (some (record c { timer = none })) l
Good-separated n c none g = refl
Good-separated n c (some m) g = inr (refl, g)

-- A request that is separated stays, and points to no timer.
pub separate_timer-Becomes :
    (s : Server) (n : ℕ) (c : Conn) (m : Option MyTimer)
    → s.slots n ≡ slot_of (some c) m
    → Good n (some c) m
    → Becomes (separate_timer n s) n s (λ slot.
      (l : Option MyTimer) × (slot ≡ slot_of (some (record c { timer = none })) l)
      × Good n (some (record c { timer = none })) l
      × (is_there l ≡ is_there m))
unfolding separate_timer
separate_timer-Becomes s n c m e h =
    let d : Option Conn = some (record c { timer = none }) in
    let (u, l, detached, touches, slot, good, kept) = detach-slot s n c m e h in
    (
      put_request n d u,
      ap (λ (x : Slot). separate_of x.request n s) e
          ∙ ap (λ r. r >>= λ u. some (put_request n d u)) detached,
      Touches-put_request n d s u touches,
      (l, put_request-slot n (some c) d l u slot, Good-separated n c l good, kept),
    )

-- A timer that is deleted is gone, with the request that it points to, if it points to one.
pub delete_timer-Becomes :
    (s : Server) (n : ℕ) (c : Option Conn) (m : MyTimer)
    → s.slots n ≡ slot_of c (some m)
    → Good n c (some m)
    → Becomes (delete_timer n s) n s (λ slot.
      (d : Option Conn) × (slot ≡ slot_of d none)
      × Good n d none
      × (is_separate c ≡ true → is_separate d ≡ true))
unfolding delete_timer
delete_timer-Becomes s n none m e h = (
  put_timer n none s,
  ap (λ (x : Slot). delete_timer_of x.timer n s) e
      ∙ ap (λ q. delete_owned q s >>= λ u. some (put_timer n none u)) h,
  Touches-put_timer n none s s (Touches-refl n s),
  (none, put_timer-slot n none (some m) none s e, tt, λ h. h),
)
delete_timer-Becomes s n (some c) m e (inr (h, k)) = (
  put_timer n none s,
  ap (λ (x : Slot). delete_timer_of x.timer n s) e
      ∙ ap (λ q. delete_owned q s >>= λ u. some (put_timer n none u)) k,
  Touches-put_timer n none s s (Touches-refl n s),
  (some c, put_timer-slot n (some c) (some m) none s e, h, λ h. h),
)
delete_timer-Becomes s n (some c) m e (inl (h, k)) =
    let (u, gone, touches, (l, slot, good, kept)) =
      delete_request-Becomes s n c (some m) e (inl (h, k)) in
    (
      put_timer n none u,
      ap (λ (x : Slot). delete_timer_of x.timer n s) e
          ∙ ap (λ q. delete_owned q s >>= λ u. some (put_timer n none u)) k
          ∙ ap (λ r. r >>= λ u. some (put_timer n none u)) gone,
      Touches-put_timer n none s u touches,
      (none, put_timer-slot n none l none u slot, tt, λ x. absurd (ground (arith, h, x))),
    )
