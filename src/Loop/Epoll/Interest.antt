-- ===== src/Loop/Epoll/Interest.antt =====
-- The kernel knows every channel of the table, with the mask that the channel last recorded.
use so_l.Common.{
  ℕ, ◌≡◌, inl, inr, refl, sym, ap, subst, ◌∙◌, true, false, ◌==◌, if◌then◌else◌, Bool-cases, Option,
  none, some, List, [], ◌∷◌, arith,
}
use so_l.Loop.Channel.{Channel, Events}
use so_l.Loop.Epoll.{Ctl, ctl_add, ctl_mod, ctl_del, Epoll, put}

-- The mask under which a descriptor is registered after the calls, by their documentation.
unfoldable pub interest : ℕ → List Ctl → Option Events
interest fd [] = none
interest fd (ctl_add k ev ∷ calls) = if fd == k then some ev else interest fd calls
interest fd (ctl_mod k ev ∷ calls) = if fd == k then some ev else interest fd calls
interest fd (ctl_del k ∷ calls) = if fd == k then none else interest fd calls

abbrev pub Agrees : (ℕ → Channel) → List Ctl → ℕ → Option ℕ → Type 0
Agrees channels calls fd none = Unit
Agrees channels calls fd (some c) =
    ((channels c).fd ≡ fd) × (interest fd calls ≡ some (channels c).last_events)

abbrev pub AllAgree : Epoll → Type 0
AllAgree e = (fd : ℕ) → Agrees e.channels e.calls fd (e.fd2chan fd)

pub ==_refl : (n : ℕ) → (n == n) ≡ true
==_refl n = ground arith

pub ==-eq : (a b : ℕ) → (a == b) ≡ true → a ≡ b
==-eq a b h = ground arith

pub put_self {ℓ} : {A : Type ℓ} (f : ℕ → A) (n : ℕ) (a : A) → put f n a n ≡ a
unfolding put
put_self f n a = rw (==_refl n) refl

pub put_ne {ℓ} : {A : Type ℓ} (f : ℕ → A) (n m : ℕ) (a : A) → (m == n) ≡ false → put f n a m ≡ f m
unfolding put
put_ne f n m a h = rw h refl

-- What of a channel the table relies on.
abbrev pub SameLast : Channel → Channel → Type 0
SameLast c d = (d.fd ≡ c.fd) × (d.last_events ≡ c.last_events)

pub Agrees-same :
    (f g : ℕ → Channel) (calls : List Ctl) (fd : ℕ) (c : Option ℕ)
    → ((k : ℕ) → SameLast (f k) (g k))
    → Agrees f calls fd c
    → Agrees g calls fd c
Agrees-same f g calls fd none same a = tt
Agrees-same f g calls fd (some c) same (at_fd, known) =
    ((same c).0 ∙ at_fd, known ∙ ap (λ ev. some ev) (sym (same c).1))

pub SameLast-put :
    (f : ℕ → Channel) (c : ℕ) (d : Channel)
    → SameLast (f c) d
    → (k : ℕ) → SameLast (f k) (put f c d k)
SameLast-put f c d same k = elim (Bool-cases (k == c)) [
  | inl here ↦
      subst (λ m. SameLast (f m) (put f c d m)) (sym (==-eq k c here))
        (subst (SameLast (f c)) (sym (put_self f c d)) same)
  | inr other ↦ subst (SameLast (f k)) (sym (put_ne f c k d other)) (refl, refl)
]

-- A step that has to do with one channel and its descriptor.
pub record IsAbout (r : ℕ) (e u : Epoll) : Type 0 where
  pub other_channels : (k : ℕ) → (k == r) ≡ false → u.channels k ≡ e.channels k
  pub other_entries : (fd : ℕ) → (fd == (e.channels r).fd) ≡ false → u.fd2chan fd ≡ e.fd2chan fd
  pub other_interest :
      (fd : ℕ) → (fd == (e.channels r).fd) ≡ false → interest fd u.calls ≡ interest fd e.calls

Agrees-other :
    (r : ℕ) (e u : Epoll) (fd : ℕ) (c : Option ℕ)
    → IsAbout r e u
    → (fd == (e.channels r).fd) ≡ false
    → Agrees e.channels e.calls fd c
    → Agrees u.channels u.calls fd c
Agrees-other r e u fd none about other a = tt
Agrees-other r e u fd (some c) about other (at_fd, known) = (
  ap (λ d. d.fd) same ∙ at_fd,
  about.other_interest fd other ∙ known ∙ ap (λ (d : Channel). some d.last_events) (sym same),
)
  where
    apart : (c == r) ≡ false
    apart = elim (Bool-cases (c == r)) [
      | inl one ↦
          let here : (e.channels r).fd ≡ fd =
            subst (λ k. (e.channels k).fd ≡ fd) (==-eq c r one) at_fd in
          absurd (ground (arith, other, here))
      | inr differs ↦ differs
    ]

    same : u.channels c ≡ e.channels c
    same = about.other_channels c apart

pub IsAbout-AllAgree :
    (r : ℕ) (e u : Epoll)
    → IsAbout r e u
    → Agrees u.channels u.calls (e.channels r).fd (u.fd2chan (e.channels r).fd)
    → AllAgree e
    → AllAgree u
IsAbout-AllAgree r e u about here all fd = elim (Bool-cases (fd == (e.channels r).fd)) [
  | inl same ↦
      subst (λ k. Agrees u.channels u.calls k (u.fd2chan k)) (sym (==-eq fd (e.channels r).fd same))
        here
  | inr other ↦
      subst (Agrees u.channels u.calls fd) (sym (about.other_entries fd other))
        (Agrees-other r e u fd (e.fd2chan fd) about other (all fd))
]
