-- ===== src/EpollServer/Links.antt =====
-- The kernel's table and the buffers lead to one another, also when both are changed at one place.
use so_l.Common.{
  ℕ, ◌≡◌, inl, inr, refl, sym, ap, ◌∙◌, false, ◌==◌, Bool-cases, Option, none, some, arith,
}
use so_l.Common.Update.{move, moved, ==-eq, ==_refl}
use so_l.EpollServer.{FdBuf, Entry}

-- The kernel's table leads to the buffer of the descriptor, and each buffer is led to.
pub record Linked (interest : ℕ → Option Entry) (bufs : ℕ → Option FdBuf) : Type 0 where
  pub held :
      (fd : ℕ) (e : Entry)
      → interest fd ≡ some e
      → (b : FdBuf) × (bufs e.ptr ≡ some b) × (b.fd ≡ fd)
  pub known :
      (p : ℕ) (b : FdBuf) → bufs p ≡ some b → (e : Entry) × (interest b.fd ≡ some e) × (e.ptr ≡ p)

abbrev pub Matches : ℕ → ℕ → Option Entry → Option FdBuf → Type 0
Matches fd p none none = Unit
Matches fd p (some e) (some b) = (e.ptr ≡ p) × (b.fd ≡ fd)
Matches fd p none (some b) = ⊥
Matches fd p (some e) none = ⊥

-- The other descriptors and pointers have nothing to do with these two.
pub record Apart (fd p : ℕ) (interest : ℕ → Option Entry) (bufs : ℕ → Option FdBuf) : Type 0 where
  pub pointers :
      (g : ℕ) (e : Entry) → (g == fd) ≡ false → interest g ≡ some e → (e.ptr == p) ≡ false
  pub descriptors : (q : ℕ) (b : FdBuf) → (q == p) ≡ false → bufs q ≡ some b → (b.fd == fd) ≡ false

pub move_self : {A : Type 0} (f : ℕ → A) (i : ℕ) (a : A) → move f i a i ≡ a
unfolding move
move_self f i a = rw (==_refl i) refl

pub move_ne : {A : Type 0} (f : ℕ → A) (i j : ℕ) (a : A) → (j == i) ≡ false → move f i a j ≡ f j
unfolding move
move_ne f i j a h = rw h refl

pub some-injective : {A : Type 0} (a b : A) → some a ≡ some b → a ≡ b
some-injective a b e = cc

pub Linked-move :
    (fd p : ℕ) (interest : ℕ → Option Entry) (bufs : ℕ → Option FdBuf) (oe : Option Entry)
    (ob : Option FdBuf)
    → Linked interest bufs
    → Apart fd p interest bufs
    → Matches fd p oe ob
    → Linked (move interest fd oe) (move bufs p ob)
Linked-move fd p interest bufs oe ob v apart m = record {
  held =
      moved
        (λ g o.
          (e : Entry) → o ≡ some e → (b : FdBuf) × (move bufs p ob e.ptr ≡ some b) × (b.fd ≡ g))
        interest fd oe (at_fd oe ob m)
        (λ g other e h.
          let (b, there, same) = v.held g e h in
          (b, move_ne bufs p e.ptr ob (apart.pointers g e other h) ∙ there, same));
  known =
      moved
        (λ q o.
          (b : FdBuf)
          → o ≡ some b
          → (e : Entry) × (move interest fd oe b.fd ≡ some e) × (e.ptr ≡ q))
        bufs p ob (at_ptr oe ob m)
        (λ q other b h.
          let (e, there, same) = v.known q b h in
          (e, move_ne interest fd b.fd oe (apart.descriptors q b other h) ∙ there, same));
}
  where
    at_fd :
        (oe : Option Entry) (ob : Option FdBuf)
        → Matches fd p oe ob
        → (e : Entry) → oe ≡ some e
        → (b : FdBuf) × (move bufs p ob e.ptr ≡ some b) × (b.fd ≡ fd)
    at_fd none ob m e h = absurd (ground (arith, h))
    at_fd (some x) none m e h = absurd m
    at_fd (some x) (some b) m e h =
        let here : e.ptr ≡ p = ap (λ z. z.ptr) (sym (some-injective x e h)) ∙ m.0 in
        (b, ap (move bufs p (some b)) here ∙ move_self bufs p (some b), m.1)

    at_ptr :
        (oe : Option Entry) (ob : Option FdBuf)
        → Matches fd p oe ob
        → (b : FdBuf) → ob ≡ some b
        → (e : Entry) × (move interest fd oe b.fd ≡ some e) × (e.ptr ≡ p)
    at_ptr oe none m b h = absurd (ground (arith, h))
    at_ptr none (some x) m b h = absurd m
    at_ptr (some e) (some x) m b h =
        let here : b.fd ≡ fd = ap (λ z. z.fd) (sym (some-injective x b h)) ∙ m.1 in
        (e, ap (move interest fd (some e)) here ∙ move_self interest fd (some e), m.0)

-- A descriptor and its own buffer.
pub own-Apart :
    (p : ℕ) (b : FdBuf) (interest : ℕ → Option Entry) (bufs : ℕ → Option FdBuf)
    → Linked interest bufs
    → bufs p ≡ some b
    → Apart b.fd p interest bufs
own-Apart p b interest bufs v at = record {
  pointers = λ g e other h. elim (Bool-cases (e.ptr == p)) [
    | inr apart ↦ apart
    | inl same ↦
        let (c, there, its) = v.held g e h in
        let one : c ≡ b = some-injective c b (sym there ∙ ap bufs (==-eq e.ptr p same) ∙ at) in
        let fds : b.fd ≡ g = ap (λ z. z.fd) (sym one) ∙ its in absurd (ground (arith, fds, other))
  ];
  descriptors = λ q c other h. elim (Bool-cases (c.fd == b.fd)) [
    | inr apart ↦ apart
    | inl same ↦
        let (e, there, to) = v.known q c h in
        let (f, here, to_p) = v.known p b at in
        let one : e ≡ f =
          some-injective e f (sym there ∙ ap interest (==-eq c.fd b.fd same) ∙ here) in
        let ptrs : q ≡ p = sym to ∙ ap (λ z. z.ptr) one ∙ to_p in
        absurd (ground (arith, ptrs, other))
  ];
}

-- A descriptor and a pointer that are not in use.
pub new-Apart :
    (fd p : ℕ) (interest : ℕ → Option Entry) (bufs : ℕ → Option FdBuf)
    → Linked interest bufs
    → interest fd ≡ none
    → bufs p ≡ none
    → Apart fd p interest bufs
new-Apart fd p interest bufs v no_entry no_buf = record {
  pointers = λ g e other h. elim (Bool-cases (e.ptr == p)) [
    | inr apart ↦ apart
    | inl same ↦
        let (c, there, its) = v.held g e h in
        let both : none ≡ some c = sym no_buf ∙ ap bufs (sym (==-eq e.ptr p same)) ∙ there in
        absurd (ground (arith, both))
  ];
  descriptors = λ q c other h. elim (Bool-cases (c.fd == fd)) [
    | inr apart ↦ apart
    | inl same ↦
        let (e, there, to) = v.known q c h in
        let both : none ≡ some e = sym no_entry ∙ ap interest (sym (==-eq c.fd fd same)) ∙ there in
        absurd (ground (arith, both))
  ];
}
