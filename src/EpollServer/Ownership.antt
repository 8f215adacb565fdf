-- ===== src/EpollServer/Ownership.antt =====
-- No memory is used after it is freed, and each open descriptor has its own.
use so_l.Common.{
  ℕ, ◌+◌, ◌≤◌, ◌<◌, ◌≡◌, inl, inr, refl, sym, ap, ◌∙◌, Bool, true, false, ltb, ◌==◌, Bool-cases,
  Option, none, some, [], arith,
}
use so_l.Common.Update.{move, moved}
use so_l.EpollServer.{FdBuf, Entry, Server, Event, new_fd_buf, register, release, wait_to_write}
use so_l.EpollServer.Links.{Linked, move_self, move_ne, Linked-move, own-Apart, new-Apart}

abbrev pub is_there {ℓ} : {A : Type ℓ} → Option A → Bool
is_there none = false
is_there (some a) = true

-- The kernel's table and the buffers lead to one another; pointers that are to come are not in use; a descriptor
-- is open just if the kernel knows it; the listening descriptor is known.
pub record Owned (s : Server) : Type 0 where
  pub linked : Linked s.interest s.bufs
  pub fresh : (p : ℕ) → s.next ≤ p → s.bufs p ≡ none
  pub opens : (fd : ℕ) → s.is_open fd ≡ is_there (s.interest fd)
  pub listens : is_there (s.interest s.listen_sockfd) ≡ true

used_below : (s : Server) (p : ℕ) (b : FdBuf) → Owned s → s.bufs p ≡ some b → p < s.next
used_below s p b v at = elim (Bool-cases (ltb p s.next)) [
  | inl below ↦ ground (arith, below)
  | inr above ↦
      let both : none ≡ some b = sym (v.fresh p (ground (arith, above))) ∙ at in
      absurd (ground (arith, both))
]

pub release-Owned :
    (s : Server) (p : ℕ) (b : FdBuf)
    → Owned s
    → s.bufs p ≡ some b
    → (b.fd == s.listen_sockfd) ≡ false
    → Owned (release p b s)
unfolding release
release-Owned s p b v at client = record {
  linked =
      Linked-move b.fd p s.interest s.bufs none none v.linked
        (own-Apart p b s.interest s.bufs v.linked at) tt;
  fresh = moved (λ q o. s.next ≤ q → o ≡ none) s.bufs p none (λ h. refl) (λ q other h. v.fresh q h);
  opens =
      moved (λ g o. o ≡ is_there (move s.interest b.fd none g)) s.is_open b.fd false
        (ap is_there (sym (move_self s.interest b.fd none)))
        (λ g other. v.opens g ∙ ap is_there (sym (move_ne s.interest b.fd g none other)));
  listens =
      ap is_there (move_ne s.interest b.fd s.listen_sockfd none (ground (arith, client)))
      ∙ v.listens;
}

pub wait_to_write-Owned :
    (s : Server) (ev : Event) (b : FdBuf)
    → Owned s
    → s.bufs ev.ptr ≡ some b
    → (b.fd == s.listen_sockfd) ≡ false
    → Owned (wait_to_write ev b s)
unfolding wait_to_write
wait_to_write-Owned s ev b v at client =
    let e : Entry = record { out = true; ptr = ev.ptr } in
    let c : FdBuf = record b { buf = ev.read } in
    let (f, there, to) = v.linked.known ev.ptr b at in
    record {
      linked =
          Linked-move b.fd ev.ptr s.interest s.bufs (some e) (some c) v.linked
            (own-Apart ev.ptr b s.interest s.bufs v.linked at) (refl, refl);
      fresh =
          moved (λ q o. s.next ≤ q → o ≡ none) s.bufs ev.ptr (some c)
            (λ h. absurd (omega (arith, h, used_below s ev.ptr b v at))) (λ q other h. v.fresh q h);
      opens =
          moved (λ g o. s.is_open g ≡ is_there o) s.interest b.fd (some e)
            (v.opens b.fd ∙ ap is_there there) (λ g other. v.opens g);
      listens =
          ap is_there (move_ne s.interest b.fd s.listen_sockfd (some e) (ground (arith, client)))
          ∙ v.listens;
    }

not_there : {A : Type 0} (o : Option A) → is_there o ≡ false → o ≡ none
not_there none h = refl
not_there (some a) h = absurd (ground (arith, h))

-- A descriptor that was not open is accepted.
pub accept-Owned :
    (s : Server) (fd : ℕ)
    → Owned s
    → s.is_open fd ≡ false
    → Owned (register fd (record s { is_open = move s.is_open fd true }))
unfolding register new_fd_buf
accept-Owned s fd v closed =
    let e : Entry = record { out = false; ptr = s.next } in
    let b : FdBuf = record { fd = fd; buf = [] } in
    let unknown : s.interest fd ≡ none = not_there (s.interest fd) (sym (v.opens fd) ∙ closed) in
    let unused : s.bufs s.next ≡ none = v.fresh s.next (omega arith) in
    record {
      linked =
          Linked-move fd s.next s.interest s.bufs (some e) (some b) v.linked
            (new-Apart fd s.next s.interest s.bufs v.linked unknown unused) (refl, refl);
      fresh =
          moved (λ q o. s.next + 1 ≤ q → o ≡ none) s.bufs s.next (some b)
            (λ h. absurd (omega (arith, h))) (λ q other h. v.fresh q (omega (arith, h)));
      opens =
          moved (λ g o. o ≡ is_there (move s.interest fd (some e) g)) s.is_open fd true
            (ap is_there (sym (move_self s.interest fd (some e))))
            (λ g other. v.opens g ∙ ap is_there (sym (move_ne s.interest fd g (some e) other)));
      listens =
          moved (λ g o. is_there (s.interest g) ≡ true → is_there o ≡ true) s.interest fd (some e)
            (λ h. refl) (λ g other h. h) s.listen_sockfd v.listens;
    }
