-- ===== src/EpollServer/Runs.antt =====
-- However long the server runs, it neither uses freed memory nor writes behind a buffer.
use so_l.Common.{
  ℕ, ◌≤◌, ◌<◌, ◌≡◌, inl, inr, refl, sym, ap, subst, ◌∙◌, true, false, ltb, ◌==◌, if◌then◌else◌,
  Bool-cases, Option, none, some, List, [], ◌∷◌, ◌++◌, length, ◌>>=◌, Ensures, >>=-Ensures, arith,
}
use so_l.Common.Update.{move, moved}
use so_l.EpollServer.{
  FdBuf, Entry, Server, Event, new_fd_buf, register, accepted_socket, run_accept, release,
  wait_to_write, run_action, handle, handle_all, run_epoll, run,
}
use so_l.EpollServer.Links.{Linked-move, move_self, move_ne}
use so_l.EpollServer.Ownership.{Owned, is_there, release-Owned, wait_to_write-Owned, accept-Owned}

-- The buffers other than that of the event are as they were.
abbrev Keeps : ℕ → Server → Server → Type 0
Keeps p s t = (q : ℕ) (b : FdBuf) → (q == p) ≡ false → s.bufs q ≡ some b → t.bufs q ≡ some b

-- accept(2) gives a descriptor that is not open.
abbrev pub AcceptsNew : Event → Server → Type 0
AcceptsNew ev s = (fd : ℕ) → ev.accepted ≡ some fd → s.is_open fd ≡ false

accepted-Owned :
    (o : Option ℕ) (p : ℕ) (s : Server)
    → Owned s
    → ((fd : ℕ) → o ≡ some fd → s.is_open fd ≡ false)
    → Owned (accepted_socket o s) × Keeps p s (accepted_socket o s)
unfolding accepted_socket register new_fd_buf
accepted-Owned none p s v h = (v, λ q b other at. at)
accepted-Owned (some fd) p s v h = (
  accept-Owned s fd v (h fd refl),
  λ q b other at. elim (Bool-cases (q == s.next)) [
    | inr not_new ↦ move_ne s.bufs s.next q _ not_new ∙ at
    | inl new ↦
        let both : none ≡ some b = sym (v.fresh q (ground (arith, new))) ∙ at in
        absurd (ground (arith, both))
  ],
)

run_action-Owned :
    (ev : Event) (b : FdBuf) (s : Server)
    → Owned s
    → s.bufs ev.ptr ≡ some b
    → (b.fd == s.listen_sockfd) ≡ false
    → length ev.read < 1024
    → Ensures (λ t. Owned t × Keeps ev.ptr s t) (run_action ev b s)
unfolding run_action release wait_to_write
run_action-Owned ev b s v at client short = elim (Bool-cases ev.readable) [
  | inl reads ↦ elim (Bool-cases (ltb 0 (length ev.read))) [
    | inl some_bytes ↦
        let fits : ltb (length ev.read) 1024 ≡ true = ground (arith, short) in
        rw (reads, some_bytes, fits)
          (
            wait_to_write-Owned s ev b v at client,
            λ q c other there. move_ne s.bufs ev.ptr q _ other ∙ there,
          )
    | inr no_bytes ↦
        rw (reads, no_bytes)
          (
            release-Owned s ev.ptr b v at client,
            λ q c other there. move_ne s.bufs ev.ptr q none other ∙ there,
          )
  ]
  | inr no_read ↦ elim (Bool-cases ev.writable) [
    | inl writes ↦
        let t : Server = record s { answered = s.answered ++ (b.fd ∷ []) } in
        let w : Owned t = record {
          linked = v.linked;
          fresh = v.fresh;
          opens = v.opens;
          listens = v.listens;
        } in
        rw (no_read, writes)
          (
            release-Owned t ev.ptr b w at client,
            λ q c other there. move_ne s.bufs ev.ptr q none other ∙ there,
          )
    | inr neither ↦ rw (no_read, neither) (v, λ q c other there. there)
  ]
]

handle-Owned :
    (ev : Event) (b : FdBuf) (s : Server)
    → Owned s
    → s.bufs ev.ptr ≡ some b
    → AcceptsNew ev s
    → length ev.read < 1024
    → Ensures (λ t. Owned t × Keeps ev.ptr s t) (handle ev s)
unfolding handle run_accept
handle-Owned ev b s v at new short =
    subst
      (λ o.
        Ensures (λ t. Owned t × Keeps ev.ptr s t)
          (o >>= λ fdp.
            if fdp.fd == s.listen_sockfd
            then some (if ev.readable then run_accept ev s else s)
            else run_action ev fdp s))
      (sym at)
      (elim (Bool-cases (b.fd == s.listen_sockfd)) [
        | inr client ↦ rw client (run_action-Owned ev b s v at client short)
        | inl listener ↦ elim (Bool-cases ev.readable) [
          | inl reads ↦ rw (listener, reads) (accepted-Owned ev.accepted ev.ptr s v new)
          | inr no_read ↦ rw (listener, no_read) (v, λ q c other there. there)
        ]
      ])

-- epoll_wait tells of descriptors that the kernel has, by their pointers, and of none twice.
abbrev pub AllTold : List Event → Server → Type 0
AllTold [] s = Unit
AllTold (ev ∷ evs) s =
    ((fd : ℕ) × (e : Entry) × (s.interest fd ≡ some e) × (e.ptr ≡ ev.ptr)) × AllTold evs s

abbrev pub Absent : ℕ → List Event → Type 0
Absent p [] = Unit
Absent p (ev ∷ evs) = ((ev.ptr == p) ≡ false) × Absent p evs

abbrev pub AllOnce : List Event → Type 0
AllOnce [] = Unit
AllOnce (ev ∷ evs) = Absent ev.ptr evs × AllOnce evs

-- What is accepted was not open, and a request has less than 1024 bytes.
unfoldable pub AllAnswered : List Event → Server → Type 0
AllAnswered [] s = Unit
AllAnswered (ev ∷ evs) s =
    AcceptsNew ev s
    × (length ev.read < 1024)
    × ((t : Server) → handle ev s ≡ some t → AllAnswered evs t)

-- The kernel behaves so at each wait.
unfoldable pub AllWaits : List (List Event) → Server → Type 0
AllWaits [] s = Unit
AllWaits (evs ∷ rounds) s =
    AllTold evs s
    × AllOnce evs
    × AllAnswered evs s
    × ((t : Server) → handle_all evs s ≡ some t → AllWaits rounds t)

-- The events' buffers are there.
abbrev AllLive : List Event → Server → Type 0
AllLive [] s = Unit
AllLive (ev ∷ evs) s = ((b : FdBuf) × (s.bufs ev.ptr ≡ some b)) × AllLive evs s

told-AllLive : (evs : List Event) (s : Server) → Owned s → AllTold evs s → AllLive evs s
told-AllLive [] s v h = tt
told-AllLive (ev ∷ evs) s v ((fd, e, there, to), h) =
    let (b, at, same) = v.linked.held fd e there in
    ((b, ap s.bufs (sym to) ∙ at), told-AllLive evs s v h)

kept-AllLive :
    (p : ℕ) (evs : List Event) (s t : Server)
    → Keeps p s t
    → Absent p evs
    → AllLive evs s
    → AllLive evs t
kept-AllLive p [] s t keeps apart live = tt
kept-AllLive p (ev ∷ evs) s t keeps (other, apart) ((b, at), live) =
    ((b, keeps ev.ptr b other at), kept-AllLive p evs s t keeps apart live)

handle_all-Owned :
    (evs : List Event) (s : Server)
    → Owned s
    → AllLive evs s
    → AllOnce evs
    → AllAnswered evs s
    → Ensures Owned (handle_all evs s)
unfolding handle_all AllAnswered
handle_all-Owned [] s v live once answered = v
handle_all-Owned (ev ∷ evs) s v ((b, at), live) (apart, once) (new, short, rest) =
    >>=-Ensures (λ t. Owned t × Keeps ev.ptr s t) Owned (handle ev s) _
      (handle-Owned ev b s v at new short)
      λ t goes (w, keeps).
        handle_all-Owned evs t w (kept-AllLive ev.ptr evs s t keeps apart live) once (rest t goes)

run-Owned :
    (rounds : List (List Event)) (s : Server)
    → Owned s
    → AllWaits rounds s
    → Ensures Owned (run rounds s)
unfolding run AllWaits
run-Owned [] s v waits = v
run-Owned (evs ∷ rounds) s v (told, once, answered, rest) =
    >>=-Ensures Owned Owned (handle_all evs s) _
      (handle_all-Owned evs s v (told-AllLive evs s v told) once answered)
      λ t goes w. run-Owned rounds t w (rest t goes)

run_epoll-Owned : (listen_sockfd : ℕ) → Owned (run_epoll listen_sockfd)
unfolding run_epoll register new_fd_buf
run_epoll-Owned listen_sockfd =
    let e : Entry = record { out = false; ptr = 0 } in
    let b : FdBuf = record { fd = listen_sockfd; buf = [] } in
    record {
      linked =
          Linked-move listen_sockfd 0 (λ fd. none) (λ p. none) (some e) (some b)
            (record {
              held = λ fd e h. absurd (ground (arith, h));
              known = λ p b h. absurd (ground (arith, h));
            })
            (record {
              pointers = λ g e other h. absurd (ground (arith, h));
              descriptors = λ q b other h. absurd (ground (arith, h));
            })
            (refl, refl);
      fresh =
          moved (λ q o. 1 ≤ q → o ≡ none) (λ p. none) 0 (some b) (λ h. absurd (omega (arith, h)))
            (λ q other h. refl);
      opens =
          moved (λ g o. move (λ fd. false) listen_sockfd true g ≡ is_there o) (λ fd. none)
            listen_sockfd (some e) (move_self (λ fd. false) listen_sockfd true)
            (λ g other. move_ne (λ fd. false) listen_sockfd g true other);
      listens = ap is_there (move_self {A = Option Entry} (λ fd. none) listen_sockfd (some e));
    }

-- If each epoll_wait tells of descriptors that the kernel has, none twice, accept(2) gives descriptors that are
-- not open, and no request has 1024 bytes or more, then however long the server runs, it uses no buffer that
-- was freed and writes behind none. Then the kernel's table and the buffers lead to one another, no
-- pointer to come is in use, and a descriptor is open just if the kernel has it, the listening one among them.
pub run-run_epoll-Owned :
    (listen_sockfd : ℕ) (rounds : List (List Event))
    → AllWaits rounds (run_epoll listen_sockfd)
    → Ensures Owned (run rounds (run_epoll listen_sockfd))
run-run_epoll-Owned listen_sockfd rounds waits =
    run-Owned rounds (run_epoll listen_sockfd) (run_epoll-Owned listen_sockfd) waits
