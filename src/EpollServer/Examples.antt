-- ===== src/EpollServer/Examples.antt =====
-- A client that sends four bytes, and is answered.
use so_l.Common.{
  ◌≡◌, ◌==◌, if◌then◌else◌, refl, subst, true, false, Option, none, some, List, [], ◌∷◌, Ensures,
  arith,
}
use so_l.Common.Text.{codes}
use so_l.Common.Update.{move}
use so_l.EpollServer.{
  Server, Event, new_fd_buf, register, accepted_socket, run_accept, release, wait_to_write,
  run_action, handle, handle_all, run_epoll, run,
}
use so_l.EpollServer.Links.{some-injective}
use so_l.EpollServer.Ownership.{Owned}
use so_l.EpollServer.Runs.{AllAnswered, AllWaits, run-run_epoll-Owned}

abbrev connects : Event
connects = record { ptr = 0; readable = true; writable = false; accepted = some 5; read = [] }

abbrev requests : Event
requests = record {
  ptr = 1;
  readable = true;
  writable = false;
  accepted = none;
  read = codes "GET ";
}

abbrev takes_answer : Event
takes_answer = record { ptr = 1; readable = false; writable = true; accepted = none; read = [] }

abbrev rounds : List (List Event)
rounds = (connects ∷ []) ∷ (requests ∷ []) ∷ (takes_answer ∷ []) ∷ []

answered-run : Ensures (λ t. t.answered ≡ 5 ∷ []) (run rounds (run_epoll 3))
unfolding run handle_all handle run_epoll run_accept accepted_socket register new_fd_buf run_action
    release wait_to_write move
answered-run = refl

by_result :
    (P : Server → Type 0) (m : Option Server) → Ensures P m → (t : Server) → m ≡ some t → P t
by_result P m h t e = subst (Ensures P) e h

rounds-AllWaits : AllWaits rounds (run_epoll 3)
unfolding AllWaits AllAnswered handle_all handle run_epoll run_accept accepted_socket register
    new_fd_buf run_action release wait_to_write move
rounds-AllWaits = (
  ((3, record { out = false; ptr = 0 }, refl, refl), tt),
  (tt, tt),
  (
    λ fd h. subst (λ fd. (if fd == 3 then true else false) ≡ false) (some-injective 5 fd h) refl,
    omega arith,
    λ t e. tt,
  ),
  by_result (AllWaits ((requests ∷ []) ∷ (takes_answer ∷ []) ∷ []))
      (handle_all (connects ∷ []) (run_epoll 3))
      (
        ((5, record { out = false; ptr = 1 }, refl, refl), tt),
        (tt, tt),
        (λ fd h. absurd (ground (arith, h)), omega arith, λ t e. tt),
        by_result (AllWaits ((takes_answer ∷ []) ∷ [])) _ (
          ((5, record { out = true; ptr = 1 }, refl, refl), tt),
          (tt, tt),
          (λ fd h. absurd (ground (arith, h)), omega arith, λ t e. tt),
          λ t e. tt,
        ),
      ),
)

run-run_epoll-Owned_example : Ensures Owned (run rounds (run_epoll 3))
run-run_epoll-Owned_example = run-run_epoll-Owned 3 rounds rounds-AllWaits
