-- ===== src/Http/Server/Examples.antt =====
-- Tests of the main program, and a run of it.
use so_l.Common.{ℕ, ◌≡◌, refl, true, false, none, some, Option, List, [], ◌∷◌}
use so_l.Http.Server.{Event, Server, run, init, accept_connection, handle_expired_event}
use so_l.Http.Server.Armed.{may_report}
use so_l.Http.Server.Events.{Returns, accept_connection-Inv}
use so_l.Http.Server.Expiry.{handle_expired_event-Settles, Settles}
use so_l.Http.Server.Ownership.{init-Inv, run-init-Returns}

abbrev listens : List ℕ → Event
listens fds = record {
  request = 0;
  err = false;
  hup = false;
  in_ = true;
  accepted = fds;
  added = true;
}

abbrev readable : ℕ → Event
readable n = record {
  request = n;
  err = false;
  hup = false;
  in_ = true;
  accepted = [];
  added = true;
}

abbrev hangs_up : ℕ → Event
hangs_up n = record {
  request = n;
  err = false;
  hup = true;
  in_ = false;
  accepted = [];
  added = true;
}

-- Three connections; one is given to the pool, one hangs up, and the third is timed out.
abbrev rounds : List (ℕ × List Event)
rounds =
    (1000, listens (7 ∷ 9 ∷ 11 ∷ []) ∷ [])
    ∷ (1100, readable 1 ∷ hangs_up 2 ∷ [])
    ∷ (1200, [])
    ∷ (1600, listens (13 ∷ []) ∷ [])
    ∷ []

tasks_after : Option Server → List ℕ
tasks_after none = []
tasks_after (some s) = s.tasks

run-tasks : tasks_after (run rounds (init 5)) ≡ 1 ∷ []
unfolding tasks_after run init
run-tasks = refl

run-init-Returns_example : Returns (run rounds (init 5))
unfolding run init may_report
run-init-Returns_example =
    run-init-Returns 5 rounds
      ((refl, tt, tt), ((refl, (refl, tt), (refl, tt, tt)), ((refl, tt, tt), tt)))

-- Three connections, whose time is over.
abbrev accepted : Server
accepted = accept_connection 1000 (7 ∷ 9 ∷ 11 ∷ []) (init 5)

handle_expired_event-Settles_example : Settles 1600 (handle_expired_event 1600 accepted)
handle_expired_event-Settles_example =
    handle_expired_event-Settles 1600 accepted
      (accept_connection-Inv 1000 (7 ∷ 9 ∷ 11 ∷ []) (init 5) (init-Inv 5)).0
