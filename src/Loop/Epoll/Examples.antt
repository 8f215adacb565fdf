-- ===== src/Loop/Epoll/Examples.antt =====
-- A poller with three channels.
use so_l.Common.{ℕ, ◌+◌, refl, sym, subst, Ensures, inr, true, false, none, some, List, [], ◌∷◌}
use so_l.Loop.Channel.{Channel, no_events, in_et, equal_and_update_last_events}
use so_l.Loop.Epoll.{
  Epoll, put, Op, add, mod_, del, mask, poll, run, new_epoll, epoll_add, set_chan, ctl_add,
}
use so_l.Loop.Epoll.Interest.{AllAgree}
use so_l.Loop.Epoll.Registered.{Returns, epoll_add-Returns}
use so_l.Loop.Epoll.Dispatch.{Dispatches, get_events_request-Dispatches}
use so_l.Loop.Epoll.Runs.{run-new_epoll-Returns}

-- The channel n is for the descriptor n + 3.
abbrev channels : ℕ → Channel
channels n = record {
  fd = n + 3;
  events = in_et;
  revents = no_events;
  last_events = no_events;
  read_handler = true;
  write_handler = false;
  error_handler = false;
  conn_handler = false;
}

-- The second is refused by the kernel; the first is told of input, and waits for output next.
abbrev ops : List Op
ops =
    add 0 true
    ∷ add 1 false
    ∷ add 2 true
    ∷ poll ((3, in_et) ∷ (4, in_et) ∷ [])
    ∷ mask 0 (record no_events { out = true })
    ∷ mod_ 0 true
    ∷ del 2 true
    ∷ []

run-new_epoll-Returns_example : Returns (run ops (new_epoll channels))
unfolding new_epoll run
run-new_epoll-Returns_example = run-new_epoll-Returns ops channels (
  refl,
  (refl, (refl, ((refl, (refl, tt), (refl, tt, tt)), (tt, ((refl, inr refl), (refl, tt)))))),
)

-- The first channel is in the table, the second is not.
abbrev after_add : Epoll
after_add = record {
  fd2chan = put (λ fd. none) 3 (some 0);
  channels = put channels 0 (record (channels 0) { last_events = in_et });
  calls = ctl_add 3 in_et ∷ [];
}

after_add-AllAgree : AllAgree after_add
unfolding new_epoll epoll_add set_chan equal_and_update_last_events
after_add-AllAgree =
    let (u, done, agree) = epoll_add-Returns (new_epoll channels) 0 true refl (λ fd. tt) in
    subst (Ensures AllAgree) (sym done) agree

get_events_request-Dispatches_example : Dispatches after_add ((3, in_et) ∷ (4, in_et) ∷ [])
get_events_request-Dispatches_example =
    get_events_request-Dispatches after_add ((3, in_et) ∷ (4, in_et) ∷ []) after_add-AllAgree
      (refl, (refl, tt), (refl, tt, tt))
