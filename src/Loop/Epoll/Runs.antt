-- ===== src/Loop/Epoll/Runs.antt =====
-- Whatever is done with a poller, its table stays in step with the kernel.
use so_l.Common.{ℕ, ◌≡◌, refl, ap, subst, ◌∙◌, true, ltb, Option, none, some, List, [], ◌∷◌, ◌>>=◌}
use so_l.Loop.Channel.{Channel, set_events}
use so_l.Loop.Epoll.{
  Epoll, max_fds, put_channel, Op, add, mod_, del, mask, poll, apply, run, new_epoll,
}
use so_l.Loop.Epoll.Interest.{AllAgree}
use so_l.Loop.Epoll.Registered.{
  Returns, IsHeld, epoll_add-Returns, epoll_del-Returns, epoll_mod-Returns, same-AllAgree,
}
use so_l.Loop.Epoll.Dispatch.{IsReported, get_events_request-Dispatches}

-- The descriptors are in the table's range; a channel that is modified is the one in the table, if there
-- is one at its descriptor.
abbrev pub IsLegal : Op → Epoll → Type 0
IsLegal (add c ok) e = ltb (e.channels c).fd max_fds ≡ true
IsLegal (mod_ c ok) e = (ltb (e.channels c).fd max_fds ≡ true) × IsHeld e c
IsLegal (del c ok) e = ltb (e.channels c).fd max_fds ≡ true
IsLegal (mask c ev) e = Unit
IsLegal (poll evs) e = IsReported evs

abbrev pub After : (Epoll → Type 0) → Option Epoll → Type 0
After P none = Unit
After P (some e) = P e

abbrev pub AllLegal : List Op → Epoll → Type 0
AllLegal [] e = Unit
AllLegal (op ∷ ops) e = IsLegal op e × After (λ u. AllLegal ops u) (apply op e)

apply-Returns : (op : Op) (e : Epoll) → AllAgree e → IsLegal op e → Returns (apply op e)
unfolding apply set_events
apply-Returns (add c ok) e all legal = epoll_add-Returns e c ok legal all
apply-Returns (mod_ c ok) e all (below, held) = epoll_mod-Returns e c ok below held all
apply-Returns (del c ok) e all legal = epoll_del-Returns e c ok legal all
apply-Returns (mask c ev) e all legal =
    let d : Channel = record (e.channels c) { events = ev } in
    (put_channel c d e, refl, same-AllAgree e c d (refl, refl) all)
apply-Returns (poll evs) e all legal =
    let (u, done, table, agree, delivered, kept) = get_events_request-Dispatches e evs all legal in
    (u, ap (λ r. r >>= λ (p : Epoll × List ℕ). some p.0) done, agree)

run-Returns : (ops : List Op) (e : Epoll) → AllAgree e → AllLegal ops e → Returns (run ops e)
unfolding run
run-Returns [] e all legal = (e, refl, all)
run-Returns (op ∷ ops) e all (legal, later) =
    let (u, done, agree) = apply-Returns op e all legal in
    let (v, rest, end) = run-Returns ops u agree (subst (After (λ u. AllLegal ops u)) done later) in
    (v, ap (λ r. r >>= λ u. run ops u) done ∙ rest, end)

-- From a new poller, however channels are added, modified, deleted, given masks and told of events, and
-- whichever calls of epoll_ctl fail, as long as descriptors are in the table's range, each once in what
-- epoll_wait returns, and only the channel of the table is modified, if there is one: no operation
-- indexes out of the table, and every channel of the table stands at its own descriptor and is known to
-- the kernel with the mask that it last recorded.
pub run-new_epoll-Returns :
    (ops : List Op) (channels : ℕ → Channel)
    → AllLegal ops (new_epoll channels)
    → Returns (run ops (new_epoll channels))
unfolding new_epoll
run-new_epoll-Returns ops channels legal = run-Returns ops (new_epoll channels) (λ fd. tt) legal
