-- ===== src/Loop/Channel.antt =====
-- `Channel` of net/Channel.h and net/Channel.cpp. An event mask is the record of the bits that the
-- code tests or sets. What a call of a handler does is not the channel's: the model returns which
-- handlers are called, in order.
use so_l.Common.{
  ℕ, suc, ◌≡◌, refl, Bool, true, false, not, ◌&&◌, ◌||◌, if◌then◌else◌, List, [], ◌∷◌, ◌++◌, arith,
  ◌↔◌,
}

-- The bits of `__uint32_t` that occur: EPOLLIN, EPOLLPRI, EPOLLOUT, EPOLLERR, EPOLLHUP, EPOLLRDHUP
-- and EPOLLET.
pub record Events : Type 0 where
  pub in_ : Bool
  pub pri : Bool
  pub out : Bool
  pub err : Bool
  pub hup : Bool
  pub rdhup : Bool
  pub et : Bool

-- `0`.
abbrev pub no_events : Events
no_events = record {
  in_ = false;
  pri = false;
  out = false;
  err = false;
  hup = false;
  rdhup = false;
  et = false;
}

-- `EPOLLIN | EPOLLET`.
abbrev pub in_et : Events
in_et = record no_events { in_ = true; et = true }

abbrev pub same : Bool → Bool → Bool
same true b = b
same false b = not b

-- `==` on masks.
abbrev pub same_events : Events → Events → Bool
same_events a b =
    same a.in_ b.in_
    && same a.pri b.pri
    && same a.out b.out
    && same a.err b.err
    && same a.hup b.hup
    && same a.rdhup b.rdhup
    && same a.et b.et

-- The handler fields as whether they are set.
pub record Channel : Type 0 where
  pub fd : ℕ
  pub events : Events
  pub revents : Events
  pub last_events : Events
  pub read_handler : Bool
  pub write_handler : Bool
  pub error_handler : Bool
  pub conn_handler : Bool

-- `Channel::Channel(EventLoop *, int)`. `revents_` is not initialised: it is an argument.
unfoldable pub new_channel : ℕ → Events → Channel
new_channel fd garbage = record {
  fd = fd;
  events = no_events;
  revents = garbage;
  last_events = no_events;
  read_handler = false;
  write_handler = false;
  error_handler = false;
  conn_handler = false;
}

-- The calls that a channel makes.
pub data Call : Type 0 where
  read : ℕ → Call
  write error connected : Call

abbrev pub handle_read : Channel → List Call
handle_read c = if c.read_handler then read c.fd ∷ [] else []

abbrev pub handle_write : Channel → List Call
handle_write c = if c.write_handler then write ∷ [] else []

abbrev pub handle_conn : Channel → List Call
handle_conn c = if c.conn_handler then connected ∷ [] else []

-- `Channel::handleEvents`: the channel as the handlers find it, and the calls.
unfoldable pub handle_events : Channel → Channel × List Call
handle_events c =
    let quiet : Channel = record c { events = no_events } in
    if c.revents.hup && not c.revents.in_
    then (quiet, [])
    else if c.revents.err
    then (quiet, if c.error_handler then error ∷ [] else [])
    else (
      quiet,
      (if c.revents.in_ || c.revents.pri || c.revents.rdhup then handle_read quiet else [])
          ++ (if c.revents.out then handle_write quiet else []),
    )

unfoldable pub set_revents : Channel → Events → Channel
set_revents c ev = record c { revents = ev }

unfoldable pub set_events : Channel → Events → Channel
set_events c ev = record c { events = ev }

-- `Channel::EqualAndUpdateLastEvents`.
unfoldable pub equal_and_update_last_events : Channel → Channel × Bool
equal_and_update_last_events c =
    (record c { last_events = c.events }, same_events c.last_events c.events)

same_events_refl : (a : Events) → same_events a a ≡ true
same_events_refl a = ground arith

same-eq : (a b : Bool) → same a b ≡ true → a ≡ b
same-eq true true h = refl
same-eq true false h = cc
same-eq false true h = cc
same-eq false false h = refl

pub same_events-eq : (a b : Events) → same_events a b ≡ true → a ≡ b
same_events-eq a b h = ground (
  arith,
  same-eq a.in_ b.in_,
  same-eq a.pri b.pri,
  same-eq a.out b.out,
  same-eq a.err b.err,
  same-eq a.hup b.hup,
  same-eq a.rdhup b.rdhup,
  same-eq a.et b.et,
)

-- `EqualAndUpdateLastEvents` answers whether the mask is the one that was last given to the kernel,
-- and records it: asked again at once, it answers yes.
pub equal_and_update_last_events_lem :
    (c : Channel)
    → (((equal_and_update_last_events c).1 ≡ true) ↔ (c.last_events ≡ c.events))
      × ((equal_and_update_last_events (equal_and_update_last_events c).0).1 ≡ true)
unfolding equal_and_update_last_events
equal_and_update_last_events_lem c = (
  (λ h. same_events-eq c.last_events c.events h, λ h. rw h (same_events_refl c.events)),
  same_events_refl c.events,
)

abbrev pub reads : List Call → ℕ
reads [] = 0
reads (read n ∷ cs) = suc (reads cs)
reads (_ ∷ cs) = reads cs

abbrev pub writes : List Call → ℕ
writes [] = 0
writes (write ∷ cs) = suc (writes cs)
writes (_ ∷ cs) = writes cs

-- A handling of events that is not a hang-up with nothing to read, and no error, calls the read
-- handler once if it is set and there is input, urgent input or a half-close of the peer, and the
-- write handler once if it is set and there is room for output; in all other cases neither is
-- called. Either way the channel's event mask is empty before any handler runs, and nothing else of
-- the channel has changed.
pub handle_events_lem :
    (c : Channel)
    → let (d, calls) = handle_events c in
      let open_ = not (c.revents.hup && not c.revents.in_) && not c.revents.err in
      (reads calls ≡ (
        if open_ && c.read_handler && (c.revents.in_ || c.revents.pri || c.revents.rdhup)
        then 1
        else 0))
      × (writes calls ≡ (if open_ && c.write_handler && c.revents.out then 1 else 0))
      × (d ≡ record c { events = no_events })
unfolding handle_events
handle_events_lem c = (ground arith, ground arith, ground arith)
