-- ===== src/Loop/Epoll/Registered.antt =====
-- The operations of the poller keep the table and the kernel's interest in step.
use so_l.Common.{
  ℕ, ◌≡◌, ◌⊎◌, inl, inr, refl, sym, subst, ◌∙◌, Bool, true, false, ltb, ◌==◌, if◌then◌else◌,
  Bool-cases, Option, none, some, List, ◌∷◌,
}
use so_l.Loop.Channel.{Channel, same_events, same_events-eq, equal_and_update_last_events}
use so_l.Loop.Epoll.{
  Ctl, ctl_add, ctl_mod, ctl_del, Epoll, max_fds, put, set_chan, put_channel, epoll_add, epoll_mod,
  epoll_del,
}
use so_l.Loop.Epoll.Interest.{
  interest, Agrees, AllAgree, ==_refl, put_self, put_ne, SameLast, SameLast-put, Agrees-same,
  IsAbout-AllAgree,
}

abbrev pub Returns : Option Epoll → Type 0
Returns result = (u : Epoll) × (result ≡ some u) × AllAgree u

-- A channel is updated, with the entry of its descriptor and the kernel's interest in it.
update-AllAgree :
    (e : Epoll) (r : ℕ) (d : Channel) (table : ℕ → Option ℕ) (calls : List Ctl)
    → ((fd : ℕ) → (fd == (e.channels r).fd) ≡ false → table fd ≡ e.fd2chan fd)
    → ((fd : ℕ) → (fd == (e.channels r).fd) ≡ false → interest fd calls ≡ interest fd e.calls)
    → Agrees (put e.channels r d) calls (e.channels r).fd (table (e.channels r).fd)
    → AllAgree e
    → AllAgree (record { fd2chan = table; channels = put e.channels r d; calls = calls })
update-AllAgree e r d table calls entries interests here all =
    IsAbout-AllAgree r e (record { fd2chan = table; channels = put e.channels r d; calls = calls })
      (record {
        other_channels = λ k h. put_ne e.channels r k d h;
        other_entries = entries;
        other_interest = interests;
      })
      here all

known-Agrees :
    (f : ℕ → Channel) (r fd : ℕ) (d : Channel) (calls : List Ctl)
    → d.fd ≡ fd
    → interest fd calls ≡ some d.last_events
    → Agrees (put f r d) calls fd (some r)
known-Agrees f r fd d calls at_fd known =
    subst (λ (x : Channel). (x.fd ≡ fd) × (interest fd calls ≡ some x.last_events))
      (sym (put_self f r d)) (at_fd, known)

pub epoll_add-Returns :
    (e : Epoll) (r : ℕ) (ok : Bool)
    → ltb (e.channels r).fd max_fds ≡ true
    → AllAgree e
    → Returns (epoll_add r ok e)
unfolding epoll_add set_chan equal_and_update_last_events interest
epoll_add-Returns e r true below all =
    let channel = e.channels r in
    let d : Channel = record channel { last_events = channel.events } in
    let table = put e.fd2chan channel.fd (some r) in
    let calls = ctl_add channel.fd channel.events ∷ e.calls in
    rw below (
      record { fd2chan = table; channels = put e.channels r d; calls = calls },
      refl,
      update-AllAgree e r d table calls (λ fd h. put_ne e.fd2chan channel.fd fd (some r) h)
          (λ fd h. rw h refl)
          (subst (Agrees (put e.channels r d) calls channel.fd)
            (sym (put_self e.fd2chan channel.fd (some r)))
            (known-Agrees e.channels r channel.fd d calls refl (rw (==_refl channel.fd) refl)))
          all,
    )
epoll_add-Returns e r false below all =
    let channel = e.channels r in
    let d : Channel = record channel { last_events = channel.events } in
    let set = put e.fd2chan channel.fd (some r) in
    let table = put set channel.fd none in
    rw below (
      record { fd2chan = table; channels = put e.channels r d; calls = e.calls },
      refl,
      update-AllAgree e r d table e.calls
          (λ fd h. put_ne set channel.fd fd none h ∙ put_ne e.fd2chan channel.fd fd (some r) h)
          (λ fd h. refl)
          (subst (Agrees (put e.channels r d) e.calls channel.fd)
            (sym (put_self set channel.fd none)) tt)
          all,
    )

pub epoll_del-Returns :
    (e : Epoll) (r : ℕ) (ok : Bool)
    → ltb (e.channels r).fd max_fds ≡ true
    → AllAgree e
    → Returns (epoll_del r ok e)
unfolding epoll_del set_chan interest
epoll_del-Returns e r ok below all =
    let fd0 = (e.channels r).fd in
    let u : Epoll = record {
      fd2chan = put e.fd2chan fd0 none;
      channels = e.channels;
      calls = if ok then ctl_del fd0 ∷ e.calls else e.calls;
    } in
    rw below (
      u,
      refl,
      IsAbout-AllAgree r e u
          (record {
            other_channels = λ k h. refl;
            other_entries = λ fd h. put_ne e.fd2chan fd0 fd none h;
            other_interest = λ fd h.
                elim ok
                  as (λ o.
                    interest fd (if o then ctl_del fd0 ∷ e.calls else e.calls)
                    ≡ interest fd e.calls) [ true ↦ rw h refl | false ↦ refl ];
          })
          (subst (Agrees u.channels u.calls fd0) (sym (put_self e.fd2chan fd0 none)) tt) all,
    )

-- The table has the channel at its descriptor, or nothing.
abbrev pub IsHeld : Epoll → ℕ → Type 0
IsHeld e r = (e.fd2chan (e.channels r).fd ≡ none) ⊎ (e.fd2chan (e.channels r).fd ≡ some r)

pub same-AllAgree :
    (e : Epoll) (r : ℕ) (d : Channel)
    → SameLast (e.channels r) d
    → AllAgree e
    → AllAgree (put_channel r d e)
same-AllAgree e r d same all fd =
    Agrees-same e.channels (put e.channels r d) e.calls fd (e.fd2chan fd)
      (SameLast-put e.channels r d same) (all fd)

changed-Returns :
    (e : Epoll) (r : ℕ) (ok : Bool)
    → ltb (e.channels r).fd max_fds ≡ true
    → IsHeld e r
    → same_events (e.channels r).last_events (e.channels r).events ≡ false
    → AllAgree e
    → Returns (epoll_mod r ok e)
unfolding epoll_mod set_chan equal_and_update_last_events interest
changed-Returns e r true below held changed all =
    let channel = e.channels r in
    let d : Channel = record channel { last_events = channel.events } in
    let calls = ctl_mod channel.fd channel.events ∷ e.calls in
    rw changed (
      record { fd2chan = e.fd2chan; channels = put e.channels r d; calls = calls },
      refl,
      update-AllAgree e r d e.fd2chan calls (λ fd h. refl) (λ fd h. rw h refl)
          (elim held [
            | inl gone ↦ subst (Agrees (put e.channels r d) calls channel.fd) (sym gone) tt
            | inr here ↦
                subst (Agrees (put e.channels r d) calls channel.fd) (sym here)
                  (known-Agrees e.channels r channel.fd d calls refl (rw (==_refl channel.fd) refl))
          ])
          all,
    )
changed-Returns e r false below held changed all =
    let channel = e.channels r in
    let d : Channel = record channel { last_events = channel.events } in
    let table = put e.fd2chan channel.fd none in
    rw (changed, below)
      (
        record { fd2chan = table; channels = put e.channels r d; calls = e.calls },
        refl,
        update-AllAgree e r d table e.calls (λ fd h. put_ne e.fd2chan channel.fd fd none h)
            (λ fd h. refl)
            (subst (Agrees (put e.channels r d) e.calls channel.fd)
              (sym (put_self e.fd2chan channel.fd none)) tt)
            all,
      )

pub epoll_mod-Returns :
    (e : Epoll) (r : ℕ) (ok : Bool)
    → ltb (e.channels r).fd max_fds ≡ true
    → IsHeld e r
    → AllAgree e
    → Returns (epoll_mod r ok e)
unfolding epoll_mod equal_and_update_last_events
epoll_mod-Returns e r ok below held all =
    let channel = e.channels r in
    let d : Channel = record channel { last_events = channel.events } in
    elim (Bool-cases (same_events channel.last_events channel.events)) [
      | inl equal ↦ rw equal (
        put_channel r d e,
        refl,
        same-AllAgree e r d (refl, sym (same_events-eq channel.last_events channel.events equal))
            all,
      )
      | inr changed ↦ changed-Returns e r ok below held changed all
    ]
