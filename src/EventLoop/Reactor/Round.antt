-- ===== src/EventLoop/Reactor/Round.antt =====
-- A round of the loop over the channels that the poller reported.
use proto_rpc.Prelude.{
  ℕ, ◌≡◌, ◌≢◌, ◌≤◌, ◌<◌, refl, ap, sym, subst, ◌∙◌, Bool, true, false, Option, none, some, List, [],
  ◌∷◌, ◌++◌, map, length, append_assoc, append-nil,
}
use proto_rpc.StdMap.{find, Distinct, AllKeys}
use proto_rpc.Channel.{Channel, Events, Revents, Index, new, added, deleted}
use proto_rpc.Poller.{Poller, CtlOp, happened}
use proto_rpc.Poller.Interest.{IsEpoll, AgreesAt, has_channel-true}
use proto_rpc.Poller.Active.{Reported, in_map, poll_lem}
use proto_rpc.EventLoop.Reactor.{
  Reactor, Action, is_active, handle_active, handle_round, loop_has_channel,
}
use proto_rpc.EventLoop.Reactor.Watched.{Sound, Mapped}
use proto_rpc.EventLoop.Reactor.Actions.{AllAllowed, Waits, Acted, act_all_lem}

-- What each of the channels logs when its handler begins.
abbrev pub all_handled : List (ℕ × Revents) → List (ℕ × Bool)
all_handled es = map (λ e. (e.0, true)) es

module _ {K : Type 0} (registered : K → ℕ → Option Events) (ctl : CtlOp → ℕ → Events → K → Option K)
    (IsLive : ℕ → Type 0) (laws : IsEpoll registered ctl) where
  module _ (handler : ℕ → Revents → List Action) (active : List (ℕ × Revents)) where
    -- The handlers of live active channels do what is allowed.
    unfoldable pub Behaved : List (ℕ × Revents) → Type 0
    Behaved [] = Unit
    Behaved ((addr, rev) ∷ es) =
        (IsLive addr
          × (is_active addr active ≡ true)
          × AllAllowed registered ctl IsLive addr active (handler addr rev))
        × Behaved es

    AllMapped : List (ℕ × Revents) → Reactor K → Type 0
    AllMapped [] r = Unit
    AllMapped ((addr, rev) ∷ es) r = Mapped registered ctl IsLive addr r × AllMapped es r

    AllMapped-Acted :
        (cur : ℕ) (es : List (ℕ × Revents)) (r r' : Reactor K)
        → AllKeys (λ k. cur ≢ k) es
        → Behaved es
        → Acted registered ctl IsLive laws cur active r r'
        → AllMapped es r
        → AllMapped es r'
    unfolding AllMapped Behaved Waits
    AllMapped-Acted cur [] r r' d h u m = tt
    AllMapped-Acted cur ((a, rev) ∷ es) r r' d h u m = (
      u.others a (h.0.0, (λ e. d.0 (sym e)), h.0.1) m.0,
      AllMapped-Acted cur es r r' d.1 h.1 u m.1,
    )

    handle_active_lem :
        (es : List (ℕ × Revents)) (r : Reactor K)
        → r.active ≡ active
        → Distinct es
        → Behaved es
        → AllMapped es r
        → Sound registered ctl IsLive r
        → (r' : Reactor K) × (handle_active ctl handler es r ≡ some r')
          × Sound registered ctl IsLive r'
          × (r'.active ≡ active)
          × (r'.handled ≡ r.handled ++ all_handled es)
    unfolding handle_active AllMapped Behaved loop_has_channel
    handle_active_lem [] r ra d h m s = (r, refl, s, ra, sym (append-nil r.handled))
    handle_active_lem ((addr, rev) ∷ es) r ra d h m s =
        let r₀ : Reactor K = record r {
          current = some addr;
          handled = r.handled ++ ((addr, true) ∷ []);
        } in
        let (r₁, e₁, u) =
          act_all_lem registered ctl IsLive laws (handler addr rev) addr active r₀ ra refl h.0.2
            (record { agrees = s.agrees; own_fds = s.own_fds; distinct = s.distinct }) in
        let (r₂, e₂, s₂, a₂, l₂) =
          handle_active_lem es r₁ (u.frame.active ∙ ra) d.1 h.1
            (AllMapped-Acted addr es r₀ r₁ d.0 h.1 u (remap es m.1)) u.sound in
        (
          r₂,
          rw (has_channel-true addr (r.channel_at addr) r.poller m.0, e₁, e₂) refl,
          s₂,
          a₂,
          l₂
              ∙ ap (λ l. l ++ all_handled es) u.frame.handled
              ∙ append_assoc r.handled ((addr, true) ∷ []) (all_handled es),
        )
      where
        remap :
            (es : List (ℕ × Revents))
            → AllMapped es r
            → AllMapped es
                (record r { current = some addr; handled = r.handled ++ ((addr, true) ∷ []) })
        remap [] m = tt
        remap (e ∷ es) m = (m.0, remap es m.1)

    Reported-AllMapped :
        (es : List (ℕ × Revents)) (r : Reactor K)
        → Reported registered ctl r.channel_at r.poller es
        → AllMapped es r
    unfolding AllMapped
    Reported-AllMapped [] r h = tt
    Reported-AllMapped ((addr, rev) ∷ es) r (g, (w, on), rest) = (
      in_map registered ctl r.channel_at r.poller (r.channel_at addr).index addr (r.channel_at addr)
          w g on,
      Reported-AllMapped es r rest,
    )

    -- A larger event array changes nothing.
    polled-Sound :
        (r : Reactor K) (p : Poller K)
        → p.channels ≡ r.poller.channels
        → p.interest ≡ r.poller.interest
        → Sound registered ctl IsLive r
        → Sound registered ctl IsLive (record r { active = active; poller = p; handling = true })
    polled-Sound r p ec ei s = record {
      agrees = λ a l. by_index (r.channel_at a).index a (r.channel_at a) (s.agrees a l);
      own_fds = s.own_fds;
      distinct = subst Distinct (sym ec) s.distinct;
    }
      where
        by_index :
            (i : Index) (a : ℕ) (c : Channel)
            → AgreesAt registered ctl i a c r.poller
            → AgreesAt registered ctl i a c p
        by_index new a c g = (ap (find c.fd) ec ∙ g.0, ap (λ k. registered k c.fd) ei ∙ g.1)
        by_index added a c g = (ap (find c.fd) ec ∙ g.0, ap (λ k. registered k c.fd) ei ∙ g.1)
        by_index deleted a c g = (ap (find c.fd) ec ∙ g.0, ap (λ k. registered k c.fd) ei ∙ g.1)

    polled-AllMapped :
        (es : List (ℕ × Revents)) (r : Reactor K) (p : Poller K)
        → p.channels ≡ r.poller.channels
        → AllMapped es r
        → AllMapped es (record r { active = active; poller = p; handling = true })
    unfolding AllMapped
    polled-AllMapped [] r p e m = tt
    polled-AllMapped ((a, rev) ∷ es) r p e m =
        (ap (find (r.channel_at a).fd) e ∙ m.0, polled-AllMapped es r p e m.1)

  -- A round of the loop with its poller. If the live channels have different descriptors and agree
  -- with the poller's map, whose keys are distinct, and with a kernel that does what epoll_ctl(2)
  -- documents, each event that `epoll_wait` reports is that of another live channel on the
  -- kernel's list, as many as the event array holds, which is not empty, and each handler changes
  -- live channels and takes off only its own or ones that are not active, then the round does not
  -- abort, `handleEvent` of each reported channel begins once, in order, while the poller still
  -- has that channel, and the live channels agree again.
  pub handle_round_lem :
      (handler : ℕ → Revents → List Action) (es : List (ℕ × Revents)) (r : Reactor K)
      → Sound registered ctl IsLive r
      → Distinct es
      → Behaved handler es es
      → Reported registered ctl r.channel_at r.poller es
      → length es ≤ r.poller.events_size
      → 0 < r.poller.events_size
      → (r' : Reactor K) × (handle_round ctl handler (happened es) r ≡ some r')
        × Sound registered ctl IsLive r'
        × (r'.handled ≡ r.handled ++ all_handled es)
        × (r'.current ≡ none)
        × (r'.handling ≡ false)
  unfolding handle_round
  handle_round_lem handler es r s d h rep fits room =
      let (p, polled, ec, ei, _, _) =
        poll_lem registered ctl r.channel_at r.poller es rep fits room in
      let (r', e, s', _, log) =
        handle_active_lem handler es es (record r { active = es; poller = p; handling = true }) refl
          d h (polled-AllMapped handler es es r p ec (Reported-AllMapped handler es es r rep))
          (polled-Sound handler es r p ec ei s) in
      (
        record r' { current = none; handling = false },
        rw (polled, e) refl,
        record { agrees = s'.agrees; own_fds = s'.own_fds; distinct = s'.distinct },
        log,
        refl,
        refl,
      )
