-- ===== src/Poller/Active.antt =====
-- The wait for events in network/src/Poller.cc, on channels that agree with the kernel.
use proto_rpc.Prelude.{
  ℕ, ◌*◌, ◌≤◌, ◌<◌, ◌≡◌, refl, true, false, Option, some, List, [], ◌∷◌, arith, length, le→leb,
  ◌==◌, if◌then◌else◌, Bool, ==_iff,
}
use proto_rpc.StdMap.{find}
use proto_rpc.Channel.{Channel, Events, Revents, Index, new, added, deleted}
use proto_rpc.Poller.{
  CtlOp, Poller, happened, active_channels, fill_active_channels, poll, grow_events,
}
use proto_rpc.Poller.Interest.{Agrees, AgreesAt, has_channel-true}

module _ {K : Type 0} (registered : K → ℕ → Option Events) (ctl : CtlOp → ℕ → Events → K → Option K)
    (channel_at : ℕ → Channel) (p : Poller K) where
  -- Each event is that of a channel that agrees with the poller and the kernel, and that the kernel
  -- has on its list.
  abbrev pub Reported : List (ℕ × Revents) → Type 0
  Reported [] = Unit {0}
  Reported ((addr, r) ∷ es) =
      Agrees registered ctl addr (channel_at addr) p
      × ((w : Events) × (registered p.interest (channel_at addr).fd ≡ some w))
      × Reported es

  pub in_map :
      (i : Index) (addr : ℕ) (c : Channel) (w : Events)
      → AgreesAt registered ctl i addr c p
      → registered p.interest c.fd ≡ some w
      → find c.fd p.channels ≡ some addr
  in_map new addr c w a h = absurd (cc)
  in_map added addr c w a h = a.0
  in_map deleted addr c w a h = absurd (cc)

  active_channels_all :
      (es : List (ℕ × Revents)) → Reported es → active_channels channel_at es p ≡ some es
  unfolding active_channels
  active_channels_all [] h = refl
  active_channels_all ((addr, r) ∷ es) (a, (w, on), rest) =
      rw
        (
          has_channel-true addr (channel_at addr) p
              (in_map (channel_at addr).index addr (channel_at addr) w a on),
          active_channels_all es rest,
        )
        refl

  -- If each event that `epoll_wait` reports is that of a channel that agrees with the poller's map
  -- and the kernel's interest list and is on that list, and at most as many are reported as the
  -- event array holds, which is not empty, then `poll` does not abort, the active channels are
  -- those reported, in order, the map and the interest list stay, and the event array does not
  -- shrink and has room for more events than came.
  pub poll_lem :
      (es : List (ℕ × Revents))
      → Reported es
      → length es ≤ p.events_size
      → 0 < p.events_size
      → (p' : Poller K) × (poll channel_at (happened es) p ≡ some (es, p'))
        × (p'.channels ≡ p.channels)
        × (p'.interest ≡ p.interest)
        × (p.events_size ≤ p'.events_size)
        × (length es < p'.events_size)
  unfolding poll fill_active_channels grow_events
  poll_lem [] h fits some_room = (p, refl, refl, refl, omega arith, omega arith)
  poll_lem (e ∷ es) h fits some_room =
      rw (le→leb (length (e ∷ es)) p.events_size fits, active_channels_all (e ∷ es) h)
        (by_size (length (e ∷ es) == p.events_size) (==_iff (length (e ∷ es)) p.events_size).0
          (==_iff (length (e ∷ es)) p.events_size).1)
    where
      grown : Bool → Poller K
      grown full = if full then record p { events_size = p.events_size * 2 } else p

      by_size :
          (full : Bool)
          → (full ≡ true → length (e ∷ es) ≡ p.events_size)
          → (length (e ∷ es) ≡ p.events_size → full ≡ true)
          → (p' : Poller K) × (◌≡◌ {A = Option (List (ℕ × Revents) × Poller K)}
              (some (e ∷ es, grown full))
              (some (e ∷ es, p')))
            × (p'.channels ≡ p.channels)
            × (p'.interest ≡ p.interest)
            × (p.events_size ≤ p'.events_size)
            × (length (e ∷ es) < p'.events_size)
      by_size true f g = (grown true, refl, refl, refl, omega arith, omega (arith, f refl))
      by_size false f g = (p, refl, refl, refl, omega arith, ground (arith, g))
