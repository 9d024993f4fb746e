-- ===== src/EventLoop/Reactor/Watched.antt =====
-- The channels that a loop watches, through every change of them.
use proto_rpc.Prelude.{
  ℕ, ◌≡◌, ◌≢◌, refl, ap, sym, subst, ◌∙◌, true, false, not, ◌||◌, Option, none, some, ==_refl,
  arith, ℕ_discrete,
}
use proto_rpc.StdMap.{find, Distinct}
use proto_rpc.Channel.{Channel, Events, Index, new, added, deleted, disable_all, is_none_event}
use proto_rpc.Poller.{may_destroy, Poller, CtlOp}
use proto_rpc.Poller.Interest.{
  IsEpoll, Agrees, AgreesAt, Apart, channel_update-Kept, channel_remove_lem, has_channel-false,
}
use proto_rpc.EventLoop.Reactor.{
  Reactor, set_at, may_remove, stored, loop_update, loop_remove, take_off,
}

set_at_self : (a : ℕ) (c : Channel) (mem : ℕ → Channel) → set_at a c mem a ≡ c
set_at_self a c mem = rw (==_refl a) refl

set_at_other : (a b : ℕ) (c : Channel) (mem : ℕ → Channel) → a ≢ b → set_at b c mem a ≡ mem a
set_at_other a b c mem h = ground arith

module _ {K : Type 0} (registered : K → ℕ → Option Events) (ctl : CtlOp → ℕ → Events → K → Option K)
    (IsLive : ℕ → Type 0) where
  -- The live channels agree with the poller and the kernel, and no two have one descriptor.
  pub record Sound (r : Reactor K) : Type 0 where
    pub agrees : (a : ℕ) → IsLive a → Agrees registered ctl a (r.channel_at a) r.poller
    pub own_fds :
        (a b : ℕ) → IsLive a → IsLive b → a ≢ b → (r.channel_at a).fd ≢ (r.channel_at b).fd
    pub distinct : Distinct r.poller.channels

  abbrev pub Mapped : ℕ → Reactor K → Type 0
  Mapped a r = find (r.channel_at a).fd r.poller.channels ≡ some a

  -- What an action leaves as it is.
  pub record Frame (r r' : Reactor K) : Type 0 where
    pub active : r'.active ≡ r.active
    pub current : r'.current ≡ r.current
    pub handling : r'.handling ≡ r.handling
    pub handled : r'.handled ≡ r.handled

  pub Frame-trans : {r r' r'' : Reactor K} → Frame r r' → Frame r' r'' → Frame r r''
  Frame-trans f g = record {
    active = g.active ∙ f.active;
    current = g.current ∙ f.current;
    handling = g.handling ∙ f.handling;
    handled = g.handled ∙ f.handled;
  }

  AgreesAt-Apart :
      (i : Index) (a fd : ℕ) (c : Channel) (p p' : Poller K)
      → c.fd ≢ fd
      → Apart registered ctl fd p p'
      → AgreesAt registered ctl i a c p
      → AgreesAt registered ctl i a c p'
  AgreesAt-Apart new a fd c p p' h s g = (s.map_same c.fd h ∙ g.0, s.kernel_same c.fd h ∙ g.1)
  AgreesAt-Apart added a fd c p p' h s g = (s.map_same c.fd h ∙ g.0, s.kernel_same c.fd h ∙ g.1)
  AgreesAt-Apart deleted a fd c p p' h s g = (s.map_same c.fd h ∙ g.0, s.kernel_same c.fd h ∙ g.1)

  -- One channel and the poller changed, apart from the others.
  stored-Sound :
      (b : ℕ) (r : Reactor K) (c : Channel) (p : Poller K)
      → IsLive b
      → Sound r
      → c.fd ≡ (r.channel_at b).fd
      → Agrees registered ctl b c p
      → Apart registered ctl (r.channel_at b).fd r.poller p
      → Distinct p.channels
      → Sound (stored ctl b r (c, p))
  unfolding stored
  stored-Sound b r c p live s same g apart d = record {
    agrees = λ a l. elim (ℕ_discrete a b) [
      | yes e ↦
          subst (λ a. Agrees registered ctl a (set_at b c r.channel_at a) p) (sym e)
            (subst (λ c. Agrees registered ctl b c p) (sym (set_at_self b c r.channel_at)) g)
      | no n ↦
          subst (λ c. Agrees registered ctl a c p) (sym (set_at_other a b c r.channel_at n))
            (AgreesAt-Apart (r.channel_at a).index a (r.channel_at b).fd (r.channel_at a) r.poller p
              (s.own_fds a b l live n) apart (s.agrees a l))
    ];
    own_fds = λ x y lx ly n. rw (fd_same x, fd_same y) (s.own_fds x y lx ly n);
    distinct = d;
  }
    where
      fd_same : (a : ℕ) → (set_at b c r.channel_at a).fd ≡ (r.channel_at a).fd
      fd_same a = elim (ℕ_discrete a b) [
        | yes e ↦
            subst (λ a. (set_at b c r.channel_at a).fd ≡ (r.channel_at a).fd) (sym e)
              (ap (λ c. c.fd) (set_at_self b c r.channel_at) ∙ same)
        | no n ↦ ap (λ c. c.fd) (set_at_other a b c r.channel_at n)
      ]

  stored-Mapped :
      (a b : ℕ) (r : Reactor K) (c : Channel) (p : Poller K)
      → a ≢ b
      → IsLive a
      → IsLive b
      → Sound r
      → Apart registered ctl (r.channel_at b).fd r.poller p
      → Mapped a r
      → Mapped a (stored ctl b r (c, p))
  unfolding stored
  stored-Mapped a b r c p n la lb s apart m =
      ap (λ c. find c.fd p.channels) (set_at_other a b c r.channel_at n)
      ∙ apart.map_same (r.channel_at a).fd (s.own_fds a b la lb n)
      ∙ m

  module _ (laws : IsEpoll registered ctl) where
    pub record Updated (change : Events → Events) (b : ℕ) (r r' : Reactor K) : Type 0 where
      pub sound : Sound r'
      pub frame : Frame r r'
      pub mapped : Mapped b r'
      pub others : (a : ℕ) → IsLive a → Mapped a r → Mapped a r'
      pub same_fd : (r'.channel_at b).fd ≡ (r.channel_at b).fd
      pub events : (r'.channel_at b).events ≡ change (r.channel_at b).events

    pub loop_update_lem :
        (change : Events → Events) (b : ℕ) (r : Reactor K)
        → IsLive b
        → Sound r
        → (r' : Reactor K) × (loop_update ctl change b r ≡ some r') × Updated change b r r'
    unfolding loop_update stored
    loop_update_lem change b r live s =
        let k =
          channel_update-Kept registered ctl laws change b (r.channel_at b) r.poller
            (s.agrees b live) in
        let self = set_at_self b k.channel r.channel_at in
        let mapped : Mapped b (stored ctl b r (k.channel, k.poller)) =
          ap (λ c. find c.fd k.poller.channels) self ∙ k.mapped in
        (
          stored ctl b r (k.channel, k.poller),
          rw k.result refl,
          record {
            sound =
                stored-Sound b r k.channel k.poller live s k.same_fd k.agrees k.apart
                  (k.distinct s.distinct);
            frame = record { active = refl; current = refl; handling = refl; handled = refl };
            mapped = mapped;
            others = λ a l m. elim (ℕ_discrete a b) [
              | yes e ↦ subst (λ a. Mapped a (stored ctl b r (k.channel, k.poller))) (sym e) mapped
              | no n ↦ stored-Mapped a b r k.channel k.poller n l live s k.apart m
            ];
            same_fd = ap (λ c. c.fd) self ∙ k.same_fd;
            events = ap (λ c. c.events) self ∙ k.same_events;
          },
        )

    pub record Removed (b : ℕ) (r r' : Reactor K) : Type 0 where
      pub sound : Sound r'
      pub frame : Frame r r'
      pub free : may_destroy false b (r'.channel_at b) r'.poller ≡ true
      pub gone : find (r.channel_at b).fd r'.poller.channels ≡ none
      pub others : (a : ℕ) → IsLive a → a ≢ b → Mapped a r → Mapped a r'

    -- A mapped channel that watches nothing.
    loop_remove_lem :
        (b : ℕ) (r : Reactor K)
        → IsLive b
        → Sound r
        → Mapped b r
        → is_none_event (r.channel_at b) ≡ true
        → may_remove b r ≡ true
        → (r' : Reactor K) × (loop_remove ctl b r ≡ some r') × Removed b r r'
    unfolding loop_remove stored may_destroy
    loop_remove_lem b r live s m off may =
        let (p', e, gone, off_kernel, apart, d) =
          channel_remove_lem registered ctl laws b (r.channel_at b) r.poller s.distinct
            (s.agrees b live) (not_new (r.channel_at b).index (s.agrees b live)) off in
        let c' : Channel = record (r.channel_at b) { index = new; added_to_loop = false } in
        (
          stored ctl b r (c', p'),
          rw (off, may, e) refl,
          record {
            sound = stored-Sound b r c' p' live s refl (gone, off_kernel) apart d;
            frame = record { active = refl; current = refl; handling = refl; handled = refl };
            free =
                ap (λ c. may_destroy false b c p') (set_at_self b c' r.channel_at)
                ∙ ap not (has_channel-false b c' p' gone);
            gone = gone;
            others = λ a l n m. stored-Mapped a b r c' p' n l live s apart m;
          },
        )
      where
        none_some : none ≡ some b → ⊥
        none_some e = cc

        not_new : (i : Index) → AgreesAt registered ctl i b (r.channel_at b) r.poller → i ≡ new → ⊥
        not_new new g e = none_some (sym g.0 ∙ m)
        not_new added g e = cc
        not_new deleted g e = cc

    may_remove-Frame :
        (b : ℕ) (r r' : Reactor K) → Frame r r' → may_remove b r ≡ true → may_remove b r' ≡ true
    unfolding may_remove
    may_remove-Frame b r r' f h = rw (f.handling, f.current, f.active) h

    -- If the live channels have different descriptors and agree with the poller's map, whose keys
    -- are distinct, and with a kernel that does what epoll_ctl(2) documents, and the assertion of
    -- `removeChannel` allows it, then `disableAll` and then `remove` of a live channel do not
    -- abort, whatever it watched: the live channels agree again, the map has its descriptor no
    -- more and each other live channel that it had, what is active and handled stays, and the
    -- assertions of the channel's destructor hold while its `handleEvent` does not run.
    pub take_off_lem :
        (b : ℕ) (r : Reactor K)
        → IsLive b
        → Sound r
        → may_remove b r ≡ true
        → (r' : Reactor K) × (take_off ctl b r ≡ some r') × Removed b r r'
    unfolding take_off disable_all
    take_off_lem b r live s may =
        let (r₁, e₁, u) = loop_update_lem disable_all b r live s in
        let (r₂, e₂, v) =
          loop_remove_lem b r₁ live u.sound u.mapped (ap (λ e. not (e.read || e.write)) u.events)
            (may_remove-Frame b r r₁ u.frame may) in
        (
          r₂,
          rw (e₁, e₂) refl,
          record {
            sound = v.sound;
            frame = Frame-trans u.frame v.frame;
            free = v.free;
            gone = ap (λ fd. find fd r₂.poller.channels) (sym u.same_fd) ∙ v.gone;
            others = λ a l n m. v.others a l n (u.others a l m);
          },
        )
