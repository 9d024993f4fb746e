-- ===== src/Poller/Interest.antt =====
-- The map, the kernel's interest list and each channel's `index_` agree, so that no assertion of
-- Poller.cc fails and no `epoll_ctl` of it does.
use proto_rpc.Prelude.{
  ℕ, ◌≡◌, ◌≢◌, refl, ap, sym, subst, ◌∙◌, true, false, Option, none, some, arith, ==_refl,
  Bool-cases, inl, inr,
}
use proto_rpc.StdMap.{
  find, assign, erase, Distinct, Distinct-assign, Distinct-erase, find-none-AllKeys, find-assign,
  find-erase_self, find-erase_ne,
}
use proto_rpc.Channel.{Channel, Events, Index, new, added, deleted, is_none_event}
use proto_rpc.Poller.{
  CtlOp, ctl_add, ctl_mod, ctl_del, Poller, has_channel, absent, is_new, is_added, after_ctl,
  update, refresh, update_at, update_channel, remove_channel, channel_update, channel_remove,
}

module _ {K : Type 0} where
  absent-true : (c : Channel) (p : Poller K) → find c.fd p.channels ≡ none → absent c p ≡ true
  unfolding absent
  absent-true c p e = rw (e, absent)

  pub has_channel-true :
      (addr : ℕ) (c : Channel) (p : Poller K)
      → find c.fd p.channels ≡ some addr
      → has_channel addr c p ≡ true
  unfolding has_channel
  has_channel-true addr c p e = rw (e, has_channel) (==_refl addr)

  pub has_channel-false :
      (addr : ℕ) (c : Channel) (p : Poller K)
      → find c.fd p.channels ≡ none
      → has_channel addr c p ≡ false
  unfolding has_channel
  has_channel-false addr c p e = rw (e, has_channel) refl

  update_done :
      (ctl : CtlOp → ℕ → Events → K → Option K) (op : CtlOp) (c : Channel) (p : Poller K) (k' : K)
      → ctl op c.fd c.events p.interest ≡ some k'
      → update ctl op c p ≡ some (record p { interest = k' })
  unfolding update after_ctl
  update_done ctl op c p k' e = rw e

module _ {K : Type 0} (registered : K → ℕ → Option Events)
    (ctl : CtlOp → ℕ → Events → K → Option K) where
  -- A call on `fd` leaves the entries of other descriptors alone.
  abbrev pub KeepsOthers : ℕ → K → K → Type 0
  KeepsOthers fd k k' = (j : ℕ) → j ≢ fd → registered k' j ≡ registered k j

  -- What epoll_ctl(2) documents: ADD succeeds on a descriptor that is not registered, MOD and DEL on
  -- one that is.
  pub record IsEpoll : Type 0 where
    pub add_law :
        (k : K) (fd : ℕ) (e : Events)
        → registered k fd ≡ none
        → (k' : K) × (ctl ctl_add fd e k ≡ some k')
          × (registered k' fd ≡ some e)
          × KeepsOthers fd k k'
    pub mod_law :
        (k : K) (fd : ℕ) (e old : Events)
        → registered k fd ≡ some old
        → (k' : K) × (ctl ctl_mod fd e k ≡ some k')
          × (registered k' fd ≡ some e)
          × KeepsOthers fd k k'
    pub del_law :
        (k : K) (fd : ℕ) (e old : Events)
        → registered k fd ≡ some old
        → (k' : K) × (ctl ctl_del fd e k ≡ some k')
          × (registered k' fd ≡ none)
          × KeepsOthers fd k k'

  -- What each `index_` says of the map and of the kernel.
  abbrev pub AgreesAt : Index → ℕ → Channel → Poller K → Type 0
  AgreesAt new addr c p = (find c.fd p.channels ≡ none) × (registered p.interest c.fd ≡ none)
  AgreesAt added addr c p =
      (find c.fd p.channels ≡ some addr) × (registered p.interest c.fd ≡ some c.events)
  AgreesAt deleted addr c p =
      (find c.fd p.channels ≡ some addr) × (registered p.interest c.fd ≡ none)

  abbrev pub Agrees : ℕ → Channel → Poller K → Type 0
  Agrees addr c p = AgreesAt c.index addr c p

  -- Nothing changed for the other descriptors.
  pub record Apart (fd : ℕ) (p p' : Poller K) : Type 0 where
    pub map_same : (j : ℕ) → j ≢ fd → find j p'.channels ≡ find j p.channels
    pub kernel_same : KeepsOthers fd p.interest p'.interest

  -- An operation on `c` did not abort: its channel, its poller, and that they agree.
  pub record Kept (addr : ℕ) (c : Channel) (p : Poller K) (r : Option (Channel × Poller K))
      : Type 0 where
    pub channel : Channel
    pub poller : Poller K
    pub result : r ≡ some (channel, poller)
    pub agrees : Agrees addr channel poller
    pub mapped : find channel.fd poller.channels ≡ some addr
    pub distinct : Distinct p.channels → Distinct poller.channels
    pub apart : Apart c.fd p poller
    pub same_fd : channel.fd ≡ c.fd
    pub same_events : channel.events ≡ c.events

  other :
      (addr : ℕ) (c : Channel) (p : Poller K) (j : ℕ)
      → j ≢ c.fd
      → find j (assign c.fd addr p.channels) ≡ find j p.channels
  other addr c p j h = ground (arith, find-assign c.fd j addr p.channels)

  module _ (laws : IsEpoll) where
    update_at-Kept :
        (i : Index) (addr : ℕ) (c : Channel) (p : Poller K) (old : Events)
        → c.index ≡ i
        → AgreesAt i addr (record c { events = old }) p
        → Kept addr c p (update_at ctl i addr c p)
    unfolding update_at refresh
    update_at-Kept new addr c p old ix a =
        let (k', e, r, o) = laws.add_law p.interest c.fd c.events a.1 in
        record {
          channel = record c { index = added };
          poller = record p { channels = assign c.fd addr p.channels; interest = k' };
          result = rw (
            absent-true c p a.0,
            update_done ctl ctl_add (record c { index = added })
                (record p { channels = assign c.fd addr p.channels }) k' e,
          );
          agrees = (find-assign c.fd c.fd addr p.channels ∙ rw (==_refl c.fd), r);
          mapped = find-assign c.fd c.fd addr p.channels ∙ rw (==_refl c.fd);
          distinct = Distinct-assign c.fd addr p.channels (find-none-AllKeys c.fd p.channels a.0);
          apart = record { map_same = λ j h. other addr c p j h; kernel_same = o };
          same_fd = refl;
          same_events = refl;
        }
    update_at-Kept deleted addr c p old ix a =
        let (k', e, r, o) = laws.add_law p.interest c.fd c.events a.1 in
        record {
          channel = record c { index = added };
          poller = record p { interest = k' };
          result = rw (
            has_channel-true addr c p a.0,
            update_done ctl ctl_add (record c { index = added }) p k' e,
          );
          agrees = (a.0, r);
          mapped = a.0;
          distinct = λ d. d;
          apart = record { map_same = λ j h. refl; kernel_same = o };
          same_fd = refl;
          same_events = refl;
        }
    update_at-Kept added addr c p old ix a = elim (Bool-cases (is_none_event c)) [
      | inl off ↦
          let (k', e, r, o) = laws.del_law p.interest c.fd c.events old a.1 in
          record {
            channel = record c { index = deleted };
            poller = record p { interest = k' };
            result = rw (has_channel-true addr c p a.0, off, update_done ctl ctl_del c p k' e);
            agrees = (a.0, r);
            mapped = a.0;
            distinct = λ d. d;
            apart = record { map_same = λ j h. refl; kernel_same = o };
            same_fd = refl;
            same_events = refl;
          }
      | inr on ↦
          let (k', e, r, o) = laws.mod_law p.interest c.fd c.events old a.1 in
          record {
            channel = c;
            poller = record p { interest = k' };
            result = rw (has_channel-true addr c p a.0, on, update_done ctl ctl_mod c p k' e);
            agrees = subst (λ i. AgreesAt i addr c (record p { interest = k' })) (sym ix) (a.0, r);
            mapped = a.0;
            distinct = λ d. d;
            apart = record { map_same = λ j h. refl; kernel_same = o };
            same_fd = refl;
            same_events = refl;
          }
    ]

    -- If the poller's map, the kernel's interest list and the channel's index agree, and the
    -- kernel does what epoll_ctl(2) documents, then after any change of the channel's events
    -- `Channel::update` aborts at no assertion and no `epoll_ctl` of it fails, the three agree
    -- again, the channel keeps its descriptor and the changed events, and nothing changes for
    -- other descriptors.
    pub channel_update-Kept :
        (change : Events → Events) (addr : ℕ) (c : Channel) (p : Poller K)
        → Agrees addr c p
        → Kept addr
            (record c { events = change c.events; added_to_loop = true })
            p
            (channel_update ctl change addr c p)
    unfolding channel_update update_channel
    channel_update-Kept change addr c p a =
        update_at-Kept c.index addr (record c { events = change c.events; added_to_loop = true }) p
          c.events refl (moved c.index a)
      where
        moved :
            (i : Index)
            → AgreesAt i addr c p
            → AgreesAt i addr (record c { events = c.events; added_to_loop = true }) p
        moved new a = a
        moved added a = a
        moved deleted a = a

    -- If the poller's map, whose keys are distinct, the kernel's interest list and the index of a
    -- channel that was added and watches nothing agree, and the kernel does what epoll_ctl(2)
    -- documents, then `Channel::remove` does not abort, the index is `kNew` again, neither the map
    -- nor the kernel has the descriptor, nothing changes for other descriptors, and the keys of
    -- the map stay distinct.
    pub channel_remove_lem :
        (addr : ℕ) (c : Channel) (p : Poller K)
        → Distinct p.channels
        → Agrees addr c p
        → c.index ≢ new
        → is_none_event c ≡ true
        → (p' : Poller K) × (channel_remove ctl addr c p
            ≡ some (record c { index = new; added_to_loop = false }, p'))
          × (find c.fd p'.channels ≡ none)
          × (registered p'.interest c.fd ≡ none)
          × Apart c.fd p p'
          × Distinct p'.channels
    unfolding channel_remove remove_channel is_new is_added
    channel_remove_lem addr c p d a ne off = remove_at c.index refl a
      where
        others_stay : (j : ℕ) → j ≢ c.fd → find j (erase c.fd p.channels) ≡ find j p.channels
        others_stay j h = find-erase_ne c.fd j p.channels (λ e. h (sym e))

        remove_at :
            (i : Index)
            → c.index ≡ i
            → AgreesAt i addr c p
            → (p' : Poller K) × (channel_remove ctl addr c p
                ≡ some (record c { index = new; added_to_loop = false }, p'))
              × (find c.fd p'.channels ≡ none)
              × (registered p'.interest c.fd ≡ none)
              × Apart c.fd p p'
              × Distinct p'.channels
        remove_at new ix a = absurd (ne ix)
        remove_at added ix a =
            let erased = record p { channels = erase c.fd p.channels } in
            let (k', e, r, o) = laws.del_law p.interest c.fd c.events c.events a.1 in
            (
              record erased { interest = k' },
              rw (
                off,
                has_channel-true addr (record c { added_to_loop = false }) p a.0,
                ap is_new ix,
                ap is_added ix,
                update_done ctl ctl_del (record c { added_to_loop = false }) erased k' e,
              ),
              find-erase_self c.fd p.channels d,
              r,
              record { map_same = λ j h. others_stay j h; kernel_same = o },
              Distinct-erase c.fd p.channels d,
            )
        remove_at deleted ix a = (
          record p { channels = erase c.fd p.channels },
          rw (
            off,
            has_channel-true addr (record c { added_to_loop = false }) p a.0,
            ap is_new ix,
            ap is_added ix,
          ),
          find-erase_self c.fd p.channels d,
          a.1,
          record { map_same = λ j h. others_stay j h; kernel_same = λ j h. refl },
          Distinct-erase c.fd p.channels d,
        )
