-- ===== src/Tests/PollerTests.antt =====
-- A kernel whose interest list is a function of the descriptor.
use proto_rpc.Prelude.{
  ◌≤◌, ◌<◌, ℕ, ◌≡◌, refl, [], ◌∷◌, Option, none, some, arith, true, false, ◌==◌, ==_refl,
  if◌then◌else◌,
}
use proto_rpc.StdMap.{find}
use proto_rpc.Channel.{Revents, Channel, Events, none_event, enable_reading, new, added}
use proto_rpc.Poller.{Poller, CtlOp, ctl_add, ctl_mod, ctl_del, channel_update, poll, happened}
use proto_rpc.Poller.Active.{poll_lem}
use proto_rpc.Poller.Interest.{IsEpoll, Agrees, Kept, KeepsOthers, channel_update-Kept}

abbrev pub Table : Type 0
Table = ℕ → Option Events

abbrev pub registered : Table → ℕ → Option Events
registered k fd = k fd

abbrev pub put : ℕ → Option Events → Table → Table
put fd entry k = λ j. if j == fd then entry else k j

abbrev pub table_ctl : CtlOp → ℕ → Events → Table → Option Table
table_ctl ctl_add fd e k = elim (k fd) [ none ↦ some (put fd (some e) k) | some old ↦ none ]
table_ctl ctl_mod fd e k = elim (k fd) [ none ↦ none | some old ↦ some (put fd (some e) k) ]
table_ctl ctl_del fd e k = elim (k fd) [ none ↦ none | some old ↦ some (put fd none k) ]

put-others :
    (fd : ℕ) (entry : Option Events) (k : Table)
    → KeepsOthers registered table_ctl fd k (put fd entry k)
put-others fd entry k j h = ground arith

pub table-IsEpoll : IsEpoll registered table_ctl
table-IsEpoll = record {
  add_law =
      λ k fd e h. (put fd (some e) k, rw (h, table_ctl), rw (==_refl fd), put-others fd (some e) k);
  mod_law = λ k fd e old h.
      (put fd (some e) k, rw (h, table_ctl), rw (==_refl fd), put-others fd (some e) k);
  del_law =
      λ k fd e old h. (put fd none k, rw (h, table_ctl), rw (==_refl fd), put-others fd none k);
}

abbrev fresh : Channel
fresh = record { fd = 5; events = none_event; index = new; added_to_loop = false }

abbrev idle : Poller Table
idle = record { channels = []; interest = λ j. none; events_size = 16 }

fresh-Agrees : Agrees registered table_ctl 100 fresh idle
unfolding find
fresh-Agrees = (refl, refl)

channel_update-Kept_example :
    Kept registered table_ctl 100
      (record fresh { events = enable_reading none_event; added_to_loop = true })
      idle
      (channel_update table_ctl enable_reading 100 fresh idle)
channel_update-Kept_example =
    channel_update-Kept registered table_ctl table-IsEpoll enable_reading 100 fresh idle
      fresh-Agrees

-- A channel that is still on the kernel's list.
abbrev stale : Channel
stale = record { fd = 5; events = none_event; index = added; added_to_loop = true }

abbrev watching : Poller Table
watching = record {
  channels = (5, 100) ∷ [];
  interest = put 5 (some none_event) (λ j. none);
  events_size = 16;
}

stale-Agrees : Agrees registered table_ctl 100 stale watching
unfolding find
stale-Agrees = (refl, refl)

abbrev pub readable : Revents
readable = record {
  pollin = true;
  pollpri = false;
  pollout = false;
  pollerr = false;
  pollhup = false;
  pollnval = false;
  pollrdhup = false;
}

poll_lem_example :
    (p' : Poller Table) × (poll (λ addr. stale) (happened ((100, readable) ∷ [])) watching
      ≡ some ((100, readable) ∷ [], p'))
    × (p'.channels ≡ watching.channels)
    × (p'.interest ≡ watching.interest)
    × (16 ≤ p'.events_size)
    × (1 < p'.events_size)
poll_lem_example =
    poll_lem registered table_ctl (λ addr. stale) watching ((100, readable) ∷ [])
      (stale-Agrees, (none_event, refl), tt) (omega arith) (omega arith)
