-- ===== src/Tests/RoundTests.antt =====
-- A round over two channels, the first of which takes itself off the loop and changes the second.
use proto_rpc.Prelude.{
  ℕ, ◌≡◌, refl, sym, subst, true, false, none, some, List, [], ◌∷◌, ◌++◌, ◌==◌, if◌then◌else◌, ◌⊎◌,
  inl, inr, arith,
}
use proto_rpc.StdMap.{find}
use proto_rpc.Channel.{Channel, Events, Revents, enable_writing, added}
use proto_rpc.Poller.{happened}
use proto_rpc.Poller.Interest.{Agrees}
use proto_rpc.Poller.Active.{Reported}
use proto_rpc.EventLoop.Reactor.{
  Reactor, Action, changes, takes_off, is_active, handle_round, take_off, may_remove,
}
use proto_rpc.EventLoop.Reactor.Watched.{Sound, Removed, take_off_lem}
use proto_rpc.EventLoop.Reactor.Actions.{AllAllowed, Allowed}
use proto_rpc.EventLoop.Reactor.Round.{all_handled, Behaved, handle_round_lem}
use proto_rpc.Tests.PollerTests.{Table, registered, put, table_ctl, table-IsEpoll, readable}

abbrev reading : Events
reading = record { read = true; write = false }

abbrev watched : ℕ → Channel
watched a = record { fd = a; events = reading; index = added; added_to_loop = true }

abbrev two_watched : Reactor Table
two_watched = record {
  poller = record {
    channels = (5, 5) ∷ (6, 6) ∷ [];
    interest = put 5 (some reading) (put 6 (some reading) (λ j. none));
    events_size = 16;
  };
  channel_at = watched;
  active = [];
  current = none;
  handling = false;
  handled = [];
}

abbrev IsLive : ℕ → Type 0
IsLive a = (a ≡ 5) ⊎ (a ≡ 6)

two_watched-Sound : Sound registered table_ctl IsLive two_watched
unfolding find
two_watched-Sound = record {
  agrees = λ a l. elim l [
    | inl e ↦
        subst (λ a. Agrees registered table_ctl a (watched a) two_watched.poller) (sym e)
          (refl, refl)
    | inr e ↦
        subst (λ a. Agrees registered table_ctl a (watched a) two_watched.poller) (sym e)
          (refl, refl)
  ];
  own_fds = λ a b la lb n. n;
  distinct = ((omega arith, tt), (tt, tt));
}

abbrev two_active : List (ℕ × Revents)
two_active = (5, readable) ∷ (6, readable) ∷ []

abbrev handler : ℕ → Revents → List Action
handler a r =
    if a == 5 then changes enable_writing 6 ∷ takes_off 5 ∷ [] else changes enable_writing 6 ∷ []

two_active-Behaved : Behaved registered table_ctl IsLive table-IsEpoll handler two_active two_active
unfolding Behaved AllAllowed Allowed is_active
two_active-Behaved = (
  (inl refl, refl, (inr refl, ((inl refl, inl refl), tt))),
  ((inr refl, refl, (inr refl, tt)), tt),
)

two_active-Reported : Reported registered table_ctl watched two_watched.poller two_active
unfolding find
two_active-Reported = ((refl, refl), (reading, refl), ((refl, refl), (reading, refl), tt))

handle_round_lem_example :
    (r' : Reactor Table) × (handle_round table_ctl handler (happened two_active) two_watched
      ≡ some r')
    × Sound registered table_ctl IsLive r'
    × (r'.handled ≡ [] ++ all_handled two_active)
    × (r'.current ≡ none)
    × (r'.handling ≡ false)
handle_round_lem_example =
    handle_round_lem registered table_ctl IsLive table-IsEpoll handler two_active two_watched
      two_watched-Sound ((omega arith, tt), (tt, tt)) two_active-Behaved two_active-Reported
      (omega arith) (omega arith)

take_off_lem_example :
    (r' : Reactor Table) × (take_off table_ctl 5 two_watched ≡ some r')
    × Removed registered table_ctl IsLive table-IsEpoll 5 two_watched r'
unfolding may_remove
take_off_lem_example =
    take_off_lem registered table_ctl IsLive table-IsEpoll 5 two_watched (inl refl)
      two_watched-Sound refl
