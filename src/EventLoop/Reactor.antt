-- ===== src/EventLoop/Reactor.antt =====
-- network/src/EventLoop.cc with its poller: the channels that the loop watches, and a round in which
-- it handles those that are active. A handler is the list of what it does with channels of the loop;
-- `channel_at` is the memory.
pub mod Watched
pub mod Actions
pub mod Round
use proto_rpc.Prelude.{
  ℕ, Bool, true, false, not, ◌||◌, Option, none, some, List, [], ◌∷◌, ◌++◌, ◌==◌, if◌then◌else◌,
  ◌>>=◌, ◌>>◌, assert,
}
use proto_rpc.Channel.{
  Channel, Events, Revents, new_channel, enable_reading, disable_all, is_none_event,
}
use proto_rpc.Poller.{
  Poller, PollAnswer, CtlOp, has_channel, new_poller, channel_update, channel_remove, poll,
}

-- `handled` logs each channel whose `handleEvent` began, and whether the poller had it then.
pub record Reactor (K : Type 0) : Type 0 where
  pub poller : Poller K
  pub channel_at : ℕ → Channel
  pub active : List (ℕ × Revents)
  pub current : Option ℕ
  pub handling : Bool
  pub handled : List (ℕ × Bool)

-- A change of the watched events; `disableAll` and then `remove`, as Connector.cc has them and the
-- destructor of the loop.
pub data Action : Type 0 where
  changes : (Events → Events) → ℕ → Action
  takes_off : ℕ → Action

abbrev pub set_at : ℕ → Channel → (ℕ → Channel) → ℕ → Channel
set_at addr c mem = λ a. if a == addr then c else mem a

pub is_current : Option ℕ → ℕ → Bool
is_current none addr = false
is_current (some a) addr = a == addr

unfoldable pub is_active : ℕ → List (ℕ × Revents) → Bool
is_active addr [] = false
is_active addr ((a, r) ∷ es) = a == addr || is_active addr es

-- What `removeChannel` asserts while events are handled.
unfoldable pub may_remove : {K : Type 0} → ℕ → Reactor K → Bool
may_remove addr r =
    if r.handling then is_current r.current addr || not (is_active addr r.active) else true

module _ {K : Type 0} (ctl : CtlOp → ℕ → Events → K → Option K) where
  stored : ℕ → Reactor K → Channel × Poller K → Reactor K
  stored addr r (c, p) = record r { channel_at = set_at addr c r.channel_at; poller = p }

  -- `Channel::update` by `EventLoop::updateChannel`.
  pub loop_update : (Events → Events) → ℕ → Reactor K → Option (Reactor K)
  loop_update change addr r =
      channel_update ctl change addr (r.channel_at addr) r.poller >>= λ u. some (stored addr r u)

  -- `Channel::remove` by `EventLoop::removeChannel`.
  pub loop_remove : ℕ → Reactor K → Option (Reactor K)
  loop_remove addr r = do
    assert (is_none_event (r.channel_at addr))
    assert (may_remove addr r)
    u ← channel_remove ctl addr (r.channel_at addr) r.poller
    some (stored addr r u)

  pub loop_has_channel : ℕ → Reactor K → Bool
  loop_has_channel addr r = has_channel addr (r.channel_at addr) r.poller

  pub take_off : ℕ → Reactor K → Option (Reactor K)
  take_off addr r = loop_update disable_all addr r >>= loop_remove addr

  -- The constructor, which watches the channel of the eventfd at `addr`, and the destructor.
  pub new_reactor : ℕ → ℕ → (ℕ → Channel) → K → Option (Reactor K)
  new_reactor addr fd mem interest = loop_update enable_reading addr (record {
    poller = new_poller interest;
    channel_at = set_at addr (new_channel fd) mem;
    active = [];
    current = none;
    handling = false;
    handled = [];
  })

  pub destroy_reactor : ℕ → Reactor K → Option (Reactor K)
  destroy_reactor addr r = take_off addr r

  pub act : Action → Reactor K → Option (Reactor K)
  act (changes change addr) r = loop_update change addr r
  act (takes_off addr) r = take_off addr r

  pub act_all : List Action → Reactor K → Option (Reactor K)
  act_all [] r = some r
  act_all (a ∷ todo) r = act a r >>= λ r'. act_all todo r'

  module _ (handler : ℕ → Revents → List Action) where
    -- The loop over the active channels.
    pub handle_active : List (ℕ × Revents) → Reactor K → Option (Reactor K)
    handle_active [] r = some r
    handle_active ((addr, rev) ∷ es) r = do
      r' ← act_all (handler addr rev) (record r {
        current = some addr;
        handled = r.handled ++ ((addr, loop_has_channel addr r) ∷ []);
      })
      handle_active es r'

    -- A round of `loop`, up to `doPendingFunctors`.
    pub handle_round : PollAnswer → Reactor K → Option (Reactor K)
    handle_round answer r = do
      polled ← poll r.channel_at answer r.poller
      r' ←
          handle_active polled.0
            (record r { active = polled.0; poller = polled.1; handling = true })
      some (record r' { current = none; handling = false })
