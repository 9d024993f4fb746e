-- ===== src/Poller.antt =====
-- network/include/network/Poller.h and network/src/Poller.cc: the map of channels and the calls of
-- `epoll_ctl`. The kernel's interest list is not part of the repository: it is a type `K` with
-- `ctl`, whose `none` is a failed call.
pub mod Interest
pub mod Active
use proto_rpc.Prelude.{
  ℕ, Bool, true, false, not, ◌&&◌, ◌||◌, Option, none, some, List, [], ◌∷◌, ◌==◌, if◌then◌else◌,
  ◌>>=◌, ◌>>◌, assert, length, leb, ◌*◌,
}
use proto_rpc.StdMap.{find, assign, erase}
use proto_rpc.Channel.{Revents, Channel, Events, Index, new, added, deleted, is_none_event}

pub data CtlOp : Type 0 where
  ctl_add ctl_mod ctl_del : CtlOp

-- The map holds addresses of channels.
pub record Poller (K : Type 0) : Type 0 where
  pub channels : List (ℕ × ℕ)
  pub interest : K
  pub events_size : ℕ

-- `it != channels_.end() && it->second == channel`.
pub has_channel : {K : Type 0} → ℕ → Channel → Poller K → Bool
has_channel addr c p = elim (find c.fd p.channels) [ none ↦ false | some a ↦ a == addr ]

-- What the destructor of a channel asserts; `handling` says whether its `handleEvent` runs.
unfoldable pub may_destroy : {K : Type 0} → Bool → ℕ → Channel → Poller K → Bool
may_destroy handling addr c p = not handling && (not c.added_to_loop && not (has_channel addr c p))

-- The constructor, on a new interest list.
unfoldable pub new_poller : {K : Type 0} → K → Poller K
new_poller interest = record { channels = []; interest = interest; events_size = 16 }

absent : {K : Type 0} → Channel → Poller K → Bool
absent c p = elim (find c.fd p.channels) [ none ↦ true | some a ↦ false ]

pub is_new : Index → Bool
is_new new = true
is_new _ = false

pub is_added : Index → Bool
is_added added = true
is_added _ = false

module _ {K : Type 0} (ctl : CtlOp → ℕ → Events → K → Option K) where
  -- A failed ADD or MOD is logged as FATAL, which aborts; a failed DEL is logged alone.
  pub after_ctl : CtlOp → Option K → K → Option K
  after_ctl op (some k) old = some k
  after_ctl ctl_del none old = some old
  after_ctl op none old = none

  pub update : CtlOp → Channel → Poller K → Option (Poller K)
  update op c p = do
    k ← after_ctl op (ctl op c.fd c.events p.interest) p.interest
    some (record p { interest = k })

  -- A channel that watches nothing is taken off the kernel's list, and stays in the map.
  refresh : Bool → Channel → Poller K → Option (Channel × Poller K)
  refresh true c p = update ctl_del c p >>= λ p'. some (record c { index = deleted }, p')
  refresh false c p = update ctl_mod c p >>= λ p'. some (c, p')

  -- The branches of `updateChannel` on `index`.
  pub update_at : Index → ℕ → Channel → Poller K → Option (Channel × Poller K)
  update_at new addr c p = do
    assert (absent c p)
    let c' = record c { index = added }
    p' ← update ctl_add c' (record p { channels = assign c.fd addr p.channels })
    some (c', p')
  update_at deleted addr c p = do
    assert (has_channel addr c p)
    let c' = record c { index = added }
    p' ← update ctl_add c' p
    some (c', p')
  update_at added addr c p = do assert (has_channel addr c p); refresh (is_none_event c) c p

  pub update_channel : ℕ → Channel → Poller K → Option (Channel × Poller K)
  update_channel addr c p = update_at c.index addr c p

  pub remove_channel : ℕ → Channel → Poller K → Option (Channel × Poller K)
  remove_channel addr c p = do
    assert (has_channel addr c p)
    assert (is_none_event c)
    assert (not (is_new c.index))
    let p' = record p { channels = erase c.fd p.channels }
    p'' ← if is_added c.index then update ctl_del c p' else some p'
    some (record c { index = new }, p'')

  -- `Channel::update` after a change of `events_`, and `Channel::remove`.
  pub channel_update : (Events → Events) → ℕ → Channel → Poller K → Option (Channel × Poller K)
  channel_update change addr c p =
      update_channel addr (record c { events = change c.events; added_to_loop = true }) p

  pub channel_remove : ℕ → Channel → Poller K → Option (Channel × Poller K)
  channel_remove addr c p = do
    assert (is_none_event c)
    remove_channel addr (record c { added_to_loop = false }) p

-- The size of the event array after `epoll_wait` gave `num_events`, if it gave any: a full array is doubled.
pub grow_events : {K : Type 0} → ℕ → Poller K → Poller K
grow_events n p = if n == p.events_size then record p { events_size = p.events_size * 2 } else p

-- What `epoll_wait` answers: the addresses of channels, which the list holds, with their events; or
-- the errno of a failure.
pub data PollAnswer : Type 0 where
  happened : List (ℕ × Revents) → PollAnswer
  failed_wait : ℕ → PollAnswer

-- The active channels; `channel_at` is the memory.
pub active_channels :
    {K : Type 0} → (ℕ → Channel) → List (ℕ × Revents) → Poller K → Option (List (ℕ × Revents))
active_channels channel_at [] p = some []
active_channels channel_at ((addr, r) ∷ es) p = do
  assert (has_channel addr (channel_at addr) p)
  rest ← active_channels channel_at es p
  some ((addr, r) ∷ rest)

pub fill_active_channels :
    {K : Type 0} → (ℕ → Channel) → List (ℕ × Revents) → Poller K → Option (List (ℕ × Revents))
fill_active_channels channel_at es p =
    assert (leb (length es) p.events_size) >> active_channels channel_at es p

pub poll :
    {K : Type 0} → (ℕ → Channel) → PollAnswer → Poller K → Option (List (ℕ × Revents) × Poller K)
poll channel_at (happened []) p = some ([], p)
poll channel_at (happened (e ∷ es)) p = fill_active_channels channel_at (e ∷ es) p >>= λ active.
    some (active, grow_events (length (e ∷ es)) p)
poll channel_at (failed_wait errno) p = some ([], p)
