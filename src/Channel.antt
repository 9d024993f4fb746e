-- ===== src/Channel.antt =====
-- network/include/network/Channel.h and network/src/Channel.cc: the events that a file descriptor is
-- watched for, and the callbacks for those that came. Of `events_` the code sets two bits only, so it
-- is two Booleans; `revents_` is one Boolean for each bit that is tested.
use proto_rpc.Prelude.{ℕ, Bool, true, false, not, ◌&&◌, ◌||◌, List, [], ◌∷◌, ◌++◌, if◌then◌else◌}

pub record Events : Type 0 where
  pub read : Bool
  pub write : Bool

abbrev pub none_event : Events
none_event = record { read = false; write = false }

pub record Revents : Type 0 where
  pub pollin : Bool
  pub pollpri : Bool
  pub pollout : Bool
  pub pollerr : Bool
  pub pollhup : Bool
  pub pollnval : Bool
  pub pollrdhup : Bool

-- `kNew`, `kAdded` and `kDeleted` of Poller.cc.
pub data Index : Type 0 where
  new added deleted : Index

pub record Channel : Type 0 where
  pub fd : ℕ
  pub events : Events
  pub index : Index
  pub added_to_loop : Bool

pub new_channel : ℕ → Channel
new_channel fd = record { fd = fd; events = none_event; index = new; added_to_loop = false }

abbrev pub is_none_event : Channel → Bool
is_none_event c = not (c.events.read || c.events.write)

abbrev pub is_writing : Channel → Bool
is_writing c = c.events.write

abbrev pub is_reading : Channel → Bool
is_reading c = c.events.read

-- What each method makes of `events_` before it calls `update`.
unfoldable pub enable_reading : Events → Events
enable_reading e = record e { read = true }

unfoldable pub disable_reading : Events → Events
disable_reading e = record e { read = false }

unfoldable pub enable_writing : Events → Events
enable_writing e = record e { write = true }

unfoldable pub disable_writing : Events → Events
disable_writing e = record e { write = false }

unfoldable pub disable_all : Events → Events
disable_all e = none_event

pub data Callback : Type 0 where
  close_callback read_callback write_callback error_callback : Callback

-- Which of the four callbacks are set.
pub record Callbacks : Type 0 where
  pub has_close : Bool
  pub has_read : Bool
  pub has_write : Bool
  pub has_error : Bool

unfoldable pub call_if : Bool → Callback → List Callback
call_if test c = if test then c ∷ [] else []

-- The callbacks that `handleEvent` runs, in order.
unfoldable pub handle_event : Callbacks → Revents → List Callback
handle_event cb r =
    call_if (r.pollhup && not r.pollin && cb.has_close) close_callback
    ++ (call_if ((r.pollin || r.pollpri || r.pollrdhup) && cb.has_read) read_callback
        ++ (call_if (r.pollout && cb.has_write) write_callback
            ++ call_if ((r.pollerr || r.pollnval) && cb.has_error) error_callback))
