-- ===== src/TcpConnection/Reached.antt =====
-- A connection over every sequence of its operations and of events of its channel.
use proto_rpc.Prelude.{
  ℕ, ◌≡◌, refl, subst, ◌⊎◌, Bool, true, false, ◌||◌, Option, none, some, List, [], ◌>>=◌,
}
use proto_rpc.Buffer.{new_buffer, initial_size, Buffer, ReadResult}
use proto_rpc.Channel.{none_event, Revents}
use proto_rpc.TcpConnection.{
  Connection, connecting, WriteResult, new_connection, is_connected, is_disconnected, is_connecting,
  send_in_loop, send, shutdown, shutdown_in_loop, force_close, force_close_with_delay,
  force_close_in_loop, start_read_in_loop, stop_read_in_loop, connect_established,
  connect_destroyed, handle_channel_event,
}
use proto_rpc.TcpConnection.Life.{Life, fresh, follow_all, Fits, Lives, Quiet-Lives, is_up, removed}
use proto_rpc.TcpConnection.Sending.{QuietOk, QuietSend, send_in_loop-Quiet, send-Quiet}
use proto_rpc.TcpConnection.Stages.{
  shutdown-Quiet, shutdown_in_loop-Quiet, force_close-Quiet, force_close_with_delay-Quiet,
  start_read_in_loop-Quiet, stop_read_in_loop-Quiet,
}
use proto_rpc.TcpConnection.Course.{
  LivesOk, LivesOk-some, force_close_in_loop-Lives, connect_established-Lives,
  connect_destroyed-Lives,
}
use proto_rpc.TcpConnection.Dispatch.{handle_channel_event-Lives, Lives-watched}

-- One step of a connection: a method, a task that it queued, or an event of its channel. Reading is
-- started and stopped while the connection is up, an event comes if the channel watches one, and the
-- channel is taken off the loop while the connection is connected, or once after it went down.
pub data Step (c : Connection) : Connection → Type 0 where
  established : (c' : Connection) → connect_established c ≡ some c' → Step c c'
  sent :
      (in_loop : Bool) (answer : WriteResult) (buf buf' : Buffer) (c' : Connection)
      → send in_loop answer buf c ≡ some (buf', c')
      → Step c c'
  sent_in_loop :
      (answer : WriteResult) (bytes : List ℕ) (c' : Connection)
      → is_connecting c.state ≡ false
      → send_in_loop answer bytes c ≡ some c'
      → Step c c'
  shuts_down : (in_loop : Bool) → Step c (shutdown in_loop c)
  shuts_down_in_loop : Step c (shutdown_in_loop c)
  forces : Step c (force_close c)
  forces_with_delay : Step c (force_close_with_delay c)
  forces_in_loop : (c' : Connection) → force_close_in_loop c ≡ some c' → Step c c'
  starts_reading : is_up c.state ≡ true → Step c (start_read_in_loop c)
  stops_reading : is_up c.state ≡ true → Step c (stop_read_in_loop c)
  has_event :
      (on_message : Buffer → Option Buffer) (input : ReadResult) (output : WriteResult)
      (r : Revents) (c' : Connection)
      → (r.pollpri || r.pollrdhup) ≡ false
      → (c.events.read || c.events.write) ≡ true
      → handle_channel_event on_message input output r c ≡ some c'
      → Step c c'
  is_destroyed :
      (c' : Connection)
      → (is_connected c.state ≡ true)
        ⊎ ((is_disconnected c.state ≡ true) × (removed c.effects ≡ false))
      → connect_destroyed c ≡ some c'
      → Step c c'

pub data Reach (c : Connection) : Connection → Type 0 where
  start : Reach c c
  after : (d e : Connection) → Reach c d → Step d e → Reach c e

Step-Lives : (c c' : Connection) → Step c c' → Lives c → Lives c'
Step-Lives c c' (established _ e) l =
    LivesOk-some (connect_established c) c' e (connect_established-Lives c l)
Step-Lives c c' (sent in_loop answer buf buf' _ e) l =
    Quiet-Lives c c' (subst (QuietSend c) e (send-Quiet in_loop answer buf c)) l
Step-Lives c c' (sent_in_loop answer bytes _ d e) l =
    Quiet-Lives c c' (subst (QuietOk c) e (send_in_loop-Quiet answer bytes c d)) l
Step-Lives c _ (shuts_down in_loop) l =
    Quiet-Lives c (shutdown in_loop c) (shutdown-Quiet in_loop c) l
Step-Lives c _ shuts_down_in_loop l =
    Quiet-Lives c (shutdown_in_loop c) (shutdown_in_loop-Quiet c) l
Step-Lives c _ forces l = Quiet-Lives c (force_close c) (force_close-Quiet c) l
Step-Lives c _ forces_with_delay l =
    Quiet-Lives c (force_close_with_delay c) (force_close_with_delay-Quiet c) l
Step-Lives c c' (forces_in_loop _ e) l =
    LivesOk-some (force_close_in_loop c) c' e (force_close_in_loop-Lives c l)
Step-Lives c _ (starts_reading up) l =
    Quiet-Lives c (start_read_in_loop c) (start_read_in_loop-Quiet c up) l
Step-Lives c _ (stops_reading up) l =
    Quiet-Lives c (stop_read_in_loop c) (stop_read_in_loop-Quiet c up) l
Step-Lives c c' (has_event on_message input output r _ only w e) l =
    LivesOk-some (handle_channel_event on_message input output r c) c' e
      (handle_channel_event-Lives on_message input output r c only (Lives-watched c l w) l)
Step-Lives c c' (is_destroyed _ d e) l =
    LivesOk-some (connect_destroyed c) c' e (connect_destroyed-Lives c d l)

new_connection-Lives : (flag : Bool) → LivesOk (new_connection flag)
unfolding Lives Fits follow_all new_connection
new_connection-Lives flag = by_buffers (new_buffer initial_size) (new_buffer initial_size)
  where
    by_buffers :
        (i o : Option Buffer)
        → LivesOk (
            i >>= λ input. o >>= λ output. some (record {
              state = connecting;
              reading = true;
              events = none_event;
              registered = false;
              input = input;
              output = output;
              has_write_complete = flag;
              effects = [];
            }))
    by_buffers none o = tt
    by_buffers (some input) none = tt
    by_buffers (some input) (some output) = (fresh, refl, (refl, refl))

-- From a new connection, over every sequence of its operations, of the tasks that it queues and of
-- events of its channel, where an event comes only if the channel watches one and has neither
-- POLLPRI nor POLLRDHUP, reading is started and stopped only while the connection is connected or
-- disconnecting, a queued send runs only after `kConnecting`, and `connectDestroyed` comes only
-- while it is connected, or after it went down and once: the effects are those of a life (the
-- connection callback once on the way up, messages only while it is up, the connection callback
-- once on the way down, then at most one close callback, and the removal of the channel at most
-- once and last of these), and the state and the watched events are those of the stage that the
-- life has reached.
pub Reach-Lives :
    (flag : Bool) (c c' : Connection)
    → new_connection flag ≡ some c
    → Reach c c'
    → (l : Life) × (follow_all fresh c'.effects ≡ some l) × Fits c'.state c'.events l
unfolding Lives
Reach-Lives flag c c' e r = through c' r
  where
    through : (c' : Connection) → Reach c c' → Lives c'
    through _ start = LivesOk-some (new_connection flag) c e (new_connection-Lives flag)
    through _ (after d e' s k) = Step-Lives d e' k (through d s)
