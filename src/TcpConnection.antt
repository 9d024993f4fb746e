-- ===== src/TcpConnection.antt =====
-- network/include/network/TcpConnection.h and network/src/TcpConnection.cc: a connection on its
-- event loop. The methods run in the loop's thread; what they queue on the loop or do to the socket
-- is logged in `effects`, and what the kernel answers to a `write` or `readv` is an argument.
pub mod Output
pub mod Flush
pub mod Close
pub mod Life
pub mod Sending
pub mod Stages
pub mod Course
pub mod Dispatch
pub mod Reached
pub mod Handled
use proto_rpc.Prelude.{
  ℕ, ◌+◌, ◌-◌, Bool, true, false, not, ◌&&◌, ◌||◌, Option, none, some, List, [], ◌∷◌, ◌++◌, ltb,
  ◌==◌, if◌then◌else◌, length, take, drop, ◌>>=◌, ◌>>◌, assert, sub_size, ℤ, pos, negsuc,
}
use proto_rpc.Buffer.{
  Buffer, readable_bytes, peek, append, retrieve, retrieve_all, retrieve_all_as_string, ReadResult,
  read_fd, new_buffer, initial_size,
}
use proto_rpc.Channel.{
  Callback, Callbacks, Revents, handle_event, Events, none_event, enable_reading, disable_reading,
  enable_writing, disable_writing, disable_all,
}

-- `StateE`.
pub data State : Type 0 where
  disconnected connecting connected disconnecting : State

-- The values of `errno` that the code tells apart.
pub data Errno : Type 0 where
  ewouldblock epipe econnreset : Errno
  other_errno : ℕ → Errno

-- What `write` answers: the number of bytes taken, or the errno of a failure.
pub data WriteResult : Type 0 where
  wrote : ℕ → WriteResult
  refused : Errno → WriteResult

pub data Effect : Type 0 where
  written : List ℕ → Effect
  shut_down_write : Effect
  queued_write_complete queued_force_close queued_shutdown : Effect
  queued_send : List ℕ → Effect
  connection_callback message_callback close_callback removed_channel : Effect

-- `events` is that of `channel_`, and `registered` says that the poller's map has the channel and
-- its index is not `kNew`: an update makes it so, and a removal ends it. `has_write_complete` says that `writeCompleteCallback_` is set.
pub record Connection : Type 0 where
  pub state : State
  pub reading : Bool
  pub events : Events
  pub registered : Bool
  pub input : Buffer
  pub output : Buffer
  pub has_write_complete : Bool
  pub effects : List Effect

unfoldable pub is_connected : State → Bool
is_connected connected = true
is_connected _ = false

unfoldable pub is_disconnected : State → Bool
is_disconnected disconnected = true
is_disconnected _ = false

unfoldable pub is_disconnecting : State → Bool
is_disconnecting disconnecting = true
is_disconnecting _ = false

unfoldable pub new_connection : Bool → Option Connection
new_connection has_write_complete = do
  input ← new_buffer initial_size
  output ← new_buffer initial_size
  some (record {
    state = connecting;
    reading = true;
    events = none_event;
    registered = false;
    input = input;
    output = output;
    has_write_complete = has_write_complete;
    effects = [];
  })

abbrev pub log : Effect → Connection → Connection
log e c = record c { effects = c.effects ++ (e ∷ []) }

pub log_if : Bool → Effect → Connection → Connection
log_if test e c = if test then log e c else c

-- The end of `sendInLoop`: `remaining` bytes, those of `rest`, go to the output buffer.
pub keep_rest : ℕ → List ℕ → Connection → Option Connection
keep_rest remaining rest c =
    if ltb 0 remaining
    then (append rest c.output >>= λ output.
        some (record c { output = output; events = enable_writing c.events; registered = true }))
    else some c

pub is_fault : Errno → Bool
is_fault epipe = true
is_fault econnreset = true
is_fault _ = false

-- The direct `write` of `sendInLoop`.
pub write_directly : WriteResult → List ℕ → Connection → Option Connection
write_directly (wrote n) bytes c =
    let remaining = sub_size (length bytes) n in
    keep_rest remaining (drop n bytes) (
      log_if (remaining == 0 && c.has_write_complete) queued_write_complete
        (log (written (take n bytes)) c))
write_directly (refused e) bytes c = if is_fault e then some c else keep_rest (length bytes) bytes c

-- `sendInLoop`; the answer is used if nothing waits in the output buffer.
pub send_in_loop : WriteResult → List ℕ → Connection → Option Connection
send_in_loop answer bytes c =
    if is_disconnected c.state
    then some c
    else if not c.events.write && readable_bytes c.output == 0
    then write_directly answer bytes c
    else keep_rest (length bytes) bytes c

-- `send(Buffer*)`, from the loop's thread or from another one.
pub send : Bool → WriteResult → Buffer → Connection → Option (Buffer × Connection)
send in_loop answer buf c =
    if not (is_connected c.state)
    then some (buf, c)
    else if in_loop
    then (send_in_loop answer (take (readable_bytes buf) (peek buf)) c >>= λ c'.
        some (retrieve_all buf, c'))
    else (retrieve_all_as_string buf >>= λ (bytes, buf'). some (buf', log (queued_send bytes) c))

pub shutdown_in_loop : Connection → Connection
shutdown_in_loop c = log_if (not c.events.write) shut_down_write c

pub shutdown : Bool → Connection → Connection
shutdown in_loop c =
    if is_connected c.state
    then (let c' = record c { state = disconnecting } in
        if in_loop then shutdown_in_loop c' else log queued_shutdown c')
    else c

pub force_close : Connection → Connection
force_close c =
    if is_connected c.state || is_disconnecting c.state
    then log queued_force_close (record c { state = disconnecting })
    else c

-- The timer that would close it later is commented out in the source.
pub force_close_with_delay : Connection → Connection
force_close_with_delay c =
    if is_connected c.state || is_disconnecting c.state
    then record c { state = disconnecting }
    else c

unfoldable pub handle_close : Connection → Option Connection
handle_close c = do
  assert (is_connected c.state || is_disconnecting c.state)
  some (
      log close_callback (
        log connection_callback
          (record c { state = disconnected; events = disable_all c.events; registered = true })))

unfoldable pub force_close_in_loop : Connection → Option Connection
force_close_in_loop c =
    if is_connected c.state || is_disconnecting c.state then handle_close c else some c

pub start_read_in_loop : Connection → Connection
start_read_in_loop c =
    if not c.reading || not c.events.read
    then record c { events = enable_reading c.events; registered = true; reading = true }
    else c

pub stop_read_in_loop : Connection → Connection
stop_read_in_loop c =
    if c.reading || c.events.read
    then record c { events = disable_reading c.events; registered = true; reading = false }
    else c

unfoldable pub is_connecting : State → Bool
is_connecting connecting = true
is_connecting _ = false

unfoldable pub connect_established : Connection → Option Connection
connect_established c = do
  assert (is_connecting c.state)
  some (
      log connection_callback
        (record c { state = connected; events = enable_reading c.events; registered = true }))

-- `Channel::remove` and `Poller::removeChannel` assert that the channel watches nothing, that it is
-- the one in the poller's map and that its index is `kAdded` or `kDeleted`. What
-- `EventLoop::removeChannel` asserts holds, since this is a functor, which no handler of an event is.
unfoldable pub connect_destroyed : Connection → Option Connection
connect_destroyed c =
    let closed =
      if is_connected c.state
      then log connection_callback
          (record c { state = disconnected; events = disable_all c.events; registered = true })
      else c in
    assert (not (closed.events.read || closed.events.write))
    >> assert closed.registered
    >> some (log removed_channel (record closed { registered = false }))

-- `handleRead`: `on_message` is `messageCallback_` on the input buffer. A failed read is logged alone.
pub handle_read : (Buffer → Option Buffer) → ReadResult → Connection → Option Connection
handle_read on_message answer c = read_fd answer 0 c.input >>= λ (input, n, saved_errno). elim n [
  | pos k ↦
      if ltb 0 k
      then (on_message input >>= λ input'.
          some (log message_callback (record c { input = input' })))
      else handle_close (record c { input = input })
  | negsuc k ↦ some (record c { input = input })
]

-- The output buffer is empty.
pub output_drained : Connection → Connection
output_drained c =
    let c₁ =
      log_if c.has_write_complete queued_write_complete
        (record c { events = disable_writing c.events; registered = true }) in
    if is_disconnecting c₁.state then shutdown_in_loop c₁ else c₁

pub handle_write : WriteResult → Connection → Option Connection
handle_write (refused e) c = some c
handle_write (wrote n) c =
    if c.events.write && ltb 0 n
    then (retrieve n c.output >>= λ output.
        (let c' = record c {
          output = output;
          effects = c.effects ++ (written (take n (peek c.output)) ∷ []);
        } in
          some (if readable_bytes output == 0 then output_drained c' else c')))
    else some c

-- Every channel of a connection has its four callbacks.
abbrev pub all_callbacks : Callbacks
all_callbacks = record { has_close = true; has_read = true; has_write = true; has_error = true }

-- What the constructor sets as the channel's callbacks; `handleError` logs alone.
pub run_callback :
    (Buffer → Option Buffer) → ReadResult → WriteResult → Callback → Connection → Option Connection
run_callback on_message input output Callback.close_callback c = handle_close c
run_callback on_message input output Callback.read_callback c = handle_read on_message input c
run_callback on_message input output Callback.write_callback c = handle_write output c
run_callback on_message input output Callback.error_callback c = some c

pub run_callbacks :
    (Buffer → Option Buffer)
    → ReadResult
    → WriteResult
    → List Callback
    → Connection
    → Option Connection
run_callbacks on_message input output [] c = some c
run_callbacks on_message input output (k ∷ ks) c =
    run_callback on_message input output k c >>= λ c'. run_callbacks on_message input output ks c'

-- `Channel::handleEvent` on the connection's channel.
pub handle_channel_event :
    (Buffer → Option Buffer) → ReadResult → WriteResult → Revents → Connection → Option Connection
handle_channel_event on_message input output r c =
    run_callbacks on_message input output (handle_event all_callbacks r) c
