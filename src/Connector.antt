-- ===== src/Connector.antt =====
-- network/include/network/Connector.h and network/src/Connector.cc: the state machine of a client's
-- connect. The methods run in the loop's thread. What they do to sockets and to the loop is logged
-- in `effects`; what the kernel answers is an argument. `none` is a failed `assert`.
pub mod Sockets
pub mod Owned
pub mod History
pub mod Attempt
use proto_rpc.Prelude.{
  ℕ, Bool, true, false, not, Option, none, some, List, [], ◌∷◌, ◌++◌, if◌then◌else◌, ◌>>=◌, ◌>>◌,
  assert, ◌==◌, ◌||◌, ◌*◌,
}

-- `States`.
pub data State : Type 0 where
  disconnected connecting connected : State

-- The values of `errno` after `connect` that the code tells apart; no error is `succeeded`.
pub data ConnectErrno : Type 0 where
  succeeded einprogress eintr eisconn : ConnectErrno
  eagain eaddrinuse eaddrnotavail econnrefused enetunreach : ConnectErrno
  eacces eperm eafnosupport ealready ebadf efault enotsock : ConnectErrno
  other_errno : ℕ → ConnectErrno

pub data Effect : Type 0 where
  created closed new_connection : ℕ → Effect
  watched removed : ℕ → Effect
  queued_start queued_stop queued_reset : Effect

-- `channel` is the descriptor of `channel_`, if that is set.
pub record Connector : Type 0 where
  pub connect_wanted : Bool
  pub state : State
  pub channel : Option ℕ
  pub retry_delay_ms : ℕ
  pub effects : List Effect

abbrev pub init_retry_delay_ms : ℕ
init_retry_delay_ms = 500

unfoldable pub new_connector : Connector
new_connector = record {
  connect_wanted = false;
  state = disconnected;
  channel = none;
  retry_delay_ms = init_retry_delay_ms;
  effects = [];
}

unfoldable pub is_disconnected : State → Bool
is_disconnected disconnected = true
is_disconnected _ = false

abbrev pub log : Effect → Connector → Connector
log e c = record c { effects = c.effects ++ (e ∷ []) }

unfoldable pub start : Connector → Connector
start c = log queued_start (record c { connect_wanted = true })

unfoldable pub stop : Connector → Connector
stop c = log queued_stop (record c { connect_wanted = false })

-- The timer that would connect again is commented out in the source.
unfoldable pub retry : ℕ → Connector → Connector
retry sockfd c = log (closed sockfd) (record c { state = disconnected })

unfoldable pub connecting_to : ℕ → Connector → Option Connector
connecting_to sockfd c = elim c.channel [
  | none ↦ some (log (watched sockfd) (record c { state = connecting; channel = some sockfd }))
  | some old ↦ none
]

-- `connecting`, `retry` or `close` after the `connect` of a new socket.
unfoldable pub after_connect : ConnectErrno → ℕ → Connector → Option Connector
after_connect succeeded fd c = connecting_to fd c
after_connect einprogress fd c = connecting_to fd c
after_connect eintr fd c = connecting_to fd c
after_connect eisconn fd c = connecting_to fd c
after_connect eagain fd c = some (retry fd c)
after_connect eaddrinuse fd c = some (retry fd c)
after_connect eaddrnotavail fd c = some (retry fd c)
after_connect econnrefused fd c = some (retry fd c)
after_connect enetunreach fd c = some (retry fd c)
after_connect eacces fd c = some (log (closed fd) c)
after_connect eperm fd c = some (log (closed fd) c)
after_connect eafnosupport fd c = some (log (closed fd) c)
after_connect ealready fd c = some (log (closed fd) c)
after_connect ebadf fd c = some (log (closed fd) c)
after_connect efault fd c = some (log (closed fd) c)
after_connect enotsock fd c = some (log (closed fd) c)
after_connect (other_errno n) fd c = some (log (closed fd) c)

unfoldable pub connect : ℕ → ConnectErrno → Connector → Option Connector
connect fd answer c = after_connect answer fd (log (created fd) c)

unfoldable pub start_in_loop : ℕ → ConnectErrno → Connector → Option Connector
start_in_loop fd answer c =
    assert (is_disconnected c.state) >> (if c.connect_wanted then connect fd answer c else some c)

unfoldable pub restart : ℕ → ConnectErrno → Connector → Option Connector
restart fd answer c =
    start_in_loop fd answer (record c {
      state = disconnected;
      retry_delay_ms = init_retry_delay_ms;
      connect_wanted = true;
    })

-- The channel goes off the loop now, and is reset when the loop runs `resetChannel`. A null
-- `channel_` is a fault.
unfoldable pub remove_and_reset_channel : Connector → Option (ℕ × Connector)
remove_and_reset_channel c = elim c.channel [
  | none ↦ none
  | some fd ↦ some (fd, log queued_reset (log (removed fd) c))
]

unfoldable pub reset_channel : Connector → Connector
reset_channel c = record c { channel = none }

unfoldable pub stop_in_loop : Connector → Option Connector
stop_in_loop c = elim c.state [
  | connecting ↦ remove_and_reset_channel (record c { state = disconnected }) >>= λ (fd, c').
      some (retry fd c')
  | _ ↦ some c
]

-- What `handleWrite` does with a socket whose error and whose self-connect were looked up.
unfoldable pub settle : Bool → Bool → ℕ → Connector → Connector
settle failed self fd c =
    if failed || self
    then retry fd c
    else if c.connect_wanted
    then log (new_connection fd) (record c { state = connected })
    else log (closed fd) (record c { state = connected })

unfoldable pub handle_write : Bool → Bool → Connector → Option Connector
handle_write failed self c = elim c.state [
  | connecting ↦ remove_and_reset_channel c >>= λ (fd, c'). some (settle failed self fd c')
  | disconnected ↦ some c
  | connected ↦ none
]

unfoldable pub handle_error : Connector → Option Connector
handle_error c = elim c.state [
  | connecting ↦ remove_and_reset_channel c >>= λ (fd, c'). some (retry fd c')
  | _ ↦ some c
]
