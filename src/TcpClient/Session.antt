-- ===== src/TcpClient/Session.antt =====
-- A client of network/src/TcpClient.cc with its connector: one `connect`, and then the events of the
-- connector's channel, the close of the connection, and the application's calls, each followed by
-- the functors that it queued.
use proto_rpc.Prelude.{
  ℕ, Bool, true, false, ◌&&◌, Option, none, some, List, [], ◌∷◌, if◌then◌else◌, ◌>>=◌,
}
use proto_rpc.Connector.{
  Connector, ConnectErrno, State, connected, start_in_loop, stop_in_loop, reset_channel,
  handle_write, handle_error,
}
use proto_rpc.TcpClient.{
  Client, new_client, connect_client, enable_retry, disconnect, stop_client, client_connection,
  remove_client_connection,
}
use proto_rpc.TcpClient.Lifecycle.{System}

-- The socket that connects is writable, with its error and whether it met itself, and the text of
-- the peer's address; or it has an error. The connection closes, with what a new attempt gives.
pub data Event : Type 0 where
  writable : (failed self : Bool) (peer : List ℕ) → Event
  fails : Event
  closes : (fd : ℕ) (answer : ConnectErrno) → Event
  disconnects stops : Event

unfoldable pub is_reached : State → Bool
is_reached connected = true
is_reached _ = false

abbrev pub with_connector : Connector → Client → Client
with_connector k c = record c { connector = k }

-- `handleWrite` handed its socket to `newConnection` if the connect was wanted and succeeded.
unfoldable pub told : Bool → List ℕ → Client → Option ℕ → System
told true peer c up = record { client = client_connection peer c; up = some c.next_conn_id }
told false peer c up = record { client = c; up = up }

unfoldable pub handed : Connector → Bool
handed k = is_reached k.state && k.connect_wanted

-- An event of the connector's channel, if there is one, and then `resetChannel`.
unfoldable pub on_writable : Option ℕ → Bool → Bool → List ℕ → System → Option System
on_writable none failed self peer y = some y
on_writable (some fd) failed self peer y = handle_write failed self y.client.connector >>= λ k.
    some (told (handed k) peer (with_connector (reset_channel k) y.client) y.up)

unfoldable pub on_error : Option ℕ → System → Option System
on_error none y = some y
on_error (some fd) y = handle_error y.client.connector >>= λ k.
    some (record y { client = with_connector (reset_channel k) y.client })

unfoldable pub on_close : Option ℕ → ℕ → ConnectErrno → System → Option System
on_close none fd answer y = some y
on_close (some id) fd answer y =
    remove_client_connection fd answer id y.client >>= λ c. some (record { client = c; up = none })

-- `stop`, and the `stopInLoop` and `resetChannel` that it leads to.
unfoldable pub on_stop : System → Option System
on_stop y =
    let c = stop_client y.client in
    stop_in_loop c.connector >>= λ k.
    some (record y { client = with_connector (reset_channel k) c })

unfoldable pub step : Event → System → Option System
step (writable failed self peer) y = on_writable y.client.connector.channel failed self peer y
step fails y = on_error y.client.connector.channel y
step (closes fd answer) y = on_close y.up fd answer y
step disconnects y = some (record y { client = disconnect y.client })
step stops y = on_stop y

unfoldable pub run : List Event → System → Option System
run [] y = some y
run (e ∷ es) y = step e y >>= λ y'. run es y'

-- `connect` of a new client, and its first attempt.
unfoldable pub begin : Bool → List ℕ → ℕ → ConnectErrno → Option System
begin retry name fd answer =
    let c = connect_client (if retry then enable_retry (new_client name) else new_client name) in
    start_in_loop fd answer c.connector >>= λ k.
    some (record { client = with_connector k c; up = none })
