-- ===== src/TcpClient.antt =====
-- network/include/network/TcpClient.h and network/src/TcpClient.cc: a client, its connector and its
-- one connection, which is known by the number in its name. The methods run in the loop's thread.
pub mod Lifecycle
pub mod Session
pub mod Moves
pub mod Kept
pub mod Reconnect
use proto_rpc.Prelude.{
  ℕ, ◌+◌, ◌==◌, Bool, true, false, ◌&&◌, Option, none, some, List, [], ◌∷◌, ◌++◌, ◌>>◌, ◌>>=◌,
  assert, if◌then◌else◌, decimal, snprintf,
}
use proto_rpc.Connector.{Connector, ConnectErrno, new_connector, restart}
use proto_rpc.Connector

-- What the client does to a connection, or gives to the loop.
pub data Task : Type 0 where
  connect_established connect_destroyed shut_down close_callback_replaced force_closed : ℕ → Task

-- `last_name` is the name of the connection that was made last.
pub record Client : Type 0 where
  pub connector : Connector
  pub name : List ℕ
  pub retry_wanted : Bool
  pub connect_wanted : Bool
  pub next_conn_id : ℕ
  pub connection : Option ℕ
  pub last_name : List ℕ
  pub tasks : List Task

unfoldable pub new_client : List ℕ → Client
new_client name = record {
  connector = new_connector;
  name = name;
  retry_wanted = false;
  connect_wanted = true;
  next_conn_id = 1;
  connection = none;
  last_name = [];
  tasks = [];
}

abbrev pub log_task : Task → Client → Client
log_task t c = record c { tasks = c.tasks ++ (t ∷ []) }

unfoldable pub enable_retry : Client → Client
enable_retry c = record c { retry_wanted = true }

unfoldable pub connect_client : Client → Client
connect_client c = record c { connect_wanted = true; connector = Connector.start c.connector }

unfoldable pub shut_down_any : Option ℕ → Client → Client
shut_down_any none c = c
shut_down_any (some id) c = log_task (shut_down id) c

unfoldable pub disconnect : Client → Client
disconnect c = shut_down_any c.connection (record c { connect_wanted = false })

unfoldable pub stop_client : Client → Client
stop_client c = record c { connect_wanted = false; connector = Connector.stop c.connector }

-- `peer` is the text of the peer's address.
unfoldable pub client_connection : List ℕ → Client → Client
client_connection peer c = log_task (connect_established c.next_conn_id) (record c {
  next_conn_id = c.next_conn_id + 1;
  connection = some c.next_conn_id;
  last_name = c.name ++ snprintf 32 (58 ∷ (peer ++ (35 ∷ decimal c.next_conn_id)));
})

unfoldable pub is_connection : ℕ → Option ℕ → Bool
is_connection id none = false
is_connection id (some k) = k == id

-- `sockfd` and `answer` are those of the connector's next attempt, if there is one.
unfoldable pub remove_client_connection : ℕ → ConnectErrno → ℕ → Client → Option Client
unfolding is_connection
remove_client_connection sockfd answer id c = do
  assert (is_connection id c.connection)
  let c' = log_task (connect_destroyed id) (record c { connection = none })
  if c.retry_wanted && c.connect_wanted
      then (restart sockfd answer c.connector >>= λ k. some (record c' { connector = k }))
      else some c'

-- The destructor; `unique` says that no one else holds the connection.
unfoldable pub destroy_client : Bool → Client → Client
destroy_client unique c = elim c.connection [
  | none ↦ record c { connector = Connector.stop c.connector }
  | some id ↦
      let c' = log_task (close_callback_replaced id) c in
      if unique then log_task (force_closed id) c' else c'
]
