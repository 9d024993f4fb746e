-- ===== src/TcpServer.antt =====
-- network/include/network/TcpServer.h and network/src/TcpServer.cc: a server, its map of
-- connections and the tasks that it gives to the event loops. A loop is a number, and a connection
-- is known by the number that is in its name.
pub mod Names
pub mod Registry
pub mod System
pub mod Steps
pub mod Lifecycle
use proto_rpc.Prelude.{
  ℕ, ◌+◌, ◌==◌, Bool, true, false, not, Option, some, none, List, [], ◌∷◌, ◌++◌, ◌>>=◌, ◌>>◌,
  assert, if◌then◌else◌, leb, decimal, equal_bytes, snprintf,
}
use proto_rpc.LoopPool.{LoopPool, new_loop_pool, set_thread_num, start, get_next_loop}

-- What the server knows of a `TcpConnection`.
pub record Conn : Type 0 where
  pub id : ℕ
  pub name : List ℕ
  pub loop : ℕ
  pub sockfd : ℕ

-- What is given to `runInLoop` or `queueInLoop` of a loop.
pub data Task : Type 0 where
  connect_established connect_destroyed remove_connection_in_loop : Conn → Task
  listen : Task

-- `tasks` logs what the loops were given, with the loop, in order.
pub record Server : Type 0 where
  pub loop : ℕ
  pub name : List ℕ
  pub ip_port : List ℕ
  pub pool : LoopPool
  pub next_conn_id : ℕ
  pub connections : List (List ℕ × Conn)
  pub tasks : List (ℕ × Task)

-- The constructor; `ip_port` is that of the address to listen on.
unfoldable pub new_server : ℕ → List ℕ → List ℕ → Server
new_server loop name ip_port = record {
  loop = loop;
  name = name;
  ip_port = ip_port;
  pool = new_loop_pool loop;
  next_conn_id = 1;
  connections = [];
  tasks = [];
}

abbrev pub give : ℕ → Task → Server → Server
give loop t s = record s { tasks = s.tasks ++ ((loop, t) ∷ []) }

pub set_server_threads : ℕ → Server → Server
set_server_threads n s = record s { pool = set_thread_num n s.pool }

-- `start`; `listening` is that of the acceptor.
unfoldable pub start_server : (ℕ → ℕ) → Bool → Bool → Server → Option Server
start_server start_loop has_callback listening s = do
  pool ← start start_loop has_callback s.pool
  assert (not listening)
  some (give s.loop listen (record s { pool = pool }))

-- The name of the connection that gets the number `id`.
pub conn_name : List ℕ → List ℕ → ℕ → List ℕ
conn_name name ip_port id = name ++ snprintf 64 (45 ∷ (ip_port ++ (35 ∷ decimal id)))

-- `connections_[name] = conn` and `connections_.erase(name)`, which says how many it erased.
pub assign_conn : List ℕ → Conn → List (List ℕ × Conn) → List (List ℕ × Conn)
assign_conn name c [] = (name, c) ∷ []
assign_conn name c ((k, d) ∷ m) =
    if equal_bytes k name then (k, c) ∷ m else (k, d) ∷ assign_conn name c m

pub erase_conn : List ℕ → List (List ℕ × Conn) → ℕ × List (List ℕ × Conn)
erase_conn name [] = (0, [])
erase_conn name ((k, d) ∷ m) =
    let rest = erase_conn name m in if equal_bytes k name then (1, m) else (rest.0, (k, d) ∷ rest.1)

-- `newConnection`, with the connection that it makes.
pub new_connection : ℕ → Server → Option (Conn × Server)
new_connection sockfd s = get_next_loop s.pool >>= λ (io_loop, pool).
    (let c : Conn = record {
      id = s.next_conn_id;
      name = conn_name s.name s.ip_port s.next_conn_id;
      loop = io_loop;
      sockfd = sockfd;
    } in
      some (
        c,
        give io_loop (connect_established c) (record s {
          pool = pool;
          next_conn_id = s.next_conn_id + 1;
          connections = assign_conn c.name c s.connections;
        }),
      ))

pub remove_connection : Conn → Server → Server
remove_connection c s = give s.loop (remove_connection_in_loop c) s

pub run_remove_connection : Conn → Server → Option Server
run_remove_connection c s =
    let erased = erase_conn c.name s.connections in
    assert (erased.0 == 1)
    >> some (give c.loop (connect_destroyed c) (record s { connections = erased.1 }))

-- The tasks of the destructor for the connections of the map.
pub destroy_conns : List (List ℕ × Conn) → List (ℕ × Task)
destroy_conns [] = []
destroy_conns ((k, c) ∷ m) = (c.loop, connect_destroyed c) ∷ destroy_conns m

pub destroy_server : Server → Server
destroy_server s = record s { tasks = s.tasks ++ destroy_conns s.connections }
