-- ===== src/TcpServer/System.antt =====
-- The server of network/src/TcpServer.cc with its connections, over every sequence of new
-- connections, of connections that close, and of removals that the server's loop runs.
use proto_rpc.Prelude.{ℕ, zero, suc, Option, none, some, List, [], ◌∷◌, ◌++◌, ◌>>=◌}
use proto_rpc.TcpServer.{
  Conn, Server, Task, connect_established, connect_destroyed, remove_connection_in_loop, listen,
  new_connection, remove_connection, run_remove_connection,
}
use proto_rpc.TcpServer.Registry.{at}

-- The server, the connections that did not run their close callback yet, and those for which
-- `removeConnection` ran but not yet the task that it gave to the server's loop.
pub record System : Type 0 where
  pub server : Server
  pub up : List Conn
  pub leaving : List Conn

-- A socket is accepted; a connection that is up runs its close callback, which is
-- `removeConnection`; the server's loop runs one of the removals. The last two name theirs by its
-- place, and nothing happens if there is none.
pub data Event : Type 0 where
  accepts closes removes : ℕ → Event

unfoldable pub pick : ℕ → List Conn → Option (Conn × List Conn)
pick i [] = none
pick zero (c ∷ cs) = some (c, cs)
pick (suc i) (c ∷ cs) = pick i cs >>= λ (d, rest). some (d, c ∷ rest)

unfoldable pub close_conn : Option (Conn × List Conn) → System → System
close_conn none y = y
close_conn (some (c, rest)) y = record {
  server = remove_connection c y.server;
  up = rest;
  leaving = y.leaving ++ (c ∷ []);
}

unfoldable pub remove_conn : Option (Conn × List Conn) → System → Option System
remove_conn none y = some y
remove_conn (some (c, rest)) y =
    run_remove_connection c y.server >>= λ s. some (record y { server = s; leaving = rest })

unfoldable pub step : Event → System → Option System
unfolding close_conn remove_conn
step (accepts sockfd) y = new_connection sockfd y.server >>= λ (c, s).
    some (record y { server = s; up = y.up ++ (c ∷ []) })
step (closes i) y = some (close_conn (pick i y.up) y)
step (removes i) y = remove_conn (pick i y.leaving) y

unfoldable pub run : List Event → System → Option System
run [] y = some y
run (e ∷ es) y = step e y >>= λ y'. run es y'

unfoldable pub new_system : Server → System
new_system s = record { server = s; up = []; leaving = [] }

-- How often `connectDestroyed` of a connection was given to a loop.
unfoldable pub destroys : ℕ → ℕ × Task → ℕ
destroys k (l, connect_destroyed c) = at k c
destroys k (l, connect_established c) = 0
destroys k (l, remove_connection_in_loop c) = 0
destroys k (l, listen) = 0
