-- ===== src/TcpServer/Lifecycle.antt =====
-- The life of a server's connections from its start to its destructor.
use proto_rpc.Prelude.{
  made, made_none, ℕ, ◌+◌, ◌≤◌, ◌<◌, ◌≡◌, refl, sym, ◌⊎◌, Bool, true, false, ◌&&◌, Option, some,
  List, [], ◌∷◌, arith, length, total, total-append, ◌==◌, if◌then◌else◌,
}
use proto_rpc.LoopPool.{LoopPool, start, start_threads, set_thread_num, new_loop_pool}
use proto_rpc.TcpServer.{
  Server, listen, destroy_conns, destroy_server, new_server, set_server_threads, start_server,
}
use proto_rpc.TcpServer.Names.{id_limit}
use proto_rpc.TcpServer.Registry.{Entry, at, entry_at}
use proto_rpc.TcpServer.System.{System, Event, accepts, closes, removes, run, new_system, destroys}
use proto_rpc.TcpServer.Steps.{Inv, accepts-Inv, closes-Inv, removes-Inv}

run-Inv :
    (es : List Event) (y : System)
    → length y.server.ip_port ≤ 53
    → y.server.next_conn_id + length es ≤ id_limit
    → Inv y
    → (y' : System) × (run es y ≡ some y') × Inv y'
unfolding run
run-Inv [] y fits low v = (y, refl, v)
run-Inv (accepts sockfd ∷ es) y fits low v =
    let (y₁, e, v₁, same, next) = accepts-Inv sockfd y fits (omega arith) v in
    let (y₂, f, v₂) = run-Inv es y₁ (rw same fits) (omega arith) v₁ in (y₂, rw e f, v₂)
run-Inv (closes i ∷ es) y fits low v =
    let (y₁, e, (v₁, same, next)) = closes-Inv i y v in
    let (y₂, f, v₂) = run-Inv es y₁ (rw same fits) (omega arith) v₁ in (y₂, rw e f, v₂)
run-Inv (removes i ∷ es) y fits low v =
    let (y₁, e, (v₁, same, next)) = removes-Inv i y fits v in
    let (y₂, f, v₂) = run-Inv es y₁ (rw same fits) (omega arith) v₁ in (y₂, rw e f, v₂)

destroy_conns-total :
    (k : ℕ) (m : List Entry) → total (destroys k) (destroy_conns m) ≡ total (entry_at k) m
unfolding destroy_conns destroys entry_at
destroy_conns-total k [] = refl
destroy_conns-total k ((n, c) ∷ m) = omega (arith, destroy_conns-total k m)

-- The server with `n` threads as it is after `start`.
abbrev pub started : (ℕ → ℕ) → Bool → ℕ → ℕ → List ℕ → List ℕ → Option Server
started start_loop has_callback n loop name ip_port =
    start_server start_loop has_callback false (set_server_threads n (new_server loop name ip_port))

zero_in_range : (k : ℕ) → (0 < k) ⊎ (k ≡ 0)
zero_in_range k = ground arith

-- For a server whose address prints to at most 53 characters, started with any number of threads,
-- and fewer than 10^8 events, each a new connection, the close callback of a connection that is
-- up, or a removal that the server's loop runs, in any order: nothing aborts, so each removal
-- finds its connection in the map; each connection is in the map as often as it is up or leaving;
-- each that was made is in the map or its `connectDestroyed` was given to a loop, once in all; and
-- after the destructor it was given once for each.
pub run-new_system :
    (start_loop : ℕ → ℕ) (has_callback : Bool) (n loop : ℕ) (name ip_port : List ℕ)
    (es : List Event)
    → length ip_port ≤ 53
    → length es < id_limit
    → (s : Server) × (started start_loop has_callback n loop name ip_port ≡ some s)
      × (y : System) × (run es (new_system s) ≡ some y)
      × ((k : ℕ)
          → total (at k) y.up + total (at k) y.leaving ≡ total (entry_at k) y.server.connections)
      × ((k : ℕ)
          → total (entry_at k) y.server.connections + total (destroys k) y.server.tasks
            ≡ made k y.server.next_conn_id)
      × ((k : ℕ)
          → total (destroys k) (destroy_server y.server).tasks ≡ made k y.server.next_conn_id)
unfolding destroy_server new_system start_server new_server set_server_threads start set_thread_num
    new_loop_pool destroys
run-new_system start_loop has_callback n loop name ip_port es fits few =
    let (y, e, v) = run-Inv es (new_system s) fits (omega arith) first in
    (
      s,
      refl,
      y,
      e,
      v.placed,
      v.once,
      λ k. omega (
        arith,
        v.once k,
        destroy_conns-total k y.server.connections,
        total-append (destroys k) y.server.tasks (destroy_conns y.server.connections),
      ),
    )
  where
    pool : LoopPool
    pool = record {
      base_loop = loop;
      started = true;
      num_threads = n;
      next = 0;
      loops = start_threads start_loop 0 n;
      initialised = if n == 0 && has_callback then loop ∷ [] else [];
    }

    s : Server
    s = record {
      loop = loop;
      name = name;
      ip_port = ip_port;
      pool = pool;
      next_conn_id = 1;
      connections = [];
      tasks = (loop, listen) ∷ [];
    }

    first : Inv (new_system s)
    first = record {
      ready = record { on = refl; in_range = zero_in_range (length pool.loops) };
      first = omega arith;
      placed = λ k. omega arith;
      once = λ k. sym (made_none k);
      keys = refl;
      up_names = refl;
      leaving_names = refl;
    }
