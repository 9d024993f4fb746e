-- ===== src/Tests/ClientTests.antt =====
-- A connector whose connect succeeds, and a pool of three loops.
use proto_rpc.Prelude.{
  false, ◌>>=◌, made, ℕ, List, none, total, ◌+◌, ◌≡◌, refl, [], ◌∷◌, some, true,
}
use proto_rpc.TcpClient.Lifecycle.{System, is_up, destroys}
use proto_rpc.TcpClient.Session.{Event, writable, closes, disconnects, begin, run}
use proto_rpc.TcpClient.Reconnect.{run-begin}
use proto_rpc.LoopPool.{LoopPool, start, new_loop_pool, set_thread_num, start_threads}
use proto_rpc.Connector.{
  Connector, new_connector, eagain, econnrefused, einprogress, start_in_loop, connect,
  after_connect, connecting_to, connecting, is_disconnected, created, watched, queued_start,
}
use proto_rpc.Connector
use proto_rpc.Connector.Sockets.{Balanced, waiting, count}
use proto_rpc.Connector.Owned.{opens, settles, held}
use proto_rpc.Connector.History.{Reach, here, after, starts, start_runs, Reach-Balanced}

abbrev three_loops : LoopPool
three_loops = record {
  base_loop = 1;
  started = true;
  num_threads = 3;
  next = 0;
  loops = 10 ∷ 11 ∷ 12 ∷ [];
  initialised = [];
}

start-three_loops : start (λ i. 10 + i) true (set_thread_num 3 (new_loop_pool 1)) ≡ some three_loops
unfolding start set_thread_num new_loop_pool start_threads
start-three_loops = refl

abbrev connecting_5 : Connector
connecting_5 = record {
  connect_wanted = true;
  state = connecting;
  channel = some 5;
  retry_delay_ms = 500;
  effects = queued_start ∷ created 5 ∷ watched 5 ∷ [];
}

connecting_5-Reach : Reach connecting_5
unfolding Connector.start new_connector start_in_loop connect after_connect connecting_to
    is_disconnected
connecting_5-Reach = after (after here starts) (start_runs 5 einprogress refl)

Reach-Balanced_example : Balanced connecting_5
Reach-Balanced_example = Reach-Balanced connecting_5-Reach

-- The connect succeeds, the connection closes, the next attempt is refused.
abbrev session : List Event
session = writable false false (49 ∷ []) ∷ closes 6 econnrefused ∷ disconnects ∷ []

run-begin_example :
    (y : System) × ((begin true (99 ∷ []) 5 einprogress >>= λ y. run session y) ≡ some y)
    × (y.client.connection ≡ y.up)
    × ((f : ℕ)
        → count (opens f) y.client.connector.effects
          ≡ count (settles f) y.client.connector.effects + held f y.client.connector.channel)
    × (y.client.connector.state ≡ connecting → (f : ℕ) × (y.client.connector.channel ≡ some f))
    × (waiting y.client.connector.state ≡ 0 → y.client.connector.channel ≡ none)
    × (y.client.connector.state ≡ connecting → y.up ≡ none)
    × ((k : ℕ) → is_up k y.up + total (destroys k) y.client.tasks ≡ made k y.client.next_conn_id)
run-begin_example = run-begin true (99 ∷ []) 5 einprogress session
