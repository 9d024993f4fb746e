-- ===== src/TcpClient/Lifecycle.antt =====
-- The connections of a client (network/src/TcpClient.cc) one after the other.
use proto_rpc.Prelude.{
  made, made_next, made_none, ℕ, ◌+◌, ◌≤◌, ◌≡◌, refl, false, Option, none, some, List, [], ◌∷◌,
  arith, ◌==◌, ==_refl, if◌then◌else◌, total, total-snoc, ◌>>=◌,
}
use proto_rpc.Connector.{succeeded}
use proto_rpc.TcpClient.{
  Client, Task, connect_established, connect_destroyed, shut_down, log_task, new_client,
  connect_client, shut_down_any, disconnect, stop_client, client_connection,
  remove_client_connection, is_connection,
}

pub data Event : Type 0 where
  connects disconnects stops closes : Event
  arrives : List ℕ → Event

-- The client, and its connection that did not run its close callback yet.
pub record System : Type 0 where
  pub client : Client
  pub up : Option ℕ

arrive : List ℕ → Option ℕ → Client → System
arrive peer (some id) c = record { client = c; up = some id }
arrive peer none c = record { client = client_connection peer c; up = some c.next_conn_id }

close_up : Option ℕ → Client → Option System
close_up none c = some (record { client = c; up = none })
close_up (some id) c =
    remove_client_connection 0 succeeded id c >>= λ c'. some (record { client = c'; up = none })

-- The connector brings a socket only while no connection is up.
pub step : Event → System → Option System
unfolding arrive close_up
step connects y = some (record y { client = connect_client y.client })
step disconnects y = some (record y { client = disconnect y.client })
step stops y = some (record y { client = stop_client y.client })
step (arrives peer) y = some (arrive peer y.up y.client)
step closes y = close_up y.up y.client

pub run : List Event → System → Option System
run [] y = some y
run (e ∷ es) y = step e y >>= λ y'. run es y'

unfoldable pub destroys : ℕ → Task → ℕ
destroys k (connect_destroyed id) = if id == k then 1 else 0
destroys k t = 0

unfoldable pub is_up : ℕ → Option ℕ → ℕ
is_up k none = 0
is_up k (some id) = if id == k then 1 else 0

record Inv (y : System) : Type 0 where
  no_retry : y.client.retry_wanted ≡ false
  same : y.client.connection ≡ y.up
  first : 1 ≤ y.client.next_conn_id
  once : (k : ℕ) → is_up k y.up + total (destroys k) y.client.tasks ≡ made k y.client.next_conn_id

shut_down_any-Inv :
    (o : Option ℕ) (c : Client) (up : Option ℕ)
    → Inv (record { client = c; up = up })
    → Inv (record { client = shut_down_any o c; up = up })
unfolding shut_down_any destroys
shut_down_any-Inv none c up v = v
shut_down_any-Inv (some id) c up v = record {
  no_retry = v.no_retry;
  same = v.same;
  first = v.first;
  once = λ k. omega (arith, v.once k, total-snoc (destroys k) c.tasks (shut_down id));
}

arrive-Inv :
    (peer : List ℕ) (o : Option ℕ) (c : Client)
    → Inv (record { client = c; up = o })
    → Inv (arrive peer o c)
unfolding arrive client_connection destroys is_up
arrive-Inv peer (some id) c v = v
arrive-Inv peer none c v = record {
  no_retry = v.no_retry;
  same = refl;
  first = omega (arith, v.first);
  once = λ k. omega (
    arith,
    v.once k,
    made_next k c.next_conn_id v.first,
    total-snoc (destroys k) c.tasks (connect_established c.next_conn_id),
  );
}

close_up-Inv :
    (o : Option ℕ) (c : Client)
    → Inv (record { client = c; up = o })
    → (y : System) × (close_up o c ≡ some y) × Inv y
unfolding close_up remove_client_connection is_connection destroys is_up
close_up-Inv none c v = (record { client = c; up = none }, refl, v)
close_up-Inv (some id) c v = (
  record { client = log_task (connect_destroyed id) (record c { connection = none }); up = none },
  rw (v.same, ==_refl id, v.no_retry) refl,
  record {
    no_retry = v.no_retry;
    same = refl;
    first = v.first;
    once = λ k. omega (arith, v.once k, total-snoc (destroys k) c.tasks (connect_destroyed id));
  },
)

step-Inv : (e : Event) (y : System) → Inv y → (y' : System) × (step e y ≡ some y') × Inv y'
unfolding step connect_client disconnect stop_client
step-Inv connects y v = (
  record y { client = connect_client y.client },
  refl,
  record { no_retry = v.no_retry; same = v.same; first = v.first; once = v.once },
)
step-Inv disconnects y v = (
  record y { client = disconnect y.client },
  refl,
  shut_down_any-Inv y.client.connection (record y.client { connect_wanted = false }) y.up
      (record { no_retry = v.no_retry; same = v.same; first = v.first; once = v.once }),
)
step-Inv stops y v = (
  record y { client = stop_client y.client },
  refl,
  record { no_retry = v.no_retry; same = v.same; first = v.first; once = v.once },
)
step-Inv (arrives peer) y v = (arrive peer y.up y.client, refl, arrive-Inv peer y.up y.client v)
step-Inv closes y v = close_up-Inv y.up y.client v

run-Inv : (es : List Event) (y : System) → Inv y → (y' : System) × (run es y ≡ some y') × Inv y'
unfolding run
run-Inv [] y v = (y, refl, v)
run-Inv (e ∷ es) y v =
    let (y₁, f, v₁) = step-Inv e y v in let (y₂, g, v₂) = run-Inv es y₁ v₁ in (y₂, rw f g, v₂)

-- For a client without retry and any sequence of `connect`, `disconnect` and `stop`, of sockets
-- that the connector brings while no connection is up, and of close callbacks of the connection
-- that is up: nothing aborts, `connection_` is the connection that is up, and of each connection
-- that was made, it is up or its `connectDestroyed` was given to the loop, once in all.
run-new_client :
    (name : List ℕ) (es : List Event)
    → (y : System) × (run es (record { client = new_client name; up = none }) ≡ some y)
      × (y.client.connection ≡ y.up)
      × ((k : ℕ) → is_up k y.up + total (destroys k) y.client.tasks ≡ made k y.client.next_conn_id)
unfolding new_client is_up
run-new_client name es =
    let (y, e, v) = run-Inv es (record { client = new_client name; up = none }) first in
    (y, e, v.same, v.once)
  where
    first : Inv (record { client = new_client name; up = none })
    first = record {
      no_retry = refl;
      same = refl;
      first = omega arith;
      once = λ k. omega (arith, made_none k);
    }
