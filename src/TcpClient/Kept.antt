-- ===== src/TcpClient/Kept.antt =====
-- What holds of a client and its connector, and that each event keeps it.
use proto_rpc.Prelude.{
  made, made_next, ℕ, ◌+◌, ◌≤◌, ◌≡◌, refl, subst, Bool, true, false, ◌&&◌, Option, none, some, List,
  arith, ==_refl, if◌then◌else◌, total, total-snoc, ◌>>=◌, inl, inr,
}
use proto_rpc.Connector.{
  Connector, ConnectErrno, disconnected, log, queued_stop, stop, start_in_loop, restart, connect,
  reset_channel, is_disconnected, created, init_retry_delay_ms,
}
use proto_rpc.Connector.Sockets.{waiting}
use proto_rpc.Connector.Owned.{OwnedBy, Owned, opens, settles, quiet-OwnedBy, created-OwnedBy}
use proto_rpc.Connector.Attempt.{IsIdle, Attempted, after_connect-Attempted}
use proto_rpc.TcpClient.{
  Client, connect_established, connect_destroyed, log_task, stop_client, client_connection,
  remove_client_connection, is_connection,
}
use proto_rpc.TcpClient.Moves.{
  Placed, IsSettled, handle_write_lem, handle_error_lem, stop_in_loop_lem, reset-Placed,
  Placed-IsBusy,
}
use proto_rpc.TcpClient.Lifecycle.{System, destroys, is_up}
use proto_rpc.TcpClient.Session.{
  with_connector, told, handed, on_writable, on_error, on_close, on_stop, run,
}

-- The connections of the client.
pub record Counted (c : Client) (up : Option ℕ) : Type 0 where
  pub same : c.connection ≡ up
  pub first : 1 ≤ c.next_conn_id
  pub once : (k : ℕ) → is_up k up + total (destroys k) c.tasks ≡ made k c.next_conn_id

pub record Inv (y : System) : Type 0 where
  pub owned : Owned y.client.connector
  pub placed : Placed y.client.connector y.up
  pub counted : Counted y.client y.up

pub Attempted-Inv :
    (fd : ℕ) (c : Client) (r : Option Connector)
    → Attempted fd r
    → Counted c none
    → (k : Connector) × (r ≡ some k) × Inv (record { client = with_connector k c; up = none })
unfolding Placed
Attempted-Inv fd c r (k, e, p, o) v = (
  k,
  e,
  record {
    owned = o;
    placed = elim p [ inl i ↦ inl i | inr j ↦ inr (fd, j, refl) ];
    counted = record { same = v.same; first = v.first; once = v.once };
  },
)

-- The connector changed, and the client's connections did not.
with_connector-Inv :
    (k : Connector) (c : Client) (up : Option ℕ)
    → Owned k
    → Placed k up
    → Counted c up
    → Inv (record { client = with_connector k c; up = up })
with_connector-Inv k c up b p v = record {
  owned = b;
  placed = p;
  counted = record { same = v.same; first = v.first; once = v.once };
}

told-Inv :
    (test : Bool) (peer : List ℕ) (c : Client) (up : Option ℕ)
    → up ≡ none
    → Owned c.connector
    → IsIdle c.connector
    → Counted c up
    → Inv (told test peer c up)
unfolding told Placed client_connection destroys is_up
told-Inv false peer c up e b i v = record { owned = b; placed = inl i; counted = v }
told-Inv true peer c up e b i v = record {
  owned = b;
  placed = inl i;
  counted = record {
    same = refl;
    first = omega (arith, v.first);
    once = λ k. omega (
      arith,
      subst (λ o. is_up k o + total (destroys k) c.tasks ≡ made k c.next_conn_id) e (v.once k),
      made_next k c.next_conn_id v.first,
      total-snoc (destroys k) c.tasks (connect_established c.next_conn_id),
    );
  };
}

abbrev pub Stepped : Option System → Type 0
Stepped r = (y : System) × (r ≡ some y) × Inv y

pub on_writable-Inv :
    (o : Option ℕ) (failed self : Bool) (peer : List ℕ) (y : System)
    → y.client.connector.channel ≡ o
    → Inv y
    → Stepped (on_writable o failed self peer y)
unfolding on_writable IsSettled reset_channel
on_writable-Inv none failed self peer y e v = (y, refl, v)
on_writable-Inv (some fd) failed self peer y e v =
    let k = y.client.connector in
    let (b, n) = Placed-IsBusy fd k y.up v.placed e in
    let (k', run, s, o) = handle_write_lem failed self fd k b v.owned in
    (
      told (handed k') peer (with_connector (reset_channel k') y.client) y.up,
      rw run refl,
      told-Inv (handed k') peer (with_connector (reset_channel k') y.client) y.up n o
          (record { not_waiting = s; no_channel = refl })
          (record { same = v.counted.same; first = v.counted.first; once = v.counted.once }),
    )

pub on_error-Inv :
    (o : Option ℕ) (y : System) → y.client.connector.channel ≡ o → Inv y → Stepped (on_error o y)
unfolding on_error reset_channel
on_error-Inv none y e v = (y, refl, v)
on_error-Inv (some fd) y e v =
    let k = y.client.connector in
    let (b, n) = Placed-IsBusy fd k y.up v.placed e in
    let (k', run, s, o) = handle_error_lem fd k b v.owned in
    (
      record y { client = with_connector (reset_channel k') y.client },
      rw run refl,
      with_connector-Inv (reset_channel k') y.client y.up o (reset-Placed k' y.up s) v.counted,
    )

pub on_stop-Inv : (y : System) → Inv y → Stepped (on_stop y)
unfolding on_stop stop_client stop Placed opens settles reset_channel
on_stop-Inv y v =
    let k = stop y.client.connector in
    let stopped : Owned k =
      quiet-OwnedBy y.client.connector.effects y.client.connector.channel queued_stop
        (λ f. (refl, refl)) v.owned in
    let (k', run, s, o) =
      stop_in_loop_lem k y.up
        (elim v.placed [
          | inl i ↦ inl (record { not_waiting = i.not_waiting; no_channel = i.no_channel })
          | inr (fd, b, n) ↦ inr (fd, record { waits = b.waits; on_socket = b.on_socket }, n)
        ])
        stopped in
    (
      record y { client = with_connector (reset_channel k') (stop_client y.client) },
      rw run refl,
      with_connector-Inv (reset_channel k') (stop_client y.client) y.up o (reset-Placed k' y.up s)
          (record { same = v.counted.same; first = v.counted.first; once = v.counted.once }),
    )

-- A new attempt after the connection closed.
restart-Attempted :
    (answer : ConnectErrno) (fd : ℕ) (k : Connector)
    → k.channel ≡ none
    → Owned k
    → Attempted fd (restart fd answer k)
unfolding restart start_in_loop connect is_disconnected waiting
restart-Attempted answer fd k e b =
    after_connect-Attempted answer fd
      (log (created fd) (record k {
        state = disconnected;
        retry_delay_ms = init_retry_delay_ms;
        connect_wanted = true;
      }))
      (record { not_waiting = refl; no_channel = e })
      (created-OwnedBy fd k.effects (subst (OwnedBy k.effects) e b))

closed-Counted :
    (id : ℕ) (c : Client)
    → Counted c (some id)
    → Counted (log_task (connect_destroyed id) (record c { connection = none })) none
unfolding destroys is_up
closed-Counted id c v = record {
  same = refl;
  first = v.first;
  once = λ k. omega (arith, v.once k, total-snoc (destroys k) c.tasks (connect_destroyed id));
}

pub on_close-Inv :
    (o : Option ℕ) (fd : ℕ) (answer : ConnectErrno) (c : Client)
    → Inv (record { client = c; up = o })
    → Stepped (on_close o fd answer (record { client = c; up = o }))
unfolding on_close remove_client_connection is_connection Placed
on_close-Inv none fd answer c v = (record { client = c; up = none }, refl, v)
on_close-Inv (some id) fd answer c v =
    rw (v.counted.same, ==_refl id) (by_test (c.retry_wanted && c.connect_wanted))
  where
    some-none : some id ≡ none → ⊥
    some-none e = cc

    idle : IsIdle c.connector
    idle = elim v.placed [ inl i ↦ i | inr (fd, b, n) ↦ absurd (some-none n) ]

    c' : Client
    c' = log_task (connect_destroyed id) (record c { connection = none })

    by_test :
        (again : Bool)
        → Stepped (
            (if◌then◌else◌ {A = Option Client} again
              (restart fd answer c.connector >>= λ k. some (record c' { connector = k }))
              (some c'))
            >>= λ c. some (record { client = c; up = none }))
    by_test false = (
      record { client = c'; up = none },
      refl,
      record {
        owned = v.owned;
        placed = inl (record { not_waiting = idle.not_waiting; no_channel = idle.no_channel });
        counted = closed-Counted id c v.counted;
      },
    )
    by_test true =
        let (k, e, w) =
          Attempted-Inv fd c' (restart fd answer c.connector)
            (restart-Attempted answer fd c.connector idle.no_channel v.owned)
            (closed-Counted id c v.counted) in
        (record { client = with_connector k c'; up = none }, rw e refl, w)
