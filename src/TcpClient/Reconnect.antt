-- ===== src/TcpClient/Reconnect.antt =====
-- A client with its connector, from its first attempt on.
use proto_rpc.Prelude.{
  made, made_none, ℕ, ◌+◌, ◌≡◌, refl, sym, ap, subst, ◌∙◌, Bool, true, false, Option, none, some,
  List, [], ◌∷◌, arith, total, total-snoc, ◌>>=◌, inl, inr,
}
use proto_rpc.Connector.{
  Connector, ConnectErrno, connecting, new_connector, log, start, start_in_loop, connect,
  is_disconnected, created, queued_start,
}
use proto_rpc.Connector.Sockets.{waiting, count}
use proto_rpc.Connector.Owned.{Owned, opens, settles, held, created-OwnedBy}
use proto_rpc.Connector.Attempt.{after_connect-Attempted}
use proto_rpc.TcpClient.{
  Client, shut_down, new_client, connect_client, enable_retry, shut_down_any, disconnect,
}
use proto_rpc.TcpClient.Moves.{Placed}
use proto_rpc.TcpClient.Lifecycle.{System, destroys, is_up}
use proto_rpc.TcpClient.Session.{
  Event, writable, fails, closes, disconnects, stops, with_connector, step, run, begin,
}
use proto_rpc.TcpClient.Kept.{
  Counted, Inv, Attempted-Inv, Stepped, on_writable-Inv, on_error-Inv, on_stop-Inv, on_close-Inv,
}

shut_down_any-Counted :
    (o : Option ℕ) (c : Client) (up : Option ℕ) → Counted c up → Counted (shut_down_any o c) up
unfolding shut_down_any destroys
shut_down_any-Counted none c up v = v
shut_down_any-Counted (some id) c up v = record {
  same = v.same;
  first = v.first;
  once = λ k. omega (arith, v.once k, total-snoc (destroys k) c.tasks (shut_down id));
}

shut_down_any-connector : (o : Option ℕ) (c : Client) → (shut_down_any o c).connector ≡ c.connector
unfolding shut_down_any
shut_down_any-connector none c = refl
shut_down_any-connector (some id) c = refl

disconnect-Inv : (y : System) → Inv y → Inv (record y { client = disconnect y.client })
unfolding disconnect
disconnect-Inv y v =
    let c = record y.client { connect_wanted = false } in
    let e = shut_down_any-connector y.client.connection c in
    record {
      owned = subst Owned (sym e) v.owned;
      placed = subst (λ k. Placed k y.up) (sym e) v.placed;
      counted =
          shut_down_any-Counted y.client.connection c y.up
            (record { same = v.counted.same; first = v.counted.first; once = v.counted.once });
    }

step-Inv : (e : Event) (y : System) → Inv y → Stepped (step e y)
unfolding step
step-Inv (writable failed self peer) y v =
    on_writable-Inv y.client.connector.channel failed self peer y refl v
step-Inv fails y v = on_error-Inv y.client.connector.channel y refl v
step-Inv (closes fd answer) y v = on_close-Inv y.up fd answer y.client v
step-Inv disconnects y v = (record y { client = disconnect y.client }, refl, disconnect-Inv y v)
step-Inv stops y v = on_stop-Inv y v

run-Inv : (es : List Event) (y : System) → Inv y → Stepped (run es y)
unfolding run
run-Inv [] y v = (y, refl, v)
run-Inv (e ∷ es) y v =
    let (y₁, f, v₁) = step-Inv e y v in let (y₂, g, v₂) = run-Inv es y₁ v₁ in (y₂, rw f g, v₂)

first_attempt :
    (fd : ℕ) (answer : ConnectErrno) (c : Client)
    → Counted c none
    → (k : Connector) × (start_in_loop fd answer (start new_connector) ≡ some k)
      × Inv (record { client = with_connector k c; up = none })
unfolding start new_connector start_in_loop connect is_disconnected waiting count opens settles held
first_attempt fd answer c v =
    Attempted-Inv fd c (start_in_loop fd answer (start new_connector))
      (after_connect-Attempted answer fd (log (created fd) (start new_connector))
        (record { not_waiting = refl; no_channel = refl })
        (created-OwnedBy fd (queued_start ∷ []) (λ f. refl)))
      v

begin-Inv :
    (again : Bool) (name : List ℕ) (fd : ℕ) (answer : ConnectErrno)
    → Stepped (begin again name fd answer)
unfolding begin connect_client enable_retry new_client is_up
begin-Inv false name fd answer =
    let c = connect_client (new_client name) in
    let (k, e, v) =
      first_attempt fd answer c
        (record { same = refl; first = omega arith; once = λ k. omega (arith, made_none k) }) in
    (record { client = with_connector k c; up = none }, rw e refl, v)
begin-Inv true name fd answer =
    let c = connect_client (enable_retry (new_client name)) in
    let (k, e, v) =
      first_attempt fd answer c
        (record { same = refl; first = omega arith; once = λ k. omega (arith, made_none k) }) in
    (record { client = with_connector k c; up = none }, rw e refl, v)

-- A client with its connector, with retry or without, whatever each attempt to connect gives:
-- after one `connect` and its first attempt, and then any events of the connector's socket
-- (writable, with an error or connected to itself, or failed), closes of the connection, with a
-- new attempt if retry is on, `disconnect` and `stop`, each followed by the functors that it
-- queued, nothing aborts, `connection_` is the connection that is up, none is up while a socket
-- connects, each descriptor was created as often as it was closed or handed to the client, and
-- once more if it is that of the connector's channel, which is set exactly while it connects, and
-- of each connection made, it is up or its `connectDestroyed` was given to the loop, once in all.
pub run-begin :
    (again : Bool) (name : List ℕ) (fd : ℕ) (answer : ConnectErrno) (es : List Event)
    → (y : System) × ((begin again name fd answer >>= λ y. run es y) ≡ some y)
      × (y.client.connection ≡ y.up)
      × ((f : ℕ)
          → count (opens f) y.client.connector.effects
            ≡ count (settles f) y.client.connector.effects + held f y.client.connector.channel)
      × (y.client.connector.state ≡ connecting → (f : ℕ) × (y.client.connector.channel ≡ some f))
      × (waiting y.client.connector.state ≡ 0 → y.client.connector.channel ≡ none)
      × (y.client.connector.state ≡ connecting → y.up ≡ none)
      × ((k : ℕ) → is_up k y.up + total (destroys k) y.client.tasks ≡ made k y.client.next_conn_id)
unfolding Placed waiting
run-begin again name fd answer es =
    let (y₁, e₁, v₁) = begin-Inv again name fd answer in
    let (y, e, v) = run-Inv es y₁ v₁ in
    (
      y,
      rw e₁ e,
      v.counted.same,
      v.owned,
      λ c. elim v.placed [
        | inl i ↦ absurd (one_zero (sym (ap waiting c) ∙ i.not_waiting))
        | inr (fd, b, n) ↦ (fd, b.on_socket)
      ],
      λ z. elim v.placed [
        | inl i ↦ i.no_channel
        | inr (fd, b, n) ↦ absurd (one_zero (sym (ap waiting b.waits) ∙ z))
      ],
      λ c. elim v.placed [
        | inl i ↦ absurd (one_zero (sym (ap waiting c) ∙ i.not_waiting))
        | inr (fd, b, n) ↦ n
      ],
      v.counted.once,
    )
  where
    one_zero : ◌≡◌ {A = ℕ} 1 0 → ⊥
    one_zero e = omega (arith, e)
