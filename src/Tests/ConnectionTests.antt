-- ===== src/Tests/ConnectionTests.antt =====
-- A connection that sends three bytes through a slow socket, and closes.
use proto_rpc.Prelude.{inl, inr, ◌≡◌, ◌||◌, ◌⊎◌, refl, [], ◌∷◌, some, arith, true, false}
use proto_rpc.Buffer.{got}
use proto_rpc.Channel.{Events, Revents}
use proto_rpc.TcpConnection.{
  Connection, handle_channel_event, connected, disconnecting, disconnected, written, wrote,
  send_in_loop, handle_write, shutdown_in_loop, log, shut_down_write, connect_destroyed,
  force_close_in_loop, is_connected, is_disconnected, is_disconnecting, removed_channel,
  connection_callback, close_callback,
}
use proto_rpc.TcpConnection.Output.{Streams, transmitted, took, send_in_loop_lem}
use proto_rpc.TcpConnection.Flush.{handle_write_lem}
use proto_rpc.TcpConnection.Close.{shutdown_in_loop_lem, close-destroy}
use proto_rpc.TcpConnection.Life.{is_up}
use proto_rpc.TcpConnection.Handled.{Buffers, handle_channel_event_lem}
use proto_rpc.Tests.Base.{holding, holding-IsValid}

abbrev watch : Events
watch = record { read = true; write = false }

abbrev up : Connection
up = record {
  state = connected;
  reading = true;
  events = watch;
  registered = true;
  input = holding [];
  output = holding [];
  has_write_complete = true;
  effects = [];
}

up-Streams : Streams [] up
unfolding transmitted
up-Streams = record { valid = holding-IsValid [] (omega arith); bytes = refl; waiting = inr refl }

up-live : is_disconnected up.state ≡ false
unfolding is_disconnected
up-live = refl

-- The socket takes one byte of three.
send_in_loop_lem_example :
    (c' : Connection) × (send_in_loop (wrote 1) (1 ∷ 2 ∷ 3 ∷ []) up ≡ some c')
    × Streams (1 ∷ 2 ∷ 3 ∷ []) c'
send_in_loop_lem_example =
    send_in_loop_lem (wrote 1) (1 ∷ 2 ∷ 3 ∷ []) [] up (took (omega arith)) up-Streams up-live
      (omega arith)

-- One byte went out and two wait, on a connection that shuts down.
abbrev waiting : Connection
waiting = record up {
  state = disconnecting;
  events = record { read = true; write = true };
  output = holding (2 ∷ 3 ∷ []);
  effects = written (1 ∷ []) ∷ [];
}

waiting-Streams : Streams (1 ∷ 2 ∷ 3 ∷ []) waiting
unfolding transmitted
waiting-Streams = record {
  valid = holding-IsValid (2 ∷ 3 ∷ []) (omega arith);
  bytes = refl;
  waiting = inl refl;
}

handle_write_lem_example :
    (c' : Connection) × (handle_write (wrote 2) waiting ≡ some c') × Streams (1 ∷ 2 ∷ 3 ∷ []) c'
handle_write_lem_example = handle_write_lem 2 (1 ∷ 2 ∷ 3 ∷ []) waiting waiting-Streams (omega arith)

shutdown_in_loop_lem_example :
    ((up.events.write ≡ true) × (shutdown_in_loop up ≡ up))
    ⊎ ((shutdown_in_loop up ≡ log shut_down_write up) × (transmitted up.effects ≡ []))
shutdown_in_loop_lem_example = shutdown_in_loop_lem [] up up-Streams

waiting-live : (is_connected waiting.state || is_disconnecting waiting.state) ≡ true
unfolding is_connected is_disconnecting
waiting-live = refl

close-destroy_example :
    (c' : Connection) × (force_close_in_loop waiting ≡ some c')
    × (c'.state ≡ disconnected)
    × (connect_destroyed c' ≡ some (log removed_channel (record c' { registered = false })))
    × (c'.effects ≡ written (1 ∷ []) ∷ connection_callback ∷ close_callback ∷ [])
close-destroy_example = close-destroy waiting waiting-live

abbrev readable : Revents
readable = record {
  pollin = true;
  pollpri = false;
  pollout = true;
  pollerr = false;
  pollhup = false;
  pollnval = false;
  pollrdhup = false;
}

up-Buffers : Buffers up
up-Buffers = record {
  input_valid = holding-IsValid [] (omega arith);
  output_valid = holding-IsValid [] (omega arith);
}

up-is_up : is_up up.state ≡ true
unfolding is_up is_connected
up-is_up = refl

-- Two bytes come, and nothing waits to be written.
handle_channel_event_lem_example :
    (c' : Connection) × (handle_channel_event some (got (1 ∷ 2 ∷ [])) (wrote 0) readable up
      ≡ some c')
    × Buffers c'
handle_channel_event_lem_example =
    handle_channel_event_lem some (λ b v. (b, refl, v)) (got (1 ∷ 2 ∷ [])) (wrote 0) readable up
      refl up-is_up up-Buffers (omega arith, omega arith) (omega arith)
