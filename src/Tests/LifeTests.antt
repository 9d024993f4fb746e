-- ===== src/Tests/LifeTests.antt =====
-- A connection that comes up, is closed by force and is taken off the loop; and a buffer as a queue.
use proto_rpc.Prelude.{replicate, ◌≡◌, refl, inr, [], ◌∷◌, ◌++◌, some, true, false, arith}
use proto_rpc.Buffer.{Buffer, new_buffer, initial_size, resize}
use proto_rpc.Buffer.Queue.{put, take_out, discard, run, run_queue, put_size, seen, run-run_queue}
use proto_rpc.Channel.{none_event, enable_reading, disable_all}
use proto_rpc.TcpConnection.{
  Connection, connected, disconnected, connecting, new_connection, connect_established,
  force_close_in_loop, handle_close, connect_destroyed, is_connecting, is_connected,
  is_disconnected, connection_callback, close_callback, removed_channel,
}
use proto_rpc.TcpConnection.Life.{Life, fresh, follow_all, Fits, is_removed}
use proto_rpc.TcpConnection
use proto_rpc.TcpConnection.Reached.{
  Reach, start, after, established, forces_in_loop, is_destroyed, Reach-Lives,
}

abbrev small : Buffer
small = record {
  store = 0 ∷ 0 ∷ 0 ∷ 0 ∷ 0 ∷ 0 ∷ 0 ∷ 0 ∷ 0 ∷ [];
  reader_index = 8;
  writer_index = 8;
}

small-new : new_buffer 1 ≡ some small
unfolding new_buffer resize
small-new = refl

-- Three bytes do not fit, one is taken out, and then more than is left.
run-run_queue_example :
    seen (run (put (1 ∷ 2 ∷ 3 ∷ []) ∷ take_out 1 ∷ put (4 ∷ []) ∷ discard 2 ∷ []) small)
    ≡ run_queue (put (1 ∷ 2 ∷ 3 ∷ []) ∷ take_out 1 ∷ put (4 ∷ []) ∷ discard 2 ∷ []) []
unfolding put_size
run-run_queue_example =
    run-run_queue (put (1 ∷ 2 ∷ 3 ∷ []) ∷ take_out 1 ∷ put (4 ∷ []) ∷ discard 2 ∷ []) 1 small
      small-new (omega arith) (omega arith)

abbrev empty_buffer : Buffer
empty_buffer = record { store = replicate 4104 0; reader_index = 8; writer_index = 8 }

abbrev made : Connection
made = record {
  state = connecting;
  reading = true;
  events = none_event;
  registered = false;
  input = empty_buffer;
  output = empty_buffer;
  has_write_complete = false;
  effects = [];
}

empty_buffer-new : new_buffer initial_size ≡ some empty_buffer
unfolding new_buffer resize
empty_buffer-new = refl

made-new : new_connection false ≡ some made
unfolding new_connection
made-new = rw empty_buffer-new refl

abbrev up : Connection
up = record made {
  state = connected;
  events = enable_reading none_event;
  registered = true;
  effects = connection_callback ∷ [];
}

abbrev down : Connection
down = record made {
  state = disconnected;
  registered = true;
  effects = connection_callback ∷ connection_callback ∷ close_callback ∷ [];
}

abbrev removed : Connection
removed = record down { registered = false; effects = down.effects ++ (removed_channel ∷ []) }

removed-Reach : Reach made removed
unfolding connect_established force_close_in_loop handle_close connect_destroyed is_connecting
    is_connected disable_all is_disconnected TcpConnection.Life.removed is_removed
removed-Reach =
    after down removed
      (after up down (after made up start (established up refl)) (forces_in_loop down refl))
      (is_destroyed removed (inr (refl, refl)) refl)

Reach-Lives_example :
    (l : Life) × (follow_all fresh removed.effects ≡ some l) × Fits removed.state removed.events l
Reach-Lives_example = Reach-Lives false made removed made-new removed-Reach
