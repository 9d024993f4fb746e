-- ===== src/TcpConnection/Handled.antt =====
-- `Channel::handleEvent` on the channel of a connection (network/src/TcpConnection.cc): the callbacks
-- in turn, with what each needs of the buffers.
use proto_rpc.Prelude.{
  ◌+◌, ◌≤◌, ◌≡◌, refl, sym, subst, Bool, true, false, not, ◌||◌, ◌&&◌, Option, some, [], ◌∷◌, ◌++◌,
  arith, length, take, ltb, if◌then◌else◌, ◌>>=◌, max_size, ◌==◌,
}
use proto_rpc.Buffer.{Buffer, ReadResult, got, failed, iov_room, read_fd, peek, readable_bytes}
use proto_rpc.Buffer.View.{IsValid, contents}
use proto_rpc.Buffer.Read.{retrieve_lem, read_fd_lem}
use proto_rpc.Channel.{
  Revents, handle_event, call_if, read_callback, write_callback, error_callback, disable_all,
  disable_writing,
}
use proto_rpc.Channel
use proto_rpc.TcpConnection.{
  Connection, disconnected, WriteResult, wrote, refused, log, log_if, written, connection_callback,
  close_callback, message_callback, handle_close, handle_read, handle_write, output_drained,
  shutdown_in_loop, run_callback, run_callbacks, handle_channel_event,
}
use proto_rpc.TcpConnection.Life.{is_up}
use proto_rpc.TcpConnection.Dispatch.{exclusive}

pub record Buffers (c : Connection) : Type 0 where
  pub input_valid : IsValid c.input
  pub output_valid : IsValid c.output

-- The call did not abort, and the output buffer is as it was.
abbrev Reads : Connection → Option Connection → Type 0
Reads c o = (c' : Connection) × (o ≡ some c') × Buffers c' × (c'.output ≡ c.output)

abbrev Done : Option Connection → Type 0
Done o = (c' : Connection) × (o ≡ some c') × Buffers c'

-- What `readv` can deliver into a buffer, and what `write` can take from one.
abbrev pub Delivers : ReadResult → Buffer → Type 0
Delivers (got bytes) b = (length bytes ≤ iov_room b) × (b.writer_index + length bytes ≤ max_size)
Delivers (failed errno) b = Unit {0}

abbrev pub TakesFrom : WriteResult → Buffer → Type 0
TakesFrom (wrote n) b = n ≤ length (contents b)
TakesFrom (refused e) b = Unit {0}

handle_close-Reads : (c : Connection) → is_up c.state ≡ true → Buffers c → Reads c (handle_close c)
unfolding handle_close is_up
handle_close-Reads c up v = (
  log close_callback (
      log connection_callback
        (record c { state = disconnected; events = disable_all c.events; registered = true })),
  rw up refl,
  record { input_valid = v.input_valid; output_valid = v.output_valid },
  refl,
)

output_drained-output : (c : Connection) → (output_drained c).output ≡ c.output
unfolding output_drained shutdown_in_loop log_if
output_drained-output c = ground arith

output_drained-input : (c : Connection) → (output_drained c).input ≡ c.input
unfolding output_drained shutdown_in_loop log_if
output_drained-input c = ground arith

module _ (on_message : Buffer → Option Buffer)
    (answers : (b : Buffer)
      → IsValid b
      → (b' : Buffer) × (on_message b ≡ some b') × IsValid b') where
  handle_read-Reads :
      (input : ReadResult) (c : Connection)
      → is_up c.state ≡ true
      → Buffers c
      → Delivers input c.input
      → Reads c (handle_read on_message input c)
  unfolding handle_read read_fd
  handle_read-Reads (failed errno) c up v d = (c, refl, v, refl)
  handle_read-Reads (got bytes) c up v (room, fits) =
      let (input, e, ok, same) = read_fd_lem bytes 0 c.input v.input_valid room fits in
      rw e (by_size (ltb 0 (length bytes)) input ok)
    where
      by_message :
          (input : Buffer)
          → ((b' : Buffer) × (on_message input ≡ some b') × IsValid b')
          → Reads c (
              on_message input >>= λ input'.
              some (log message_callback (record c { input = input' })))
      by_message input (input', e, ok) = (
        log message_callback (record c { input = input' }),
        rw e refl,
        record { input_valid = ok; output_valid = v.output_valid },
        refl,
      )

      by_size :
          (some_bytes : Bool) (input : Buffer)
          → IsValid input
          → Reads c (
              if some_bytes
              then (on_message input >>= λ input'.
                  some (log message_callback (record c { input = input' })))
              else handle_close (record c { input = input }))
      by_size true input ok = by_message input (answers input ok)
      by_size false input ok =
          handle_close-Reads (record c { input = input }) up
            (record { input_valid = ok; output_valid = v.output_valid })

handle_write-Done :
    (answer : WriteResult) (c : Connection)
    → Buffers c
    → TakesFrom answer c.output
    → Done (handle_write answer c)
unfolding handle_write
handle_write-Done (refused e) c v t = (c, refl, v)
handle_write-Done (wrote n) c v t =
    let (output, e, k) = retrieve_lem n c.output v.output_valid t in
    rw e (by_test (c.events.write && ltb 0 n) (readable_bytes output == 0) output k.valid)
  where
    by_test :
        (writes empty : Bool) (output : Buffer)
        → IsValid output
        → Done (
            if writes
            then some (
                if empty
                then output_drained (record c {
                  output = output;
                  effects = c.effects ++ (written (take n (peek c.output)) ∷ []);
                })
                else record c {
                  output = output;
                  effects = c.effects ++ (written (take n (peek c.output)) ∷ []);
                })
            else some c)
    by_test false empty output ok = (c, refl, v)
    by_test true false output ok =
        (_, refl, record { input_valid = v.input_valid; output_valid = ok })
    by_test true true output ok =
        let c' : Connection = record c {
          output = output;
          effects = c.effects ++ (written (take n (peek c.output)) ∷ []);
        } in
        (
          output_drained c',
          refl,
          record {
            input_valid = subst IsValid (sym (output_drained-input c')) v.input_valid;
            output_valid = subst IsValid (sym (output_drained-output c')) ok;
          },
        )

module _ (on_message : Buffer → Option Buffer)
    (answers : (b : Buffer) → IsValid b → (b' : Buffer) × (on_message b ≡ some b') × IsValid b')
    (input : ReadResult) (output : WriteResult) where
  write_tail-Done :
      (writes errs : Bool) (c : Connection)
      → Buffers c
      → TakesFrom output c.output
      → Done (
          run_callbacks on_message input output
            (call_if writes write_callback ++ call_if errs error_callback)
            c)
  unfolding call_if run_callbacks run_callback
  write_tail-Done false false c v t = (c, refl, v)
  write_tail-Done false true c v t = (c, refl, v)
  write_tail-Done true false c v t =
      let (c', e, k) = handle_write-Done output c v t in (c', rw e refl, k)
  write_tail-Done true true c v t =
      let (c', e, k) = handle_write-Done output c v t in (c', rw e refl, k)

  -- What follows the first callback.
  then_write-Done :
      (writes errs : Bool) (c : Connection) (o : Option Connection)
      → Reads c o
      → TakesFrom output c.output
      → Done (
          o >>= λ c'.
          run_callbacks on_message input output
            (call_if writes write_callback ++ call_if errs error_callback)
            c')
  then_write-Done writes errs c o (c', e, v, same) t =
      rw e (write_tail-Done writes errs c' v (subst (TakesFrom output) (sym same) t))

  callbacks-Done :
      (closes reads writes errs : Bool) (c : Connection)
      → (closes && reads) ≡ false
      → is_up c.state ≡ true
      → Buffers c
      → Delivers input c.input
      → TakesFrom output c.output
      → Done (
          run_callbacks on_message input output
            (call_if closes Channel.close_callback
              ++ (call_if reads read_callback
                  ++ (call_if writes write_callback ++ call_if errs error_callback)))
            c)
  unfolding call_if run_callbacks run_callback
  callbacks-Done true true writes errs c h up v d t = absurd (cc)
  callbacks-Done true false writes errs c h up v d t =
      then_write-Done writes errs c (handle_close c) (handle_close-Reads c up v) t
  callbacks-Done false true writes errs c h up v d t =
      then_write-Done writes errs c (handle_read on_message input c)
        (handle_read-Reads on_message answers input c up v d) t
  callbacks-Done false false writes errs c h up v d t = write_tail-Done writes errs c v t

  -- On a connection that is connected or disconnecting, with valid buffers, an event of its
  -- channel with neither POLLPRI nor POLLRDHUP is handled without an abort and leaves both buffers
  -- valid, whatever callbacks it calls for and even if one of them closes the connection; where
  -- the message callback returns a valid buffer for each valid one, `readv` delivers at most what
  -- it is offered and ends within the largest vector, and `write` takes at most what waits in the
  -- output buffer.
  pub handle_channel_event_lem :
      (r : Revents) (c : Connection)
      → (r.pollpri || r.pollrdhup) ≡ false
      → is_up c.state ≡ true
      → Buffers c
      → Delivers input c.input
      → TakesFrom output c.output
      → (c' : Connection) × (handle_channel_event on_message input output r c ≡ some c')
        × Buffers c'
  unfolding handle_channel_event handle_event
  handle_channel_event_lem r c only up v d t =
      callbacks-Done (r.pollhup && not r.pollin && true)
        ((r.pollin || r.pollpri || r.pollrdhup) && true) (r.pollout && true)
        ((r.pollerr || r.pollnval) && true) c
        (exclusive r.pollhup r.pollin r.pollpri r.pollrdhup only) up v d t
