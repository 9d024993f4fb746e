-- ===== src/TcpConnection/Dispatch.antt =====
-- `Channel::handleEvent` (network/src/Channel.cc) on the channel of a connection, and the stages of the
-- connection's life.
use proto_rpc.Prelude.{◌≡◌, refl, Bool, true, false, not, ◌||◌, ◌&&◌, Option, some, ◌++◌, arith}
use proto_rpc.Buffer.{Buffer, ReadResult}
use proto_rpc.Channel.{
  handle_event, call_if, Callback, read_callback, write_callback, error_callback, Revents,
}
use proto_rpc.TcpConnection.{
  Connection, WriteResult, handle_close, handle_read, handle_write, run_callback, run_callbacks,
  handle_channel_event,
}
use proto_rpc.TcpConnection.Life.{Lives, Fits-watched, is_up}
use proto_rpc.TcpConnection.Stages.{handle_write-Quiet}
use proto_rpc.TcpConnection.Course.{
  LivesOk, QuietOk-LivesOk, LivesOk-bind, handle_close-Lives, handle_read-Lives,
}

or-right : (a b : Bool) → b ≡ true → (a || b) ≡ true
or-right true b h = refl
or-right false b h = h

pub exclusive :
    (hup inp pri rdhup : Bool)
    → (pri || rdhup) ≡ false
    → ((hup && not inp && true) && ((inp || pri || rdhup) && true)) ≡ false
exclusive hup true pri rdhup h = ground arith
exclusive hup false true rdhup h = ground arith
exclusive hup false false true h = ground arith
exclusive hup false false false h = ground arith

-- The callbacks of one event, of which only the first or the second test holds.
module _ (on_message : Buffer → Option Buffer) (input : ReadResult) (output : WriteResult) where
  handle_write-Lives : (c : Connection) → Lives c → LivesOk (handle_write output c)
  unfolding Lives
  handle_write-Lives c (l, e, f) =
      QuietOk-LivesOk c (handle_write output c)
        (handle_write-Quiet output c
          (λ w. Fits-watched c.state c.events l f (or-right c.events.read c.events.write w)))
        (l, e, f)

  write_tail-Lives :
      (writes errs : Bool) (c : Connection)
      → Lives c
      → LivesOk (
          run_callbacks on_message input output
            (call_if writes write_callback ++ call_if errs error_callback)
            c)
  unfolding call_if run_callbacks run_callback
  write_tail-Lives true true c l =
      LivesOk-bind (handle_write output c) some (handle_write-Lives c l) (λ c' k. k)
  write_tail-Lives true false c l =
      LivesOk-bind (handle_write output c) some (handle_write-Lives c l) (λ c' k. k)
  write_tail-Lives false true c l = l
  write_tail-Lives false false c l = l

  callbacks-Lives :
      (closes reads writes errs : Bool) (c : Connection)
      → (closes && reads) ≡ false
      → is_up c.state ≡ true
      → Lives c
      → LivesOk (
          run_callbacks on_message input output
            (call_if closes Callback.close_callback
              ++ (call_if reads read_callback
                  ++ (call_if writes write_callback ++ call_if errs error_callback)))
            c)
  unfolding call_if run_callbacks run_callback
  callbacks-Lives true true writes errs c h up l = absurd (cc)
  callbacks-Lives true false writes errs c h up l =
      LivesOk-bind (handle_close c)
        (run_callbacks on_message input output
          (call_if writes write_callback ++ call_if errs error_callback))
        (handle_close-Lives c l) (write_tail-Lives writes errs)
  callbacks-Lives false true writes errs c h up l =
      LivesOk-bind (handle_read on_message input c)
        (run_callbacks on_message input output
          (call_if writes write_callback ++ call_if errs error_callback))
        (handle_read-Lives on_message input c up l) (write_tail-Lives writes errs)
  callbacks-Lives false false writes errs c h up l = write_tail-Lives writes errs c l

  pub handle_channel_event-Lives :
      (r : Revents) (c : Connection)
      → (r.pollpri || r.pollrdhup) ≡ false
      → is_up c.state ≡ true
      → Lives c
      → LivesOk (handle_channel_event on_message input output r c)
  unfolding handle_channel_event handle_event
  handle_channel_event-Lives r c only up l =
      callbacks-Lives (r.pollhup && not r.pollin && true)
        ((r.pollin || r.pollpri || r.pollrdhup) && true) (r.pollout && true)
        ((r.pollerr || r.pollnval) && true) c
        (exclusive r.pollhup r.pollin r.pollpri r.pollrdhup only) up l

pub Lives-watched :
    (c : Connection) → Lives c → (c.events.read || c.events.write) ≡ true → is_up c.state ≡ true
unfolding Lives
Lives-watched c (l, e, f) w = Fits-watched c.state c.events l f w
