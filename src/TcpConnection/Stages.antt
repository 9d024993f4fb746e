-- ===== src/TcpConnection/Stages.antt =====
-- The closing operations, the reading switches and `handleWrite` of network/src/TcpConnection.cc, and
-- the stages of a connection's life.
use proto_rpc.Prelude.{
  ◌≡◌, refl, Bool, true, false, not, ◌||◌, ◌&&◌, Option, none, some, [], ◌∷◌, ◌++◌, ◌>>=◌,
  if◌then◌else◌, ltb, take, ◌==◌,
}
use proto_rpc.Buffer.{Buffer, retrieve, peek, readable_bytes}
use proto_rpc.Channel.{Events, enable_reading, disable_reading, disable_writing}
use proto_rpc.TcpConnection.{
  Connection, disconnecting, written, shut_down_write, queued_write_complete, queued_force_close,
  queued_shutdown, WriteResult, wrote, refused, log, log_if, is_connected, is_disconnecting,
  shutdown, shutdown_in_loop, force_close, force_close_with_delay, start_read_in_loop,
  stop_read_in_loop, output_drained, handle_write,
}
use proto_rpc.TcpConnection.Life.{
  is_silent, Quiet, Quiet-trans, Quiet-silent, Quiet-log, Quiet-log_if, Fits-live, is_up,
  Fits-disconnecting,
}
use proto_rpc.TcpConnection.Sending.{QuietOk, Quiet-refl}

pub shutdown_in_loop-Quiet : (c : Connection) → Quiet c (shutdown_in_loop c)
unfolding shutdown_in_loop is_silent
shutdown_in_loop-Quiet c = Quiet-log_if (not c.events.write) shut_down_write c refl

disconnecting-Quiet :
    (c : Connection) → is_up c.state ≡ true → Quiet c (record c { state = disconnecting })
disconnecting-Quiet c e =
    Quiet-silent c (record c { state = disconnecting }) refl
      (λ l f. Fits-disconnecting c.state c.events l e f)

pub shutdown-Quiet : (in_loop : Bool) (c : Connection) → Quiet c (shutdown in_loop c)
unfolding shutdown is_up is_silent
shutdown-Quiet in_loop c = by_state (is_connected c.state) in_loop (λ e. rw e refl)
  where
    c₁ : Connection
    c₁ = record c { state = disconnecting }

    by_state :
        (test in_loop : Bool)
        → (test ≡ true → is_up c.state ≡ true)
        → Quiet c
            (if test then (if in_loop then shutdown_in_loop c₁ else log queued_shutdown c₁) else c)
    by_state false in_loop e = Quiet-refl c
    by_state true true e =
        Quiet-trans c c₁ (shutdown_in_loop c₁) (disconnecting-Quiet c (e refl))
          (shutdown_in_loop-Quiet c₁)
    by_state true false e =
        Quiet-trans c c₁ (log queued_shutdown c₁) (disconnecting-Quiet c (e refl))
          (Quiet-log queued_shutdown c₁ refl)

pub force_close-Quiet : (c : Connection) → Quiet c (force_close c)
unfolding force_close is_up is_silent
force_close-Quiet c = by_state (is_connected c.state || is_disconnecting c.state) (λ e. e)
  where
    c₁ : Connection
    c₁ = record c { state = disconnecting }

    by_state :
        (test : Bool)
        → (test ≡ true → is_up c.state ≡ true)
        → Quiet c (if test then log queued_force_close c₁ else c)
    by_state false e = Quiet-refl c
    by_state true e =
        Quiet-trans c c₁ (log queued_force_close c₁) (disconnecting-Quiet c (e refl))
          (Quiet-log queued_force_close c₁ refl)

pub force_close_with_delay-Quiet : (c : Connection) → Quiet c (force_close_with_delay c)
unfolding force_close_with_delay is_up
force_close_with_delay-Quiet c =
    by_state (is_connected c.state || is_disconnecting c.state) (λ e. e)
  where
    by_state :
        (test : Bool)
        → (test ≡ true → is_up c.state ≡ true)
        → Quiet c (if test then record c { state = disconnecting } else c)
    by_state false e = Quiet-refl c
    by_state true e = disconnecting-Quiet c (e refl)

Quiet-if : (test : Bool) (c d : Connection) → Quiet c d → Quiet c (if test then d else c)
Quiet-if true c d q = q
Quiet-if false c d q = Quiet-refl c

-- A change of the watched events of a connection that is up.
watching-Quiet :
    (c : Connection) (ev : Events) (reading : Bool)
    → is_up c.state ≡ true
    → Quiet c (record c { events = ev; registered = true; reading = reading })
watching-Quiet c ev reading e =
    Quiet-silent c (record c { events = ev; registered = true; reading = reading }) refl
      (λ l f. Fits-live c.state c.events ev l e f)

pub start_read_in_loop-Quiet :
    (c : Connection) → is_up c.state ≡ true → Quiet c (start_read_in_loop c)
unfolding start_read_in_loop
start_read_in_loop-Quiet c e =
    Quiet-if (not c.reading || not c.events.read) c
      (record c { events = enable_reading c.events; registered = true; reading = true })
      (watching-Quiet c (enable_reading c.events) true e)

pub stop_read_in_loop-Quiet :
    (c : Connection) → is_up c.state ≡ true → Quiet c (stop_read_in_loop c)
unfolding stop_read_in_loop
stop_read_in_loop-Quiet c e =
    Quiet-if (c.reading || c.events.read) c
      (record c { events = disable_reading c.events; registered = true; reading = false })
      (watching-Quiet c (disable_reading c.events) false e)

output_drained-Quiet : (c : Connection) → is_up c.state ≡ true → Quiet c (output_drained c)
unfolding output_drained is_silent
output_drained-Quiet c e =
    Quiet-trans c c₁ (output_drained c)
      (Quiet-trans c c₀ c₁ (watching-Quiet c (disable_writing c.events) c.reading e)
        (Quiet-log_if c.has_write_complete queued_write_complete c₀ refl))
      (Quiet-if (is_disconnecting c₁.state) c₁ (shutdown_in_loop c₁) (shutdown_in_loop-Quiet c₁))
  where
    c₀ : Connection
    c₀ = record c { events = disable_writing c.events; registered = true }

    c₁ : Connection
    c₁ = log_if c.has_write_complete queued_write_complete c₀

and-left : (a b : Bool) → (a && b) ≡ true → a ≡ true
and-left true b h = refl
and-left false b h = cc

pub handle_write-Quiet :
    (answer : WriteResult) (c : Connection)
    → (c.events.write ≡ true → is_up c.state ≡ true)
    → QuietOk c (handle_write answer c)
unfolding handle_write is_silent
handle_write-Quiet (refused e) c d = Quiet-refl c
handle_write-Quiet (wrote n) c d =
    by_test (c.events.write && ltb 0 n) (λ t. d (and-left c.events.write (ltb 0 n) t))
      (retrieve n c.output)
  where
    written_from : Buffer → Connection
    written_from output = record c {
      output = output;
      effects = c.effects ++ (written (take n (peek c.output)) ∷ []);
    }

    drop_output : (output : Buffer) → Quiet c (written_from output)
    drop_output output =
        Quiet-trans c (log (written (take n (peek c.output))) c) (written_from output)
          (Quiet-log (written (take n (peek c.output))) c refl)
          (Quiet-silent (log (written (take n (peek c.output))) c) (written_from output) refl
            (λ l f. f))

    by_rest :
        (up : is_up c.state ≡ true) (output : Buffer) (empty : Bool)
        → Quiet c (if empty then output_drained (written_from output) else written_from output)
    by_rest up output true =
        Quiet-trans c (written_from output) (output_drained (written_from output))
          (drop_output output) (output_drained-Quiet (written_from output) up)
    by_rest up output false = drop_output output

    by_test :
        (test : Bool) (up : test ≡ true → is_up c.state ≡ true) (o : Option Buffer)
        → QuietOk c (
            if test
            then (o >>= λ output. some (
                if readable_bytes output == 0
                then output_drained (written_from output)
                else written_from output))
            else some c)
    by_test false up o = Quiet-refl c
    by_test true up none = tt
    by_test true up (some output) = by_rest (up refl) output (readable_bytes output == 0)
