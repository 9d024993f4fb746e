-- ===== src/TcpConnection/Sending.antt =====
-- The sending operations of network/src/TcpConnection.cc and the stages of a connection's life.
use proto_rpc.Prelude.{
  ℕ, ◌≡◌, refl, Bool, true, false, not, ◌&&◌, Option, none, some, List, length, drop, sub_size,
  ◌>>=◌, if◌then◌else◌, ltb, take, ◌==◌,
}
use proto_rpc.Buffer.{retrieve_all, retrieve_all_as_string, Buffer, append, peek, readable_bytes}
use proto_rpc.Channel.{enable_writing}
use proto_rpc.TcpConnection.{
  Connection, State, connected, connecting, disconnecting, disconnected, Effect, written,
  queued_write_complete, queued_send, WriteResult, wrote, refused, log, log_if, is_connected,
  is_disconnected, is_disconnecting, is_connecting, keep_rest, is_fault, write_directly,
  send_in_loop, send,
}
use proto_rpc.TcpConnection.Life.{
  is_silent, Quiet, Quiet-trans, Quiet-silent, Quiet-log, Quiet-log_if, Fits-live, is_up,
}

-- An operation that does not abort is a step that the application does not see.
abbrev pub QuietOk : Connection → Option Connection → Type 0
QuietOk c none = Unit {0}
QuietOk c (some c') = Quiet c c'

pub QuietOk-trans :
    (c d : Connection) (r : Option Connection) → Quiet c d → QuietOk d r → QuietOk c r
QuietOk-trans c d none q k = tt
QuietOk-trans c d (some e) q k = Quiet-trans c d e q k

pub Quiet-refl : (c : Connection) → Quiet c c
Quiet-refl c = Quiet-silent c c refl (λ l f. f)

log_if-state : (test : Bool) (e : Effect) (c : Connection) → (log_if test e c).state ≡ c.state
unfolding log_if
log_if-state true e c = refl
log_if-state false e c = refl

keep_rest-Quiet :
    (n : ℕ) (rest : List ℕ) (c : Connection) → is_up c.state ≡ true → QuietOk c (keep_rest n rest c)
unfolding keep_rest
keep_rest-Quiet n rest c d = by_size (ltb 0 n) (append rest c.output)
  where
    by_size :
        (test : Bool) (o : Option Buffer)
        → QuietOk c (
            if test
            then (o >>= λ output.
                some (record c {
                  output = output;
                  events = enable_writing c.events;
                  registered = true;
                }))
            else some c)
    by_size false o = Quiet-refl c
    by_size true none = tt
    by_size true (some output) =
        Quiet-silent c
          (record c { output = output; events = enable_writing c.events; registered = true }) refl
          (λ l f. Fits-live c.state c.events (enable_writing c.events) l d f)

write_directly-Quiet :
    (answer : WriteResult) (bytes : List ℕ) (c : Connection)
    → is_up c.state ≡ true
    → QuietOk c (write_directly answer bytes c)
unfolding write_directly is_silent log_if
write_directly-Quiet (wrote n) bytes c d =
    by_done (sub_size (length bytes) n == 0 && c.has_write_complete)
  where
    c₁ : Connection
    c₁ = log (written (take n bytes)) c

    by_done :
        (done : Bool)
        → QuietOk c (
            keep_rest
              (sub_size (length bytes) n)
              (drop n bytes)
              (log_if done queued_write_complete c₁))
    by_done done =
        QuietOk-trans c c₁
          (keep_rest (sub_size (length bytes) n) (drop n bytes)
            (log_if done queued_write_complete c₁))
          (Quiet-log (written (take n bytes)) c refl)
          (QuietOk-trans c₁ (log_if done queued_write_complete c₁)
            (keep_rest (sub_size (length bytes) n) (drop n bytes)
              (log_if done queued_write_complete c₁))
            (Quiet-log_if done queued_write_complete c₁ refl)
            (keep_rest-Quiet (sub_size (length bytes) n) (drop n bytes)
              (log_if done queued_write_complete c₁)
              (rw (log_if-state done queued_write_complete c₁) d)))
write_directly-Quiet (refused e) bytes c d = by_fault (is_fault e)
  where
    by_fault : (test : Bool) → QuietOk c (if test then some c else keep_rest (length bytes) bytes c)
    by_fault true = Quiet-refl c
    by_fault false = keep_rest-Quiet (length bytes) bytes c d

pub send_in_loop-Quiet :
    (answer : WriteResult) (bytes : List ℕ) (c : Connection)
    → is_connecting c.state ≡ false
    → QuietOk c (send_in_loop answer bytes c)
unfolding send_in_loop is_connecting is_disconnected is_up is_connected is_disconnecting
send_in_loop-Quiet answer bytes c e =
    by_tests (is_disconnected c.state) (not c.events.write && readable_bytes c.output == 0)
      (λ d. not_down c.state e d)
  where
    not_down : (s : State) → is_connecting s ≡ false → is_disconnected s ≡ false → is_up s ≡ true
    not_down connecting e d = absurd (cc)
    not_down connected e d = refl
    not_down disconnecting e d = refl
    not_down disconnected e d = absurd (cc)

    by_tests :
        (down idle : Bool)
        → (down ≡ false → is_up c.state ≡ true)
        → QuietOk c (
            if down
            then some c
            else if idle
            then write_directly answer bytes c
            else keep_rest (length bytes) bytes c)
    by_tests true idle e = Quiet-refl c
    by_tests false true e = write_directly-Quiet answer bytes c (e refl)
    by_tests false false e = keep_rest-Quiet (length bytes) bytes c (e refl)

abbrev pub QuietSend : Connection → Option (Buffer × Connection) → Type 0
QuietSend c none = Unit {0}
QuietSend c (some (buf, c')) = Quiet c c'

connected-not_connecting : (s : State) → is_connected s ≡ true → is_connecting s ≡ false
unfolding is_connected is_connecting
connected-not_connecting connecting e = absurd (cc)
connected-not_connecting connected e = refl
connected-not_connecting disconnecting e = refl
connected-not_connecting disconnected e = refl

pub send-Quiet :
    (in_loop : Bool) (answer : WriteResult) (buf : Buffer) (c : Connection)
    → QuietSend c (send in_loop answer buf c)
unfolding send is_silent
send-Quiet in_loop answer buf c = by_state (is_connected c.state) in_loop (λ e. e)
  where
    by_sent :
        (o : Option Connection)
        → QuietOk c o
        → QuietSend c (o >>= λ c'. some (retrieve_all buf, c'))
    by_sent none q = tt
    by_sent (some c') q = q

    by_queued :
        (o : Option (List ℕ × Buffer))
        → QuietSend c (o >>= λ (bytes, buf'). some (buf', log (queued_send bytes) c))
    by_queued none = tt
    by_queued (some (bytes, buf')) = Quiet-log (queued_send bytes) c refl

    by_state :
        (test in_loop : Bool)
        → (test ≡ true → is_connected c.state ≡ true)
        → QuietSend c (
            if not test
            then some (buf, c)
            else if in_loop
            then (send_in_loop answer (take (readable_bytes buf) (peek buf)) c >>= λ c'.
                some (retrieve_all buf, c'))
            else (retrieve_all_as_string buf >>= λ (bytes, buf').
                some (buf', log (queued_send bytes) c)))
    by_state false in_loop e = Quiet-refl c
    by_state true true e = by_sent (send_in_loop answer (take (readable_bytes buf) (peek buf)) c) (
        send_in_loop-Quiet answer (take (readable_bytes buf) (peek buf)) c
          (connected-not_connecting c.state (e refl)))
    by_state true false e = by_queued (retrieve_all_as_string buf)
