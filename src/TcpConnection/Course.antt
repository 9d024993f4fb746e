-- ===== src/TcpConnection/Course.antt =====
-- The operations of network/src/TcpConnection.cc that run callbacks, and the stages of a connection's
-- life.
use proto_rpc.Prelude.{
  ℕ, ◌≡◌, refl, ap, subst, ◌∙◌, ◌⊎◌, inl, inr, Bool, true, false, ◌||◌, Option, none, some, [], ◌∷◌,
  ◌++◌, ℤ, pos, negsuc, ◌>>=◌, ◌>>◌, assert, if◌then◌else◌, ltb,
}
use proto_rpc.Buffer.{read_fd, Buffer, ReadResult}
use proto_rpc.Channel.{none_event, disable_all, enable_reading}
use proto_rpc.TcpConnection.{
  Connection, State, connected, connecting, disconnecting, disconnected, connection_callback,
  message_callback, close_callback, removed_channel, log, is_connected, is_disconnected,
  is_disconnecting, is_connecting, force_close_in_loop, handle_close, connect_established,
  connect_destroyed, handle_read,
}
use proto_rpc.TcpConnection.Life.{
  Life, fresh, live, closing, closed, gone, is_silent, shown, follow, follow_all, Fits, Lives,
  extended, Quiet-Lives, Quiet-silent, is_up, Fits-up, Fits-down, Fits-gone, removed, removed-gone,
}
use proto_rpc.TcpConnection.Sending.{QuietOk}

-- An operation that does not abort keeps the stages.
abbrev pub LivesOk : Option Connection → Type 0
LivesOk none = Unit {0}
LivesOk (some c) = Lives c

pub QuietOk-LivesOk : (c : Connection) (o : Option Connection) → QuietOk c o → Lives c → LivesOk o
QuietOk-LivesOk c none q l = tt
QuietOk-LivesOk c (some c') q l = Quiet-Lives c c' q l

pub LivesOk-bind :
    (o : Option Connection) (f : Connection → Option Connection)
    → LivesOk o
    → ((c : Connection) → Lives c → LivesOk (f c))
    → LivesOk (o >>= f)
LivesOk-bind none f l h = tt
LivesOk-bind (some c) f l h = h c l

pub LivesOk-some : (o : Option Connection) (c : Connection) → o ≡ some c → LivesOk o → Lives c
LivesOk-some none c e l = cc
LivesOk-some (some d) c e l = subst Lives (some_eq d c e) l
  where
    some_eq : (d c : Connection) → some d ≡ some c → d ≡ c
    some_eq d c e = cc

-- The callbacks of a connection that goes down.
Lives-down :
    (c : Connection)
    → is_up c.state ≡ true
    → Lives c
    → Lives (
        log close_callback (
          log connection_callback
            (record c { state = disconnected; events = none_event; registered = true })))
unfolding Lives Fits follow_all follow is_silent shown
Lives-down c up (l, e, f) = (
  closed,
  extended closing closed (c.effects ++ (connection_callback ∷ [])) (close_callback ∷ [])
      (extended l closing c.effects (connection_callback ∷ []) e
        (rw (Fits-up c.state c.events l up f) refl))
      refl,
  (inl refl, refl),
)

pub handle_close-Lives : (c : Connection) → Lives c → LivesOk (handle_close c)
unfolding handle_close is_up disable_all
handle_close-Lives c l = by_state (is_connected c.state || is_disconnecting c.state) (λ e. e)
  where
    by_state :
        (test : Bool)
        → (test ≡ true → is_up c.state ≡ true)
        → LivesOk (
            assert test
            >> some (
                log close_callback (
                  log connection_callback
                    (record c { state = disconnected; events = none_event; registered = true }))))
    by_state true e = Lives-down c (e refl) l
    by_state false e = tt

message-Lives :
    (c : Connection) (input : Buffer)
    → is_up c.state ≡ true
    → Lives c
    → Lives (log message_callback (record c { input = input }))
unfolding Lives follow_all follow is_silent shown
message-Lives c input up (l, e, f) = (
  l,
  extended l l c.effects (message_callback ∷ []) e (rw (Fits-up c.state c.events l up f) refl),
  f,
)

input-Lives : (c : Connection) (input : Buffer) → Lives c → Lives (record c { input = input })
input-Lives c input =
    Quiet-Lives c (record c { input = input })
      (Quiet-silent c (record c { input = input }) refl (λ l f. f))

pub handle_read-Lives :
    (on_message : Buffer → Option Buffer) (answer : ReadResult) (c : Connection)
    → is_up c.state ≡ true
    → Lives c
    → LivesOk (handle_read on_message answer c)
unfolding handle_read
handle_read-Lives on_message answer c up l = by_answer (read_fd answer 0 c.input)
  where
    by_message :
        (o : Option Buffer)
        → LivesOk (o >>= λ input'. some (log message_callback (record c { input = input' })))
    by_message none = tt
    by_message (some input') = message-Lives c input' up l

    by_size :
        (test : Bool) (input : Buffer)
        → LivesOk (
            if test
            then (on_message input >>= λ input'.
                some (log message_callback (record c { input = input' })))
            else handle_close (record c { input = input }))
    by_size true input = by_message (on_message input)
    by_size false input = handle_close-Lives (record c { input = input }) (input-Lives c input l)

    by_answer :
        (o : Option (Buffer × ℤ × ℕ))
        → LivesOk (
            o >>= λ (input, n, saved_errno). elim n [
              | pos k ↦
                  if ltb 0 k
                  then (on_message input >>= λ input'.
                      some (log message_callback (record c { input = input' })))
                  else handle_close (record c { input = input })
              | negsuc k ↦ some (record c { input = input })
            ])
    by_answer none = tt
    by_answer (some (input, pos k, saved_errno)) = by_size (ltb 0 k) input
    by_answer (some (input, negsuc k, saved_errno)) = input-Lives c input l

pub force_close_in_loop-Lives : (c : Connection) → Lives c → LivesOk (force_close_in_loop c)
unfolding force_close_in_loop
force_close_in_loop-Lives c l = by_state (is_connected c.state || is_disconnecting c.state)
  where
    by_state : (test : Bool) → LivesOk (if test then handle_close c else some c)
    by_state true = handle_close-Lives c l
    by_state false = l

pub connect_established-Lives : (c : Connection) → Lives c → LivesOk (connect_established c)
unfolding connect_established Lives Fits follow_all follow is_silent shown is_connecting
connect_established-Lives c (l, e, f) = by_state c.state (fresh_then c.state l f)
  where
    fresh_then : (s : State) (l : Life) → Fits s c.events l → s ≡ connecting → l ≡ fresh
    fresh_then connecting l f h = f.0
    fresh_then connected l f h = absurd (cc)
    fresh_then disconnecting l f h = absurd (cc)
    fresh_then disconnected l f h = absurd (cc)

    by_state :
        (s : State)
        → (s ≡ connecting → l ≡ fresh)
        → LivesOk (
            assert (is_connecting s)
            >> some (
                log connection_callback (record c {
                  state = connected;
                  events = enable_reading c.events;
                  registered = true;
                })))
    by_state connecting h =
        (live, extended l live c.effects (connection_callback ∷ []) e (rw (h refl) refl), refl)
    by_state connected h = tt
    by_state disconnecting h = tt
    by_state disconnected h = tt

fresh-not_gone : fresh ≡ gone → ⊥
fresh-not_gone h = cc

-- The channel is taken off the loop while the connection is up or, once only, when it is closed.
pub connect_destroyed-Lives :
    (c : Connection)
    → (is_connected c.state ≡ true)
      ⊎ ((is_disconnected c.state ≡ true) × (removed c.effects ≡ false))
    → Lives c
    → LivesOk (connect_destroyed c)
unfolding connect_destroyed Lives Fits follow_all follow is_silent shown disable_all is_up
connect_destroyed-Lives c (inl up) (l, e, f) = rw up (
    (
      gone,
      extended closing gone (c.effects ++ (connection_callback ∷ [])) (removed_channel ∷ [])
          (extended l closing c.effects (connection_callback ∷ []) e
            (rw (Fits-up c.state c.events l (rw up refl) f) refl))
          refl,
      (inr refl, refl),
    ))
connect_destroyed-Lives c (inr (down, kept)) (l, e, f) =
    by_stage (Fits-down c.state c.events l down f)
  where
    by_map :
        (test : Bool)
        → Lives (log removed_channel (record c { events = none_event; registered = false }))
        → LivesOk (
            assert test
            >> some (log removed_channel (record c { events = none_event; registered = false })))
    by_map true l = l
    by_map false l = tt

    by_stage :
        (is_connected c.state ≡ false) × ((l ≡ closed) ⊎ (l ≡ gone)) × (c.events ≡ none_event)
        → LivesOk (connect_destroyed c)
    by_stage (off, inl at, quiet) =
        rw (off, quiet)
          (by_map c.registered (
            gone,
            extended closed gone c.effects (removed_channel ∷ []) (e ∙ ap some at) refl,
            Fits-gone c.state down,
          ))
    by_stage (off, inr at, quiet) =
        absurd (fresh-not_gone (removed-gone fresh c.effects kept (e ∙ ap some at)))
