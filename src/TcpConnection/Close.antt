-- ===== src/TcpConnection/Close.antt =====
-- How a connection ends: the order of the last bytes and the shutdown of the write side, the forced
-- close, and the removal from the loop.
use proto_rpc.Prelude.{
  ℕ, ◌≡◌, ◌⊎◌, refl, sym, ap, ◌∙◌, true, false, Bool-cases, some, List, [], ◌∷◌, ◌++◌, append-nil,
  ◌||◌, inl, inr,
}
use proto_rpc.Channel.{disable_all}
use proto_rpc.TcpConnection.{
  Connection, disconnected, is_connected, is_disconnecting, shutdown_in_loop, log, log_if,
  shut_down_write, force_close_in_loop, handle_close, connect_destroyed, close_callback,
  connection_callback, removed_channel,
}
use proto_rpc.TcpConnection.Output.{Streams, Streams-drained, transmitted}

-- If the stream is kept (the output buffer is valid, what the socket took and then what waits in
-- the buffer is just what was sent, in order, and nothing waits unless the channel waits to
-- write), `shutdownInLoop` does nothing while the channel waits to write, and otherwise shuts the
-- write side down, and then the socket has taken every byte sent.
pub shutdown_in_loop_lem :
    (sent : List ℕ) (c : Connection)
    → Streams sent c
    → ((c.events.write ≡ true) × (shutdown_in_loop c ≡ c))
      ⊎ ((shutdown_in_loop c ≡ log shut_down_write c) × (transmitted c.effects ≡ sent))
unfolding shutdown_in_loop log_if
shutdown_in_loop_lem sent c s = elim (Bool-cases c.events.write) [
  | inl q ↦ inl (q, rw q refl)
  | inr q ↦ inr (
    rw q refl,
    sym (append-nil (transmitted c.effects))
        ∙ ap (◌++◌ (transmitted c.effects)) (sym (Streams-drained sent c s q))
        ∙ s.bytes,
  )
]

-- A connection that is connected or disconnecting is closed by `forceCloseInLoop` without an
-- abort: it is disconnected, the connection callback ran before the close callback, and
-- `connectDestroyed` then takes its channel off the loop without an abort or a further callback,
-- and the poller has the channel no more.
pub close-destroy :
    (c : Connection)
    → (is_connected c.state || is_disconnecting c.state) ≡ true
    → (c' : Connection) × (force_close_in_loop c ≡ some c')
      × (c'.state ≡ disconnected)
      × (connect_destroyed c' ≡ some (log removed_channel (record c' { registered = false })))
      × (c'.effects ≡ (c.effects ++ (connection_callback ∷ [])) ++ (close_callback ∷ []))
unfolding force_close_in_loop handle_close connect_destroyed disable_all is_connected
close-destroy c live = (
  log close_callback (
      log connection_callback
        (record c { state = disconnected; events = disable_all c.events; registered = true })),
  rw (live) refl,
  refl,
  refl,
  refl,
)
