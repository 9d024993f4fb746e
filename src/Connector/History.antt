-- ===== src/Connector/History.antt =====
-- The histories of a connector, and the totals of the sockets in each.
use proto_rpc.Prelude.{ℕ, ◌≡◌, refl, Bool, true, false, some}
use proto_rpc.Connector.{
  ConnectErrno, queued_start, queued_stop, Connector, start, stop, start_in_loop, restart,
  reset_channel, stop_in_loop, handle_write, handle_error, new_connector,
}
use proto_rpc.Connector.Sockets.{
  Balanced, waiting, opened, settled, count, Ok-Balanced, log-Balanced, start_in_loop-Ok,
  stop_in_loop-Ok, handle_write-Ok, handle_error-Ok, restart-Ok,
}

-- What happens to a connector: a call of the application, a task that the loop runs, or an event.
pub data Step : Connector → Connector → Type 0 where
  starts : {c : Connector} → Step c (start c)
  stops : {c : Connector} → Step c (stop c)
  resets : {c : Connector} → Step c (reset_channel c)
  start_runs :
      {c c' : Connector} (fd : ℕ) (answer : ConnectErrno)
      → start_in_loop fd answer c ≡ some c'
      → Step c c'
  restarts :
      {c c' : Connector} (fd : ℕ) (answer : ConnectErrno)
      → waiting c.state ≡ 0
      → restart fd answer c ≡ some c'
      → Step c c'
  stop_runs : {c c' : Connector} → stop_in_loop c ≡ some c' → Step c c'
  writable :
      {c c' : Connector} (failed self : Bool) → handle_write failed self c ≡ some c' → Step c c'
  fails : {c c' : Connector} → handle_error c ≡ some c' → Step c c'

pub data Reach : Connector → Type 0 where
  here : Reach new_connector
  after : {c c' : Connector} → Reach c → Step c c' → Reach c'

Step-Balanced : {c c' : Connector} → Step c c' → Balanced c → Balanced c'
unfolding start stop reset_channel Balanced opened settled
Step-Balanced (starts {c = c}) b =
    log-Balanced queued_start (record c { connect_wanted = true }) refl refl b
Step-Balanced (stops {c = c}) b =
    log-Balanced queued_stop (record c { connect_wanted = false }) refl refl b
Step-Balanced resets b = b
Step-Balanced (start_runs {c = c} {c' = c'} fd answer e) b =
    Ok-Balanced (start_in_loop fd answer c) c' e (start_in_loop-Ok answer fd c b)
Step-Balanced (restarts {c = c} {c' = c'} fd answer z e) b =
    Ok-Balanced (restart fd answer c) c' e (restart-Ok answer fd c b z)
Step-Balanced (stop_runs {c = c} {c' = c'} e) b =
    Ok-Balanced (stop_in_loop c) c' e (stop_in_loop-Ok c b)
Step-Balanced (writable {c = c} {c' = c'} failed self e) b =
    Ok-Balanced (handle_write failed self c) c' e (handle_write-Ok failed self c b)
Step-Balanced (fails {c = c} {c' = c'} e) b =
    Ok-Balanced (handle_error c) c' e (handle_error-Ok c b)

-- After any history of a new connector in which `restart` is not called while a socket waits, the
-- sockets created are as many as those closed or handed to the application, and one more exactly
-- while the connector is connecting.
pub Reach-Balanced : {c : Connector} → Reach c → Balanced c
unfolding new_connector Balanced count opened waiting
Reach-Balanced here = refl
Reach-Balanced (after r s) = Step-Balanced s (Reach-Balanced r)
