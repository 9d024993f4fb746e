-- ===== src/Connector/Sockets.antt =====
-- How many sockets the connector created, against how many it closed or handed to the application
-- and whether one waits: totals, whatever the descriptors.
use proto_rpc.Prelude.{
  ℕ, ◌+◌, ◌≡◌, refl, ap, Bool, Option, none, some, List, [], ◌∷◌, ◌++◌, arith, ◌>>=◌, ◌>>◌, assert,
  if◌then◌else◌, true, false, subst,
}
use proto_rpc.Connector.{
  State, disconnected, connecting, connected, ConnectErrno, Effect, created, closed, new_connection,
  watched, removed, queued_reset, Connector, log, retry, connecting_to, after_connect, connect,
  start_in_loop, restart, remove_and_reset_channel, stop_in_loop, settle, handle_write,
  handle_error, is_disconnected, init_retry_delay_ms,
}

-- One for each time that any descriptor was created, closed or handed over.
unfoldable pub opened : Effect → ℕ
opened (created fd) = 1
opened _ = 0

unfoldable pub settled : Effect → ℕ
settled (closed fd) = 1
settled (new_connection fd) = 1
settled _ = 0

unfoldable pub count : (Effect → ℕ) → List Effect → ℕ
count f [] = 0
count f (e ∷ es) = f e + count f es

unfoldable pub waiting : State → ℕ
waiting connecting = 1
waiting _ = 0

-- The sockets are those settled and the one that waits.
unfoldable pub Balanced : Connector → Type 0
Balanced c = count opened c.effects ≡ count settled c.effects + waiting c.state

pub count-log :
    (f : Effect → ℕ) (es : List Effect) (e : Effect) → count f (es ++ (e ∷ [])) ≡ count f es + f e
unfolding count
count-log f [] e = omega arith
count-log f (d ∷ es) e = omega (arith, count-log f es e)

pub log-Balanced :
    (e : Effect) (c : Connector) → opened e ≡ 0 → settled e ≡ 0 → Balanced c → Balanced (log e c)
unfolding Balanced
log-Balanced e c o s b = omega (arith, count-log opened c.effects e, count-log settled c.effects e)

retry-Balanced :
    (fd : ℕ) (c : Connector)
    → count opened c.effects ≡ count settled c.effects + 1
    → Balanced (retry fd c)
unfolding Balanced retry waiting opened settled
retry-Balanced fd c b =
    omega (arith, count-log opened c.effects (closed fd), count-log settled c.effects (closed fd))

-- Where one socket more was created than settled: it is watched, or closed at once.
Pending : Connector → Type 0
Pending c = (count opened c.effects ≡ count settled c.effects + 1) × (waiting c.state ≡ 0)

closed-Balanced : (fd : ℕ) (c : Connector) → Pending c → Balanced (log (closed fd) c)
unfolding Balanced Pending opened settled
closed-Balanced fd c b = omega (
  arith,
  b.0,
  b.1,
  count-log opened c.effects (closed fd),
  count-log settled c.effects (closed fd),
)

watched-Balanced :
    (fd : ℕ) (c : Connector)
    → Pending c
    → Balanced (log (watched fd) (record c { state = connecting; channel = some fd }))
unfolding Balanced Pending opened settled waiting
watched-Balanced fd c b =
    omega (
      arith,
      b.0,
      count-log opened c.effects (watched fd),
      count-log settled c.effects (watched fd),
    )

-- The result of an operation, if it did not abort.
abbrev pub Ok : Option Connector → Type 0
Ok none = Unit {0}
Ok (some c) = Balanced c

pub Ok-Balanced : (r : Option Connector) (c : Connector) → r ≡ some c → Ok r → Balanced c
Ok-Balanced r c e h = subst Ok e h

connecting_to-Ok : (fd : ℕ) (c : Connector) → Pending c → Ok (connecting_to fd c)
unfolding connecting_to
connecting_to-Ok fd c b = by_channel c.channel
  where
    by_channel :
        (o : Option ℕ)
        → Ok (elim o [
          | none ↦ some (log (watched fd) (record c { state = connecting; channel = some fd }))
          | some old ↦ none
        ])
    by_channel none = watched-Balanced fd c b
    by_channel (some old) = tt

after_connect-Ok :
    (answer : ConnectErrno) (fd : ℕ) (c : Connector) → Pending c → Ok (after_connect answer fd c)
unfolding after_connect Pending
after_connect-Ok ConnectErrno.succeeded fd c b = connecting_to-Ok fd c b
after_connect-Ok ConnectErrno.einprogress fd c b = connecting_to-Ok fd c b
after_connect-Ok ConnectErrno.eintr fd c b = connecting_to-Ok fd c b
after_connect-Ok ConnectErrno.eisconn fd c b = connecting_to-Ok fd c b
after_connect-Ok ConnectErrno.eagain fd c b = retry-Balanced fd c b.0
after_connect-Ok ConnectErrno.eaddrinuse fd c b = retry-Balanced fd c b.0
after_connect-Ok ConnectErrno.eaddrnotavail fd c b = retry-Balanced fd c b.0
after_connect-Ok ConnectErrno.econnrefused fd c b = retry-Balanced fd c b.0
after_connect-Ok ConnectErrno.enetunreach fd c b = retry-Balanced fd c b.0
after_connect-Ok ConnectErrno.eacces fd c b = closed-Balanced fd c b
after_connect-Ok ConnectErrno.eperm fd c b = closed-Balanced fd c b
after_connect-Ok ConnectErrno.eafnosupport fd c b = closed-Balanced fd c b
after_connect-Ok ConnectErrno.ealready fd c b = closed-Balanced fd c b
after_connect-Ok ConnectErrno.ebadf fd c b = closed-Balanced fd c b
after_connect-Ok ConnectErrno.efault fd c b = closed-Balanced fd c b
after_connect-Ok ConnectErrno.enotsock fd c b = closed-Balanced fd c b
after_connect-Ok (ConnectErrno.other_errno n) fd c b = closed-Balanced fd c b

connect-Ok :
    (answer : ConnectErrno) (fd : ℕ) (c : Connector)
    → Balanced c
    → waiting c.state ≡ 0
    → Ok (connect fd answer c)
unfolding connect Balanced Pending opened settled
connect-Ok answer fd c b z = after_connect-Ok answer fd (log (created fd) c) (
  omega (arith, count-log opened c.effects (created fd), count-log settled c.effects (created fd)),
  z,
)

pub start_in_loop-Ok :
    (answer : ConnectErrno) (fd : ℕ) (c : Connector) → Balanced c → Ok (start_in_loop fd answer c)
unfolding start_in_loop is_disconnected waiting
start_in_loop-Ok answer fd c b = by_state c.state c.connect_wanted refl
  where
    by_state :
        (s : State) (wanted : Bool)
        → c.state ≡ s
        → Ok (assert (is_disconnected s) >> (if wanted then connect fd answer c else some c))
    by_state disconnected true e = connect-Ok answer fd c b (ap waiting e)
    by_state disconnected false e = b
    by_state connecting wanted e = tt
    by_state connected wanted e = tt

-- One socket more was created than settled.
One : Connector → Type 0
One c = count opened c.effects ≡ count settled c.effects + 1

removed-One : (fd : ℕ) (c : Connector) → One c → One (log queued_reset (log (removed fd) c))
unfolding One opened settled
removed-One fd c b = omega (
  arith,
  count-log opened c.effects (removed fd),
  count-log settled c.effects (removed fd),
  count-log opened (c.effects ++ (removed fd ∷ [])) queued_reset,
  count-log settled (c.effects ++ (removed fd ∷ [])) queued_reset,
)

settle-Balanced :
    (failed self : Bool) (fd : ℕ) (c : Connector) → One c → Balanced (settle failed self fd c)
unfolding settle Balanced One retry opened settled waiting
settle-Balanced failed self fd c b = ground (
  arith,
  count-log opened c.effects (closed fd),
  count-log settled c.effects (closed fd),
  count-log opened c.effects (new_connection fd),
  count-log settled c.effects (new_connection fd),
)

-- What each handler does with the socket that waits.
removed-Ok :
    (f : ℕ → Connector → Connector) (c : Connector)
    → ((fd : ℕ) (d : Connector) → One d → Balanced (f fd d))
    → One c
    → Ok (remove_and_reset_channel c >>= λ (fd, c'). some (f fd c'))
unfolding remove_and_reset_channel
removed-Ok f c h b = by_channel c.channel
  where
    by_channel :
        (o : Option ℕ)
        → Ok (
            (elim o [ none ↦ none | some fd ↦ some (fd, log queued_reset (log (removed fd) c)) ])
            >>= λ (fd, c'). some (f fd c'))
    by_channel none = tt
    by_channel (some fd) = h fd (log queued_reset (log (removed fd) c)) (removed-One fd c b)

Balanced-One : (c : Connector) → Balanced c → c.state ≡ connecting → One c
unfolding Balanced One waiting
Balanced-One c b e = omega (arith, b, ap waiting e)

pub stop_in_loop-Ok : (c : Connector) → Balanced c → Ok (stop_in_loop c)
unfolding stop_in_loop One
stop_in_loop-Ok c b = by_state c.state refl
  where
    by_state :
        (s : State)
        → c.state ≡ s
        → Ok (elim s [
          | connecting ↦
              remove_and_reset_channel (record c { state = disconnected }) >>= λ (fd, c').
              some (retry fd c')
          | _ ↦ some c
        ])
    by_state connecting e =
        removed-Ok retry (record c { state = disconnected }) retry-Balanced (Balanced-One c b e)
    by_state disconnected e = b
    by_state connected e = b

pub handle_write-Ok :
    (failed self : Bool) (c : Connector) → Balanced c → Ok (handle_write failed self c)
unfolding handle_write
handle_write-Ok failed self c b = by_state c.state refl
  where
    by_state :
        (s : State)
        → c.state ≡ s
        → Ok (elim s [
          | connecting ↦ remove_and_reset_channel c >>= λ (fd, c'). some (settle failed self fd c')
          | disconnected ↦ some c
          | connected ↦ none
        ])
    by_state connecting e =
        removed-Ok (settle failed self) c (settle-Balanced failed self) (Balanced-One c b e)
    by_state disconnected e = b
    by_state connected e = tt

pub handle_error-Ok : (c : Connector) → Balanced c → Ok (handle_error c)
unfolding handle_error One
handle_error-Ok c b = by_state c.state refl
  where
    by_state :
        (s : State)
        → c.state ≡ s
        → Ok (elim s [
          | connecting ↦ remove_and_reset_channel c >>= λ (fd, c'). some (retry fd c')
          | _ ↦ some c
        ])
    by_state connecting e = removed-Ok retry c retry-Balanced (Balanced-One c b e)
    by_state disconnected e = b
    by_state connected e = b

pub restart-Ok :
    (answer : ConnectErrno) (fd : ℕ) (c : Connector)
    → Balanced c
    → waiting c.state ≡ 0
    → Ok (restart fd answer c)
unfolding restart Balanced waiting
restart-Ok answer fd c b z =
    start_in_loop-Ok answer fd
      (record c {
        state = disconnected;
        retry_delay_ms = init_retry_delay_ms;
        connect_wanted = true;
      })
      (omega (arith, b, z))
