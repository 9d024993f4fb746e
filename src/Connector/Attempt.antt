-- ===== src/Connector/Attempt.antt =====
-- The attempts of a connector, from where it has no channel.
use proto_rpc.Prelude.{ℕ, ◌≡◌, refl, ◌⊎◌, inl, inr, Option, none, some, ◌++◌, ◌∷◌, []}
use proto_rpc.Connector.{
  ConnectErrno, succeeded, einprogress, eintr, eisconn, eagain, eaddrinuse, eaddrnotavail,
  econnrefused, enetunreach, eacces, eperm, eafnosupport, ealready, ebadf, efault, enotsock,
  other_errno, Connector, connecting, closed, watched, log, retry, connecting_to, after_connect,
}
use proto_rpc.Connector.Sockets.{waiting}
use proto_rpc.Connector.Owned.{OwnedBy, Owned, opens, settles, quiet-OwnedBy, closed-OwnedBy}

pub record IsIdle (k : Connector) : Type 0 where
  pub not_waiting : waiting k.state ≡ 0
  pub no_channel : k.channel ≡ none

pub record IsBusy (fd : ℕ) (k : Connector) : Type 0 where
  pub waits : k.state ≡ connecting
  pub on_socket : k.channel ≡ some fd

abbrev pub Attempted : ℕ → Option Connector → Type 0
Attempted fd r = (k : Connector) × (r ≡ some k) × (IsIdle k ⊎ IsBusy fd k) × Owned k

connecting_to-Attempted :
    (fd : ℕ) (k : Connector)
    → IsIdle k
    → OwnedBy k.effects (some fd)
    → Attempted fd (connecting_to fd k)
unfolding connecting_to opens settles
connecting_to-Attempted fd k v b = (
  log (watched fd) (record k { state = connecting; channel = some fd }),
  rw (v.no_channel) refl,
  inr (record { waits = refl; on_socket = refl }),
  quiet-OwnedBy k.effects (some fd) (watched fd) (λ f. (refl, refl)) b,
)

closed-idle :
    (fd : ℕ) (k : Connector)
    → IsIdle k
    → OwnedBy k.effects (some fd)
    → OwnedBy (k.effects ++ (closed fd ∷ [])) k.channel
closed-idle fd k v b = rw v.no_channel (closed-OwnedBy fd k.effects b)

retry-Attempted :
    (fd : ℕ) (k : Connector)
    → IsIdle k
    → OwnedBy k.effects (some fd)
    → Attempted fd (some (retry fd k))
unfolding retry waiting
retry-Attempted fd k v b = (
  retry fd k,
  refl,
  inl (record { not_waiting = refl; no_channel = v.no_channel }),
  closed-idle fd k v b,
)

closed-Attempted :
    (fd : ℕ) (k : Connector)
    → IsIdle k
    → OwnedBy k.effects (some fd)
    → Attempted fd (some (log (closed fd) k))
closed-Attempted fd k v b = (
  log (closed fd) k,
  refl,
  inl (record { not_waiting = v.not_waiting; no_channel = v.no_channel }),
  closed-idle fd k v b,
)

pub after_connect-Attempted :
    (answer : ConnectErrno) (fd : ℕ) (k : Connector)
    → IsIdle k
    → OwnedBy k.effects (some fd)
    → Attempted fd (after_connect answer fd k)
unfolding after_connect
after_connect-Attempted succeeded fd k v b = connecting_to-Attempted fd k v b
after_connect-Attempted einprogress fd k v b = connecting_to-Attempted fd k v b
after_connect-Attempted eintr fd k v b = connecting_to-Attempted fd k v b
after_connect-Attempted eisconn fd k v b = connecting_to-Attempted fd k v b
after_connect-Attempted eagain fd k v b = retry-Attempted fd k v b
after_connect-Attempted eaddrinuse fd k v b = retry-Attempted fd k v b
after_connect-Attempted eaddrnotavail fd k v b = retry-Attempted fd k v b
after_connect-Attempted econnrefused fd k v b = retry-Attempted fd k v b
after_connect-Attempted enetunreach fd k v b = retry-Attempted fd k v b
after_connect-Attempted eacces fd k v b = closed-Attempted fd k v b
after_connect-Attempted eperm fd k v b = closed-Attempted fd k v b
after_connect-Attempted eafnosupport fd k v b = closed-Attempted fd k v b
after_connect-Attempted ealready fd k v b = closed-Attempted fd k v b
after_connect-Attempted ebadf fd k v b = closed-Attempted fd k v b
after_connect-Attempted efault fd k v b = closed-Attempted fd k v b
after_connect-Attempted enotsock fd k v b = closed-Attempted fd k v b
after_connect-Attempted (other_errno n) fd k v b = closed-Attempted fd k v b
