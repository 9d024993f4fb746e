-- ===== src/Acceptor.antt =====
-- network/include/network/Acceptor.h and network/src/Acceptor.cc, with the calls of
-- network/src/Socket.cc that open, accept and close: the listening socket and the spare descriptor
-- that is given up when there are no more. What the kernel answers is an argument; what is done to
-- descriptors is logged in `effects`.
pub mod Descriptors
use proto_rpc.Prelude.{
  ℕ, Bool, true, false, Option, none, some, List, [], ◌∷◌, ◌++◌, if◌then◌else◌, ◌>>=◌,
}
use proto_rpc.Channel.{Events, none_event, enable_reading, disable_all}

pub data Effect : Type 0 where
  opened closed accepted handed_over : ℕ → Effect
  listened removed_channel : Effect

-- `idle_fd` is `none` for a descriptor of -1, `events` is that of `acceptChannel_`, and
-- `has_callback` says that `newConnectionCallback_` is set.
pub record Acceptor : Type 0 where
  pub accept_fd : ℕ
  pub idle_fd : Option ℕ
  pub events : Events
  pub listening : Bool
  pub has_callback : Bool
  pub effects : List Effect

-- What `accept` answers: a descriptor, or the errno of a failure.
pub data AcceptAnswer : Type 0 where
  got_fd : ℕ → AcceptAnswer
  emfile : AcceptAnswer
  other_failure : ℕ → AcceptAnswer

abbrev pub log : Effect → Acceptor → Acceptor
log e a = record a { effects = a.effects ++ (e ∷ []) }

-- The constructor; the arguments are what `socket` and `open` give, of which a failure aborts.
unfoldable pub new_acceptor : Option ℕ → Option ℕ → Option Acceptor
new_acceptor socket_fd null_fd = do
  accept_fd ← socket_fd
  idle_fd ← null_fd
  some (record {
    accept_fd = accept_fd;
    idle_fd = some idle_fd;
    events = none_event;
    listening = false;
    has_callback = false;
    effects = opened accept_fd ∷ opened idle_fd ∷ [];
  })

unfoldable pub set_new_connection_callback : Acceptor → Acceptor
set_new_connection_callback a = record a { has_callback = true }

-- A failure of the system's `listen` aborts.
unfoldable pub start_listening : Bool → Acceptor → Option Acceptor
start_listening succeeds a =
    if succeeds
    then some (log listened (record a { listening = true; events = enable_reading a.events }))
    else none

-- `::close`, which does nothing for -1.
unfoldable pub close_fd : Option ℕ → Acceptor → Acceptor
close_fd none a = a
close_fd (some fd) a = log (closed fd) a

unfoldable pub note : (ℕ → Effect) → Option ℕ → Acceptor → Acceptor
note effect none a = a
note effect (some fd) a = log (effect fd) a

-- On EMFILE: `again` and `null_fd` are what the second `accept` and `open` give.
unfoldable pub free_one : Option ℕ → Option ℕ → Acceptor → Acceptor
free_one again null_fd a =
    let a₁ = close_fd a.idle_fd a in
    let a₂ = close_fd again (note accepted again (record a₁ { idle_fd = again })) in
    note opened null_fd (record a₂ { idle_fd = null_fd })

unfoldable pub handle_read : AcceptAnswer → Option ℕ → Option ℕ → Acceptor → Acceptor
handle_read (got_fd connfd) again null_fd a =
    if a.has_callback
    then log (handed_over connfd) (log (accepted connfd) a)
    else log (closed connfd) (log (accepted connfd) a)
handle_read emfile again null_fd a = free_one again null_fd a
handle_read (other_failure errno) again null_fd a = a

-- The destructor, and then that of `acceptSocket_`.
unfoldable pub destroy_acceptor : Acceptor → Acceptor
destroy_acceptor a =
    log (closed a.accept_fd)
      (close_fd a.idle_fd (log removed_channel (record a { events = disable_all a.events })))
