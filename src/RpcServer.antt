-- ===== src/RpcServer.antt =====
-- proto_rpc/rpc_framework/RpcServer.h and RpcServer.cc: a server whose connections each have an
-- RpcChannel. A connection is known by its number. The channels point to the server's map of
-- services, so each gets the map as it is when a message arrives; a channel that was destroyed is
-- `none`, and so is the use of one.
pub mod Isolation
pub mod Requests
use Prim.Native.String.{String}
use text.Mathlib.Text.{◌==◌ as str_eq}
use proto_rpc.Prelude.{
  ℕ, Bool, true, false, Option, none, some, List, [], ◌∷◌, ◌++◌, ◌>>=◌, if◌then◌else◌,
}
use proto_rpc.StdMap.{find, assign}
use proto_rpc.Buffer.{Buffer, initial_size, new_buffer, read_fd, got}
use proto_rpc.RpcCodec.{Wire}
use proto_rpc.RpcChannel.{
  RpcChannel, Service, Effect, new_channel, set_services, on_message, done_callback, destroy,
}
use proto_rpc.TcpServer.{Server, new_server, set_server_threads, start_server}

-- A connection: its context, its `inputBuffer_`, and what the channels did that its context had
-- before.
pub record Peer : Type 0 where
  pub context : Option RpcChannel
  pub input : Buffer
  pub past : List Effect

pub record RpcServer : Type 0 where
  pub server : Server
  pub services : List (String × Service)
  pub peers : List (ℕ × Peer)

-- The constructor; `name` is "RpcServer", and `ip_port` the address to listen on.
unfoldable pub new_rpc_server : ℕ → List ℕ → List ℕ → RpcServer
new_rpc_server loop name ip_port = record {
  server = new_server loop name ip_port;
  services = [];
  peers = [];
}

pub set_rpc_threads : ℕ → RpcServer → RpcServer
set_rpc_threads n s = record s { server = set_server_threads n s.server }

pub start_rpc_server : (ℕ → ℕ) → Bool → RpcServer → Option RpcServer
start_rpc_server start_loop listening s =
    start_server start_loop false listening s.server >>= λ server.
    some (record s { server = server })

-- `services_[name] = service`.
unfoldable pub assign_service : String → Service → List (String × Service) → List (String × Service)
assign_service name service [] = (name, service) ∷ []
assign_service name service ((n, s) ∷ m) =
    if str_eq n name then (n, service) ∷ m else (n, s) ∷ assign_service name service m

unfoldable pub register_service : String → Service → RpcServer → RpcServer
register_service name service s = record s { services = assign_service name service s.services }

-- What the destructor of a context does.
unfoldable pub reset : Option RpcChannel → List Effect
reset none = []
reset (some ch) = destroy ch

on_peer : ℕ → (Peer → Option Peer) → RpcServer → Option RpcServer
on_peer conn f s =
    find conn s.peers >>= λ p. f p >>= λ p'. some (record s { peers = assign conn p' s.peers })

-- The branch of `onConnection` for a connection that is up; `start` is what the channel's `id_`
-- starts at.
pub peer_up : ℕ → ℕ → List (String × Service) → Option Peer
peer_up conn start services = new_buffer initial_size >>= λ input. some (record {
  context = some (set_services services (new_channel conn start));
  input = input;
  past = [];
})

pub peer_down : Peer → Peer
peer_down p = record p { context = none; past = p.past ++ reset p.context }

pub on_connection : Bool → ℕ → ℕ → RpcServer → Option RpcServer
on_connection true conn start s =
    peer_up conn start s.services >>= λ p. some (record s { peers = assign conn p s.peers })
on_connection false conn start s = on_peer conn (λ p. some (peer_down p)) s

module _ (w : Wire) where
  -- The message callback that `onConnection` set, after `handleRead` read these bytes.
  peer_reads : ℕ → List (String × Service) → List ℕ → Peer → Option Peer
  peer_reads conn services bytes p = do
    ch ← p.context
    read ← read_fd (got bytes) 0 p.input
    done ← on_message w conn (set_services services ch) read.0
    some (record p { context = some done.0; input = done.1 })

  pub server_message : ℕ → List ℕ → RpcServer → Option RpcServer
  server_message conn bytes s = on_peer conn (peer_reads conn s.services bytes) s

  -- A service runs the closure that the channel of the connection made for a call.
  peer_done : List ℕ → ℕ → Peer → Option Peer
  peer_done bytes id p = do
    ch ← p.context
    ch' ← done_callback w bytes id ch
    some (record p { context = some ch' })

  pub service_done : ℕ → List ℕ → ℕ → RpcServer → Option RpcServer
  service_done conn bytes id s = on_peer conn (peer_done bytes id) s
