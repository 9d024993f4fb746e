-- ===== src/Tests/RpcServerTests.antt =====
-- A server with two connections and a service, and two answers in either order.
use mathlib.Core.List.{Perm}
use mathlib.Core.List.Perm
use proto_rpc.Prelude.{
  ℕ, ◌≤◌, ◌≡◌, refl, true, none, some, List, [], ◌∷◌, ◌++◌, arith, length, ap, sym, ◌∙◌, ◌>>=◌,
}
use proto_rpc.Endian.{host_to_network}
use proto_rpc.Buffer.{Buffer, extra_size}
use proto_rpc.Buffer.View.{IsValid, contents}
use proto_rpc.StdMap.{assign}
use proto_rpc.Message.{RpcMessage}
use proto_rpc.RpcCodec.Frame.{frame, IsSendable}
use proto_rpc.RpcCodec.Stream.{seen}
use proto_rpc.RpcCodec.Sequence.{frames, front-nil}
use proto_rpc.RpcChannel.{
  RpcChannel, OutstandingCall, Service, Effect, new_channel, on_message, on_rpc_message,
  response_message, request_message, set_services,
}
use proto_rpc.RpcChannel.Order.{IsAnswers, settled, on_message-settled, on_message-reordered}
use proto_rpc.RpcServer.{
  RpcServer, Peer, new_rpc_server, register_service, assign_service, on_connection, server_message,
}
use proto_rpc.RpcServer.Isolation.{
  Event, registers, comes_up, arrives, run, only, run-alone, run-only, step,
}
use proto_rpc.RpcServer.Requests.{request-served}
use proto_rpc.Tests.Base.{holding, contents-holding, holding-IsValid, test_wire, asking, answering}
use proto_rpc.Tests.CodecTests.{asking-IsSendable, answering-IsSendable}

abbrev first : RpcMessage
first = response_message 1 (7 ∷ [])

abbrev second : RpcMessage
second = response_message 2 []

first-IsSendable : IsSendable test_wire first
unfolding response_message
first-IsSendable = record { round_trip = refl; limit = omega arith }

second-IsSendable : IsSendable test_wire second
unfolding response_message
second-IsSendable = record { round_trip = refl; limit = omega arith }

forward : IsAnswers test_wire (first ∷ second ∷ [])
unfolding response_message
forward = record {
  sendable = (first-IsSendable, (second-IsSendable, tt));
  answers = (refl, (refl, tt));
  distinct = ((omega arith, tt), (tt, tt));
}

backward : IsAnswers test_wire (second ∷ first ∷ [])
unfolding response_message
backward = record {
  sendable = (second-IsSendable, (first-IsSendable, tt));
  answers = (refl, (refl, tt));
  distinct = ((omega arith, tt), (tt, tt));
}

abbrev two_waiting : RpcChannel
two_waiting = record (new_channel 5 0) {
  id = 2;
  outstandings =
      (1, record { response_object = some 10; done = some 20 })
      ∷ (2, record { response_object = some 11; done = none })
      ∷ [];
}

abbrev stream : List RpcMessage → Buffer
stream ms = holding (frames test_wire ms ++ [])

forward-IsValid : IsValid (stream (first ∷ second ∷ []))
unfolding frames response_message host_to_network
forward-IsValid = holding-IsValid (frames test_wire (first ∷ second ∷ []) ++ []) (omega arith)

backward-IsValid : IsValid (stream (second ∷ first ∷ []))
unfolding frames response_message host_to_network
backward-IsValid = holding-IsValid (frames test_wire (second ∷ first ∷ []) ++ []) (omega arith)

on_message-settled_example :
    seen
      (on_rpc_message test_wire 5)
      (on_message test_wire 5 two_waiting (stream (first ∷ second ∷ [])))
    ≡ some (settled (first ∷ second ∷ []) two_waiting, [])
unfolding new_channel
on_message-settled_example =
    on_message-settled test_wire (first ∷ second ∷ []) [] two_waiting (stream (first ∷ second ∷ []))
      forward (front-nil test_wire) forward-IsValid
      (contents-holding (frames test_wire (first ∷ second ∷ []) ++ []))

on_message-reordered_example :
    (waiting : List (ℕ × OutstandingCall)) × (done done' : List Effect) × (seen
        (on_rpc_message test_wire 5)
        (on_message test_wire 5 two_waiting (stream (first ∷ second ∷ [])))
      ≡ some (record two_waiting { outstandings = waiting; effects = [] ++ done }, []))
    × (seen
          (on_rpc_message test_wire 5)
          (on_message test_wire 5 two_waiting (stream (second ∷ first ∷ [])))
        ≡ some (record two_waiting { outstandings = waiting; effects = [] ++ done' }, []))
    × Perm done done'
unfolding new_channel
on_message-reordered_example =
    on_message-reordered test_wire (first ∷ second ∷ []) (second ∷ first ∷ []) [] two_waiting
      (stream (first ∷ second ∷ [])) (stream (second ∷ first ∷ [])) (Perm.swap second first [])
      forward backward (front-nil test_wire) forward-IsValid backward-IsValid
      (contents-holding (frames test_wire (first ∷ second ∷ []) ++ []))
      (contents-holding (frames test_wire (second ∷ first ∷ []) ++ []))

abbrev echo : Service
echo = record {
  has_method = λ m. true;
  parses = λ m bytes. true;
  at_once = λ m bytes. some (7 ∷ []);
}

abbrev idle : RpcServer
idle = new_rpc_server 0 (83 ∷ []) (58 ∷ 49 ∷ [])

asking_short : length (frame test_wire asking) ≤ extra_size
unfolding request_message host_to_network
asking_short = omega arith

-- The server after one more connection came up, a service was registered, and a request arrived.
abbrev Served : ℕ → RpcServer → Type 0
Served conn s =
    (s₁ : RpcServer) × (p : Peer) × (on_connection true conn 0 s ≡ some s₁)
    × (server_message test_wire conn (frame test_wire asking) (register_service "echo" echo s₁)
        ≡ some (record s₁ {
          services = assign_service "echo" echo s.services;
          peers = assign conn p s₁.peers;
        }))
    × (p.context
        ≡ some (record (set_services (assign_service "echo" echo s.services) (new_channel conn 0)) {
          calls =
              record {
                service_name = "echo";
                method_name = "say";
                argument = 5 ∷ 6 ∷ [];
                call_id = 1;
              }
              ∷ [];
          sent = frame test_wire answering ∷ [];
        }))
    × (contents p.input ≡ [])

request-served_example : Served 1 idle
unfolding request_message
request-served_example =
    request-served test_wire idle 1 0 1 "echo" "say" (5 ∷ 6 ∷ []) true (7 ∷ []) echo
      asking-IsSendable answering-IsSendable asking_short refl refl refl

one_served : Served 1 idle
unfolding request_message
one_served =
    request-served test_wire idle 1 0 1 "echo" "say" (5 ∷ 6 ∷ []) true (7 ∷ []) echo
      asking-IsSendable answering-IsSendable asking_short refl refl refl

two_served : Served 4 one_served.0
unfolding request_message
two_served =
    request-served test_wire one_served.0 4 0 1 "echo" "say" (5 ∷ 6 ∷ []) true (7 ∷ []) echo
      asking-IsSendable answering-IsSendable asking_short refl refl refl

-- The bytes behind the first of the frame of `asking`.
abbrev asking_rest : List ℕ
asking_rest = 0 ∷ 0 ∷ 12 ∷ 82 ∷ 80 ∷ 67 ∷ 48 ∷ 0 ∷ 1 ∷ 5 ∷ 6 ∷ 0 ∷ 0 ∷ 0 ∷ 9 ∷ []

frame-asking : frame test_wire asking ≡ 0 ∷ asking_rest
unfolding request_message host_to_network
frame-asking = refl

abbrev events : List Event
events = comes_up 1 0 ∷ comes_up 4 0 ∷ registers "echo" echo ∷ arrives 4 0 asking_rest ∷ []

abbrev final : RpcServer
final = record two_served.0 {
  services = assign_service "echo" echo one_served.0.services;
  peers = assign 4 two_served.1 two_served.0.peers;
}

reaches_final : run test_wire events idle ≡ some final
unfolding run step
reaches_final =
    ap
      (λ o. o >>= λ s. on_connection true 4 0 s >>= λ s.
        server_message test_wire 4 (0 ∷ asking_rest) (register_service "echo" echo s) >>= λ s.
        some s)
      one_served.2
    ∙ ap
        (λ o. o >>= λ s.
          server_message test_wire 4 (0 ∷ asking_rest) (register_service "echo" echo s) >>= λ s.
          some s)
        two_served.2
    ∙ ap
        (λ b.
          server_message test_wire 4 b (register_service "echo" echo two_served.0) >>= λ s. some s)
        (sym frame-asking)
    ∙ ap (λ o. o >>= λ s. some s) two_served.3

run-alone_example :
    (s' : RpcServer) × (run test_wire events idle ≡ some s') × ((k : ℕ) → only k s' ≡ only k final)
run-alone_example =
    run-alone test_wire events idle (λ k. only k final)
      (λ k. run-only test_wire k events idle final reaches_final)
