-- ===== src/RpcChannel.antt =====
-- proto_rpc/rpc_framework/RpcChannel.h and RpcChannel.cc: both ends of a call. The channel keeps the
-- calls that wait for an answer, and what it hands to `conn_->send` is logged in `sent`. Services,
-- closures and the objects of protobuf are not part of the repository: an object or a closure is
-- a number, and what is done to it is logged in `effects`.
pub mod Due
pub mod Calls
pub mod Once
pub mod RoundTrip
pub mod Ownership
pub mod Order
use Prim.Native.String.{String}
use text.Mathlib.Text.{◌==◌ as str_eq}
use proto_rpc.Prelude.{
  ℕ, ◌+◌, ◌%◌, ◌^◌, Bool, true, false, Option, none, some, List, [], ◌∷◌, ◌++◌, ◌==◌, if◌then◌else◌,
  ◌>>=◌, ◌>>◌, assert,
}
use proto_rpc.StdMap.{find, assign, erase}
use proto_rpc.Message.{
  MessageType, request, response, ErrorCode, no_error, wrong_proto, no_service, no_method,
  invalid_request, RpcMessage, empty_message,
}
use proto_rpc.Buffer.{Buffer}
use proto_rpc.RpcCodec.{Wire}
use proto_rpc.RpcCodec

-- A null pointer is `none`.
pub record OutstandingCall : Type 0 where
  pub response_object : Option ℕ
  pub done : Option ℕ

pub data Effect : Type 0 where
  parsed : ℕ → List ℕ → Effect
  ran : ℕ → Effect
  deleted : ℕ → Effect
  deleted_closure : ℕ → Effect

-- What the channel asks of a service: whether its descriptor has a method, whether the method's
-- request type parses some bytes, and what `CallMethod` does: it may run the closure before it
-- returns, with a response of these bytes, or keep the closure for later.
pub record Service : Type 0 where
  pub has_method : String → Bool
  pub parses : String → List ℕ → Bool
  pub at_once : String → List ℕ → Option (List ℕ)

-- `service->CallMethod` was called; the service runs `doneCallback` with `call_id` when it is done,
-- which may be within the call.
pub record ServiceCall : Type 0 where
  pub service_name : String
  pub method_name : String
  pub argument : List ℕ
  pub call_id : ℕ

pub record RpcChannel : Type 0 where
  pub conn : ℕ
  pub id : ℕ
  pub outstandings : List (ℕ × OutstandingCall)
  pub services : Option (List (String × Service))
  pub sent : List (List ℕ)
  pub effects : List Effect
  pub calls : List ServiceCall

unfoldable pub find_service : String → List (String × Service) → Option Service
find_service name [] = none
find_service name ((n, s) ∷ m) = if str_eq n name then some s else find_service name m

-- `id_` starts at whatever the constructor left there.
unfoldable pub new_channel : ℕ → ℕ → RpcChannel
new_channel conn start = record {
  conn = conn;
  id = start;
  outstandings = [];
  services = none;
  sent = [];
  effects = [];
  calls = [];
}

unfoldable pub set_services : List (String × Service) → RpcChannel → RpcChannel
set_services services ch = record ch { services = some services }

-- What the destructor deletes of one waiting call; `delete` of a null pointer does nothing.
unfoldable pub destroyed : OutstandingCall → List Effect
destroyed out =
    (elim out.response_object [ none ↦ [] | some object ↦ deleted object ∷ [] ])
    ++ (elim out.done [ none ↦ [] | some closure ↦ deleted_closure closure ∷ [] ])

unfoldable pub destroy_all : List (ℕ × OutstandingCall) → List Effect
destroy_all [] = []
destroy_all ((id, out) ∷ m) = destroyed out ++ destroy_all m

-- The destructor.
unfoldable pub destroy : RpcChannel → List Effect
destroy ch = ch.effects ++ destroy_all ch.outstandings

pub set_connection : ℕ → RpcChannel → RpcChannel
set_connection conn ch = record ch { conn = conn }

unfoldable pub request_message : ℕ → String → String → List ℕ → RpcMessage
request_message id service method bytes = record empty_message {
  type = request;
  id = id;
  service = service;
  method = method;
  request_bytes = bytes;
}

run_done : Option ℕ → List Effect
run_done none = []
run_done (some closure) = ran closure ∷ []

parse_response : ℕ → List ℕ → List Effect
parse_response object [] = []
parse_response object (b ∷ bytes) = parsed object (b ∷ bytes) ∷ []

-- The effects on the call that an answer belongs to.
pub answered : OutstandingCall → List ℕ → List Effect
answered out bytes = elim out.response_object [
  | none ↦ []
  | some object ↦ parse_response object bytes ++ (run_done out.done ++ (deleted object ∷ []))
]

pub handle_response_msg : RpcMessage → RpcChannel → RpcChannel
handle_response_msg message ch = elim (find message.id ch.outstandings) [
  | none ↦ ch
  | some out ↦ record ch {
    outstandings = erase message.id ch.outstandings;
    effects = ch.effects ++ answered out message.response_bytes;
  }
]

-- The `error` that `handle_request_msg` computes.
unfoldable pub method_error : RpcMessage → Service → ErrorCode
method_error message service =
    if service.has_method message.method
    then (if service.parses message.method message.request_bytes then no_error else invalid_request)
    else no_method

unfoldable pub request_error : RpcMessage → Option (List (String × Service)) → ErrorCode
request_error message none = no_service
request_error message (some services) = elim (find_service message.service services) [
  | none ↦ no_service
  | some service ↦ method_error message service
]

-- What the service that the request finds answers within the call.
unfoldable pub reply_at_once : RpcMessage → Option (List (String × Service)) → Option (List ℕ)
reply_at_once message none = none
reply_at_once message (some services) = elim (find_service message.service services) [
  | none ↦ none
  | some service ↦ service.at_once message.method message.request_bytes
]

unfoldable pub error_message : ℕ → ErrorCode → RpcMessage
error_message id error = record empty_message { type = response; id = id; error = error }

unfoldable pub call_of : RpcMessage → ServiceCall
call_of message = record {
  service_name = message.service;
  method_name = message.method;
  argument = message.request_bytes;
  call_id = message.id;
}

unfoldable pub response_message : ℕ → List ℕ → RpcMessage
response_message id bytes = record empty_message {
  type = response;
  id = id;
  response_bytes = bytes;
}

module _ (w : Wire) where
  -- `codec_.send(conn_, message)`.
  pub send : RpcMessage → RpcChannel → Option RpcChannel
  send message ch =
      RpcCodec.send w message >>= λ bytes. some (record ch { sent = ch.sent ++ (bytes ∷ []) })

  -- `service` and `method` are the names in the method's descriptor, `bytes` is the serialised request.
  pub call_method : String → String → List ℕ → OutstandingCall → RpcChannel → Option RpcChannel
  call_method service method bytes out ch =
      let id = (ch.id + 1) % 2 ^ 64 in
      send (request_message id service method bytes)
        (record ch { id = id; outstandings = assign id out ch.outstandings })

  -- `bytes` is the serialised response.
  unfoldable pub done_callback : List ℕ → ℕ → RpcChannel → Option RpcChannel
  done_callback bytes id ch = send (response_message id bytes) ch

  -- The closure, if the service runs it within `CallMethod`.
  unfoldable pub run_at_once : Option (List ℕ) → ℕ → RpcChannel → Option RpcChannel
  run_at_once none id ch = some ch
  run_at_once (some bytes) id ch = done_callback bytes id ch

  -- The service is called, or the error is sent back.
  unfoldable pub finish_request :
      ErrorCode → Option (List ℕ) → RpcMessage → RpcChannel → Option RpcChannel
  finish_request no_error reply message ch =
      run_at_once reply message.id (record ch { calls = ch.calls ++ (call_of message ∷ []) })
  finish_request error reply message ch = send (error_message message.id error) ch

  unfoldable pub handle_request_msg : RpcMessage → RpcChannel → Option RpcChannel
  handle_request_msg message ch =
      finish_request (request_error message ch.services) (reply_at_once message ch.services) message
        ch

  -- The branches on `message.type()`.
  unfoldable pub dispatch : MessageType → RpcMessage → RpcChannel → Option RpcChannel
  dispatch response message ch = some (handle_response_msg message ch)
  dispatch request message ch = handle_request_msg message ch
  dispatch (MessageType.unrecognised n) message ch = some ch

  pub on_rpc_message : ℕ → RpcMessage → RpcChannel → Option RpcChannel
  on_rpc_message conn message ch = assert (conn == ch.conn) >> dispatch message.type message ch

  pub on_message : ℕ → RpcChannel → Buffer → Option (RpcChannel × Buffer)
  on_message conn ch buf = RpcCodec.on_message w (on_rpc_message conn) ch buf
