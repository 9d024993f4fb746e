-- ===== src/Message.antt =====
-- proto_rpc/proto/rpc.proto: the message of both directions. A `bytes` field is a list of bytes and
-- an `int64` its bit pattern. The enums of proto3 are open: a reader keeps a number it does not know.
use Prim.Native.String.{String}
use proto_rpc.Prelude.{ℕ, List, []}

pub data MessageType : Type 0 where
  request response : MessageType
  unrecognised : ℕ → MessageType

pub data ErrorCode : Type 0 where
  no_error wrong_proto no_service no_method invalid_request invalid_response timeout : ErrorCode
  unknown_code : ℕ → ErrorCode

pub record RpcMessage : Type 0 where
  pub type : MessageType
  pub id : ℕ
  pub service : String
  pub method : String
  pub request_bytes : List ℕ
  pub response_bytes : List ℕ
  pub error : ErrorCode

-- `RpcMessage message;` has the default of each field.
abbrev pub empty_message : RpcMessage
empty_message = record {
  type = request;
  id = 0;
  service = "";
  method = "";
  request_bytes = [];
  response_bytes = [];
  error = no_error;
}
