-- ===== src/Tests/Base.antt =====
-- A wire whose payload is a few bytes of the message, and a buffer that holds given bytes.
use proto_rpc.Prelude.{
  ℕ, if◌then◌else◌, ◌==◌, ◌+◌, ◌≤◌, ◌≡◌, refl, List, [], ◌∷◌, ◌++◌, Option, none, some, arith,
  length, max_size,
}
use proto_rpc.Message.{RpcMessage, MessageType, request, response, ErrorCode, no_error, no_method}
use proto_rpc.Buffer.{Buffer}
use proto_rpc.Buffer.View.{IsValid, contents, Layout, contents-Layout, Layout-IsValid}
use proto_rpc.RpcCodec.{Wire}
use proto_rpc.RpcChannel.{request_message, response_message, error_message}

abbrev pub front_gap : List ℕ
front_gap = 0 ∷ 0 ∷ 0 ∷ 0 ∷ 0 ∷ 0 ∷ 0 ∷ 0 ∷ []

abbrev pub holding : List ℕ → Buffer
holding xs = record {
  store = front_gap ++ (xs ++ []);
  reader_index = 8;
  writer_index = 8 + length xs;
}

holding-Layout : (xs : List ℕ) → Layout (holding xs) front_gap xs []
holding-Layout xs = record { store_eq = refl; reader_eq = refl; writer_eq = refl }

pub contents-holding : (xs : List ℕ) → contents (holding xs) ≡ xs
contents-holding xs = contents-Layout (holding xs) front_gap xs [] (holding-Layout xs)

pub holding-IsValid : (xs : List ℕ) → 8 + length xs ≤ max_size → IsValid (holding xs)
holding-IsValid xs h =
    Layout-IsValid (holding xs) front_gap xs [] (holding-Layout xs) (omega arith) (omega arith)

-- The kind, the id and the bytes.
abbrev pub payload_of : MessageType → ErrorCode → RpcMessage → List ℕ
payload_of request e m = 0 ∷ m.id ∷ m.request_bytes
payload_of response no_error m = 1 ∷ m.id ∷ m.response_bytes
payload_of response e m = 2 ∷ m.id ∷ []
payload_of (MessageType.unrecognised n) e m = []

abbrev pub message_from : List ℕ → Option RpcMessage
message_from (kind ∷ id ∷ bytes) = some (
    if kind == 0
    then request_message id "echo" "say" bytes
    else if kind == 1
    then response_message id bytes
    else error_message id no_method)
message_from _ = none

abbrev pub test_wire : Wire
test_wire = record {
  serialize = λ m. payload_of m.type m.error m;
  parse_array = λ n xs. message_from xs;
  adler32 = λ seed xs. seed + length xs;
}

abbrev pub asking : RpcMessage
asking = request_message 1 "echo" "say" (5 ∷ 6 ∷ [])

abbrev pub answering : RpcMessage
answering = response_message 1 (7 ∷ [])

abbrev pub refusing : RpcMessage
refusing = error_message 1 no_method
