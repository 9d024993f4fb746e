-- ===== src/RpcCodec.antt =====
-- proto_rpc/rpc_framework/RpcCodec.h and RpcCodec.cc: frames on a byte stream. The serialisation of
-- protobuf and zlib's `adler32` are not part of the repository: they are the parameter `Wire`.
pub mod Parse
pub mod Frame
pub mod Send
pub mod Stream
pub mod Sequence
pub mod Reject
use proto_rpc.Prelude.{
  ℕ, zero, suc, ◌+◌, ◌-◌, ◌*◌, ◌%◌, ◌^◌, Bool, true, false, ◌&&◌, ◌||◌, Option, none, some, List,
  [], ◌∷◌, ltb, leb, ◌==◌, if◌then◌else◌, length, take, drop, ◌>>=◌, ◌>>◌, assert, ℤ, pos, pos_part,
  sub_ℕ, ltb_ℤ, signed32,
}
use proto_rpc.Endian.{host_to_network, network_to_host}
use proto_rpc.Message.{RpcMessage}
use proto_rpc.Buffer.{
  Buffer, initial_size, new_buffer, peek, readable_bytes, append, append_int32, prepend, peek_int32,
  retrieve, ensure_writable_bytes, has_written, write_end,
}

-- What the codec takes from protobuf and zlib: `SerializeWithCachedSizesToArray`,
-- `ParseFromArray(data, size)` on a new message, and `adler32(seed, data, len)`.
pub record Wire : Type 0 where
  pub serialize : RpcMessage → List ℕ
  pub parse_array : ℤ → List ℕ → Option RpcMessage
  pub adler32 : ℕ → List ℕ → ℕ

abbrev pub header_len : ℕ
header_len = 4

abbrev pub checksum_len : ℕ
checksum_len = 4

abbrev pub max_message_len : ℕ
max_message_len = 64 * 1024 * 1024

abbrev pub min_message_len : ℕ
min_message_len = 4

abbrev pub tag : List ℕ
tag = b'R' ∷ b'P' ∷ b'C' ∷ b'0' ∷ []

-- `ProtoRpcCodec::ErrorCode`.
pub data CodecError : Type 0 where
  no_error invalid_length checksum_error invalid_name_len unknown_message_type parse_error :
      CodecError

-- `memcmp(a, b, n) == 0` on bytes of one length.
pub bytes_eq : List ℕ → List ℕ → Bool
bytes_eq [] [] = true
bytes_eq [] (y ∷ ys) = false
bytes_eq (x ∷ xs) [] = false
bytes_eq (x ∷ xs) (y ∷ ys) = x == y && bytes_eq xs ys

pub as_int32 : List ℕ → ℕ
as_int32 buf = network_to_host (take 4 buf)

-- A frame that parsed is delivered; any error leaves the loop.
pub accept : ℕ → CodecError × Option RpcMessage → Option (RpcMessage × ℕ)
accept total (no_error, some message) = some (message, total)
accept total (_, _) = none

module _ (w : Wire) where
  -- The cast of a `uLong` to `int32_t` keeps the low 32 bits.
  pub checksum : List ℕ → ℕ → ℕ
  checksum buf len = w.adler32 1 (take len buf) % 2 ^ 32

  pub validate_checksum : List ℕ → ℕ → Bool
  validate_checksum buf len =
      let expected = as_int32 (drop (len - checksum_len) buf) in
      checksum buf (len - checksum_len) == expected

  pub parse_from_buffer : List ℕ → ℤ → Option RpcMessage
  parse_from_buffer buf len = w.parse_array len (take (pos_part len) buf)

  -- What was parsed, if it was; `len` is at least `min_message_len`.
  pub parse : List ℕ → ℕ → CodecError × Option RpcMessage
  parse buf len =
      if validate_checksum buf len
      then if bytes_eq (take (length tag) buf) tag
        then elim (parse_from_buffer (drop (length tag) buf)
            (sub_ℕ len (checksum_len + length tag))) [
              | some message ↦ (no_error, some message)
              | none ↦ (parse_error, none)
            ]
        else (unknown_message_type, none)
      else (checksum_error, none)

  -- The number of bytes written. `byte_size + kChecksumLen` is an `int`, whose overflow is a fault.
  pub serialize_to_buffer : RpcMessage → Buffer → Option (ℕ × Buffer)
  serialize_to_buffer message buf = do
    let bytes = w.serialize message
    let byte_size = length bytes
    assert (ltb (byte_size + checksum_len) (2 ^ 31))
    b ← ensure_writable_bytes (byte_size + checksum_len) buf
    b' ← has_written byte_size (write_end bytes b)
    some (byte_size, b')

  pub fill_empty_buffer : Buffer → RpcMessage → Option Buffer
  fill_empty_buffer buf message = do
    assert (readable_bytes buf == 0)
    tagged ← append tag buf
    (byte_size, body) ← serialize_to_buffer message tagged
    let check_sum = checksum (peek body) (readable_bytes body)
    summed ← append_int32 check_sum body
    assert (readable_bytes summed == length tag + byte_size + checksum_len)
    prepend (host_to_network 4 (readable_bytes summed % 2 ^ 32)) summed

  -- The bytes that `send` hands to `TcpConnection::send`.
  pub send : RpcMessage → Option (List ℕ)
  send message = do
    buf ← new_buffer initial_size
    filled ← fill_empty_buffer buf message
    some (take (readable_bytes filled) (peek filled))

  -- The tests of one round of `onMessage`: the message in front and the bytes that it takes, or
  -- `none` for a `break`.
  pub message_of : Buffer → ℕ → Option (RpcMessage × ℕ)
  message_of buf len =
      if ltb_ℤ (pos max_message_len) (signed32 len) || ltb_ℤ (signed32 len) (pos min_message_len)
      then none
      else if leb (header_len + len) (readable_bytes buf)
      then accept (header_len + len) (parse (drop header_len (peek buf)) len)
      else none

  pub next_message : Buffer → Option (Option (RpcMessage × ℕ))
  next_message buf =
      if leb (min_message_len + header_len) (readable_bytes buf)
      then (do len ← peek_int32 buf; some (message_of buf len))
      else some none

  -- `callback` is `messageCallback_`, on the state `S` that it changes.
  module _ {S : Type 0} (callback : RpcMessage → S → Option S) where
    on_message_loop : ℕ → S → Buffer → Option (S × Buffer)
    on_message_loop zero s buf = none
    on_message_loop (suc fuel) s buf = next_message buf >>= λ r. elim r [
      | none ↦ some (s, buf)
      | some (message, total) ↦
          callback message s >>= λ s'. retrieve total buf >>= λ buf'. on_message_loop fuel s' buf'
    ]

    -- Each round takes at least eight bytes.
    pub on_message : S → Buffer → Option (S × Buffer)
    on_message s buf = on_message_loop (suc (readable_bytes buf)) s buf
