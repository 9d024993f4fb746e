-- ===== src/Tests/CodecTests.antt =====
-- The codec with the test wire: whole frames, a cut stream, and frames that are refused.
use proto_rpc.Prelude.{
  ℕ, ◌+◌, ◌^◌, ◌<◌, ◌≡◌, refl, List, [], ◌∷◌, ◌++◌, Option, none, some, arith, length, take,
  replicate, length-replicate, length-append, ◌*◌, inl, ◌>>=◌,
}
use proto_rpc.Endian.{host_to_network, network_to_host}
use proto_rpc.Message.{RpcMessage}
use proto_rpc.Buffer.{Buffer}
use proto_rpc.Buffer.View.{IsValid, contents}
use proto_rpc.RpcCodec.{Wire, send, on_message, min_message_len}
use proto_rpc.RpcCodec.Parse.{front, front_in, front_of}
use proto_rpc.RpcCodec.Frame.{frame, IsSendable, front-frame, length-frame}
use proto_rpc.RpcCodec.Send.{send_lem}
use proto_rpc.RpcCodec.Stream.{
  Drains, deliver_all, seen, on_message_lem, on_message_chunks, on_message-stop,
}
use proto_rpc.RpcCodec.Sequence.{frames, on_message-frames}
use proto_rpc.RpcCodec.Reject.{Checked, front-Checked, on_message-blocked, send-oversize}
use proto_rpc.RpcChannel.{request_message, response_message, error_message}
use proto_rpc.Tests.Base.{
  holding, contents-holding, holding-IsValid, test_wire, asking, answering, refusing,
}

pub asking-IsSendable : IsSendable test_wire asking
unfolding request_message
asking-IsSendable = record { round_trip = refl; limit = omega arith }

pub answering-IsSendable : IsSendable test_wire answering
unfolding response_message
answering-IsSendable = record { round_trip = refl; limit = omega arith }

pub refusing-IsSendable : IsSendable test_wire refusing
unfolding error_message
refusing-IsSendable = record { round_trip = refl; limit = omega arith }

-- The application keeps what it got.
abbrev keep : RpcMessage → List ℕ → Option (List ℕ)
keep m seen_ids = some (seen_ids ++ (m.id ∷ []))

asking_small : length (test_wire.serialize asking) + 16 < 2 ^ 31
unfolding request_message
asking_small = omega arith

send_lem_example : send test_wire asking ≡ some (frame test_wire asking)
send_lem_example = send_lem test_wire asking asking_small

front-Checked_example :
    Checked test_wire (frame test_wire asking ++ (1 ∷ [])) asking (length (frame test_wire asking))
front-Checked_example =
    front-Checked test_wire (frame test_wire asking ++ (1 ∷ [])) asking
      (length (frame test_wire asking)) (front-frame test_wire asking (1 ∷ []) asking-IsSendable)

-- The frame of `asking`, and its first ten bytes.
abbrev first : List ℕ
first = 0 ∷ 0 ∷ 0 ∷ 12 ∷ 82 ∷ 80 ∷ 67 ∷ 48 ∷ 0 ∷ 1 ∷ []

abbrev second : List ℕ
second = 5 ∷ 6 ∷ 0 ∷ 0 ∷ 0 ∷ 9 ∷ []

frame-asking : frame test_wire asking ≡ first ++ second
unfolding request_message host_to_network
frame-asking = refl

first-incomplete : front test_wire first ≡ none
unfolding front front_in front_of network_to_host
first-incomplete = refl

on_message_lem_example :
    (ms : List RpcMessage) × (b' : Buffer) × Drains test_wire
      (contents (holding (first ++ second)))
      ms
      (contents b')
    × IsValid b'
    × ((s : List ℕ)
        → on_message test_wire keep s (holding (first ++ second))
          ≡ (deliver_all keep ms s >>= λ s'. some (s', b')))
on_message_lem_example =
    on_message_lem keep test_wire (holding (first ++ second))
      (holding-IsValid (first ++ second) (omega arith))

on_message_chunks_example :
    seen keep (on_message test_wire keep [] (holding (first ++ second)))
    ≡ seen keep (on_message test_wire keep [] (holding (first ++ second)))
on_message_chunks_example =
    on_message_chunks keep test_wire [] [] (holding first) (holding first)
      (holding (first ++ second)) (holding (first ++ second)) second
      (holding-IsValid first (omega arith)) (holding-IsValid (first ++ second) (omega arith))
      (holding-IsValid (first ++ second) (omega arith))
      (on_message-stop keep test_wire [] (holding first) (holding-IsValid first (omega arith))
        first-incomplete)
      refl refl

abbrev two_and_half : Buffer
two_and_half = holding (frames test_wire (asking ∷ answering ∷ []) ++ first)

two_and_half-IsValid : IsValid two_and_half
unfolding frames request_message response_message host_to_network
two_and_half-IsValid =
    holding-IsValid (frames test_wire (asking ∷ answering ∷ []) ++ first) (omega arith)

on_message-frames_example :
    seen keep (on_message test_wire keep [] two_and_half)
    ≡ (deliver_all keep (asking ∷ answering ∷ []) [] >>= λ s'. some (s', first))
on_message-frames_example =
    on_message-frames test_wire keep [] (asking ∷ answering ∷ []) first two_and_half
      two_and_half-IsValid (asking-IsSendable, (answering-IsSendable, tt)) first-incomplete
      (contents-holding (frames test_wire (asking ∷ answering ∷ []) ++ first))

abbrev bad : List ℕ
bad = 0 ∷ 0 ∷ 0 ∷ 2 ∷ 0 ∷ 0 ∷ 0 ∷ 0 ∷ []

bad-size : network_to_host (take 4 bad) < min_message_len
unfolding network_to_host
bad-size = omega arith

bad-refused : front test_wire bad ≡ none
unfolding front front_in front_of network_to_host
bad-refused = refl

on_message-blocked_example :
    on_message test_wire keep [] (holding (bad ++ (first ++ second)))
    ≡ some ([], holding (bad ++ (first ++ second)))
on_message-blocked_example =
    on_message-blocked test_wire keep [] bad (first ++ second) (holding (bad ++ (first ++ second)))
      (holding-IsValid (bad ++ (first ++ second)) (omega arith)) refl (omega arith) (inl bad-size)
      bad-refused

zeros : ℕ → List ℕ
zeros n = replicate n 0

length-zeros : (n : ℕ) → length (zeros n) ≡ n
unfolding zeros
length-zeros n = length-replicate n 0

-- Every payload has 64 MiB.
abbrev big_wire : Wire
big_wire = record {
  serialize = λ m. zeros (64 * 1024 * 1024);
  parse_array = λ n xs. none;
  adler32 = λ seed xs. seed;
}

big-IsValid : IsValid (holding (frame big_wire asking ++ first))
big-IsValid = holding-IsValid (frame big_wire asking ++ first) (
    omega (
      arith,
      length-append (frame big_wire asking) first,
      length-frame big_wire asking first,
      length-zeros (64 * 1024 * 1024),
    ))

send-oversize_example :
    (send big_wire asking ≡ some (frame big_wire asking))
    × (on_message big_wire keep [] (holding (frame big_wire asking ++ first))
        ≡ some ([], holding (frame big_wire asking ++ first)))
send-oversize_example =
    send-oversize big_wire keep [] asking first (holding (frame big_wire asking ++ first))
      (omega (arith, length-zeros (64 * 1024 * 1024)))
      (omega (arith, length-zeros (64 * 1024 * 1024))) big-IsValid
      (contents-holding (frame big_wire asking ++ first))
