-- ===== src/RpcCodec/Frame.antt =====
-- The wire format that RpcCodec.h describes, and that `parse` reads it back:
-- size (N + 8), "RPC0", the payload of N bytes, and the checksum of "RPC0" and the payload.
use proto_rpc.Prelude.{
  ℕ, ◌+◌, ◌-◌, ◌%◌, ◌^◌, ◌≤◌, ◌<◌, ◌≡◌, refl, sym, ap, ◌∙◌, true, some, List, ◌++◌, arith, ==_refl,
  length, take, drop, take-append_length, drop-append_length, append_assoc, length-append, pos,
  sub_ℕ,
}
use proto_rpc.Endian.{
  host_to_network, network_to_host, length-host_to_network, network_to_host-host_to_network,
}
use proto_rpc.Message.{RpcMessage}
use proto_rpc.RpcCodec.{
  Wire, checksum_len, max_message_len, tag, no_error, as_int32, checksum, validate_checksum,
  bytes_eq, parse_from_buffer, parse,
}
use proto_rpc.RpcCodec.Parse.{front, front_intro}

module _ (w : Wire) where
  -- "RPC0" and the payload.
  abbrev pub body : RpcMessage → List ℕ
  body m = tag ++ w.serialize m

  -- What the size field counts.
  abbrev pub size_field : RpcMessage → ℕ
  size_field m = length (w.serialize m) + 8

  abbrev pub checksum_field : RpcMessage → List ℕ
  checksum_field m = host_to_network 4 (w.adler32 1 (body m) % 2 ^ 32)

  abbrev pub frame : RpcMessage → List ℕ
  frame m = host_to_network 4 (size_field m) ++ (body m ++ checksum_field m)

  -- Protobuf reads back what it wrote for `m`, and the frame keeps the limit.
  pub record IsSendable (m : RpcMessage) : Type 0 where
    pub round_trip : w.parse_array (pos (length (w.serialize m))) (w.serialize m) ≡ some m
    pub limit : size_field m ≤ max_message_len

  module _ (m : RpcMessage) (rest : List ℕ) where
    -- What stands behind the size field.
    pub tail : List ℕ
    tail = tag ++ (w.serialize m ++ (checksum_field m ++ rest))

    tail_regroup : tail ≡ body m ++ (checksum_field m ++ rest)
    unfolding tail
    tail_regroup = sym (append_assoc tag (w.serialize m) (checksum_field m ++ rest))

    check_sum : ℕ
    check_sum = w.adler32 1 (body m) % 2 ^ 32

    computed : checksum w tail (size_field m - checksum_len) ≡ check_sum
    unfolding checksum check_sum
    computed =
        ap (λ t. w.adler32 1 t % 2 ^ 32)
          (ap (take (size_field m - checksum_len)) tail_regroup
            ∙ take-append_length (size_field m - checksum_len) (body m) (checksum_field m ++ rest)
                (omega arith))

    stored : as_int32 (drop (size_field m - checksum_len) tail) ≡ check_sum
    unfolding as_int32 check_sum
    stored =
        ap (λ t. network_to_host (take 4 t))
          (ap (drop (size_field m - checksum_len)) tail_regroup
            ∙ drop-append_length (size_field m - checksum_len) (body m) (checksum_field m ++ rest)
                (omega arith))
        ∙ ap network_to_host (
            take-append_length 4 (checksum_field m) rest (sym (length-host_to_network 4 check_sum)))
        ∙ network_to_host-host_to_network 4 check_sum (omega arith)

    tail-checksum : validate_checksum w tail (size_field m) ≡ true
    unfolding validate_checksum
    tail-checksum = rw (computed, stored) (==_refl check_sum)

    tail-parse : IsSendable m → parse w tail (size_field m) ≡ (no_error, some m)
    unfolding parse parse_from_buffer bytes_eq tail
    tail-parse s = rw (tail-checksum, data_len, payload, s.round_trip)
      where
        data_len : sub_ℕ (size_field m) 8 ≡ pos (length (w.serialize m))
        data_len = ground arith

        payload :
            take (length (w.serialize m)) (w.serialize m ++ (checksum_field m ++ rest))
            ≡ w.serialize m
        payload =
            take-append_length (length (w.serialize m)) (w.serialize m) (checksum_field m ++ rest)
              refl

    size_bytes : List ℕ
    size_bytes = host_to_network 4 (size_field m)

    frame_regroup : frame m ++ rest ≡ size_bytes ++ tail
    unfolding tail size_bytes
    frame_regroup =
        append_assoc size_bytes (body m ++ checksum_field m) rest
        ∙ ap (◌++◌ size_bytes) (
            append_assoc (body m) (checksum_field m) rest
            ∙ append_assoc tag (w.serialize m) (checksum_field m ++ rest))

    length-size_bytes : length size_bytes ≡ 4
    unfolding size_bytes
    length-size_bytes = length-host_to_network 4 (size_field m)

    pub length-frame : length (frame m) ≡ 4 + size_field m
    unfolding size_bytes
    length-frame = omega (
      arith,
      length-size_bytes,
      length-append size_bytes (body m ++ checksum_field m),
      length-append (body m) (checksum_field m),
      length-host_to_network 4 (w.adler32 1 (body m) % 2 ^ 32),
    )

    -- The size field is read back.
    pub frame-size_field :
        size_field m < 2 ^ 32 → network_to_host (take 4 (frame m ++ rest)) ≡ size_field m
    unfolding size_bytes
    frame-size_field small =
        ap (λ t. network_to_host (take 4 t)) frame_regroup
        ∙ ap network_to_host (take-append_length 4 size_bytes tail (sym length-size_bytes))
        ∙ network_to_host-host_to_network 4 (size_field m) (omega arith)

    -- If protobuf reads the message back from what it wrote and the frame keeps the limit, then in
    -- front of any bytes the checks of `onMessage` take the frame as that message, and take just
    -- the frame's own bytes.
    pub front-frame : IsSendable m → front w (frame m ++ rest) ≡ some (m, length (frame m))
    unfolding size_bytes
    front-frame s =
        front_intro w (size_field m) m (frame m ++ rest) (frame-size_field (omega (arith, s.limit)))
          (omega arith) s.limit (omega (arith, length-frame, length-append (frame m) rest)) good
        ∙ ap (λ n. some (m, n)) (sym length-frame)
      where
        good : parse w (drop 4 (frame m ++ rest)) (size_field m) ≡ (no_error, some m)
        good =
            ap (λ t. parse w (drop 4 t) (size_field m)) frame_regroup
            ∙ ap (λ t. parse w t (size_field m))
                (drop-append_length 4 size_bytes tail (sym length-size_bytes))
            ∙ tail-parse s
