-- ===== src/RpcCodec/Reject.antt =====
-- What `onMessage` does not deliver: a message behind whose bytes the checks did not hold, and
-- everything behind a frame that is refused.
use proto_rpc.Prelude.{
  ℕ, ◌+◌, ◌≤◌, ◌<◌, ◌^◌, ◌≡◌, refl, ap, ◌∙◌, ◌⊎◌, true, Option, none, some, List, ◌++◌, arith,
  length, take, drop, drop-drop, ==_iff, sub_ℕ, sym, ap₂, ◌-◌, ◌%◌, ◌∷◌, [],
}
use proto_rpc.Endian.{network_to_host}
use proto_rpc.Message.{RpcMessage}
use proto_rpc.Buffer.{Buffer}
use proto_rpc.Buffer.View.{IsValid, contents}
use proto_rpc.RpcCodec.{
  Wire, min_message_len, max_message_len, header_len, tag, accept, validate_checksum, checksum,
  as_int32, parse_from_buffer, parse, on_message, bytes_eq, send,
}
use proto_rpc.RpcCodec.Parse.{front, front_in, front_of, front_blocked}
use proto_rpc.RpcCodec.Frame.{frame, size_field, frame-size_field}
use proto_rpc.RpcCodec.Send.{send_lem}
use proto_rpc.RpcCodec.Stream.{on_message-stop}

bytes_eq_sound : (xs ys : List ℕ) → bytes_eq xs ys ≡ true → xs ≡ ys
unfolding bytes_eq
bytes_eq_sound [] [] e = refl
bytes_eq_sound [] (y ∷ ys) e = absurd (cc)
bytes_eq_sound (x ∷ xs) [] e = absurd (cc)
bytes_eq_sound (x ∷ xs) (y ∷ ys) e = ground (arith, bytes_eq_sound xs ys)

module _ (w : Wire) where
  -- The checks that the frame in front of `xs` passed.
  pub record Checked (xs : List ℕ) (m : RpcMessage) (n : ℕ) : Type 0 where
    pub least : min_message_len ≤ network_to_host (take 4 xs)
    pub most : network_to_host (take 4 xs) ≤ max_message_len
    pub total : n ≡ header_len + network_to_host (take 4 xs)
    pub whole : n ≤ length xs
    pub check_sum :
        network_to_host (take 4 (drop (network_to_host (take 4 xs)) xs))
        ≡ w.adler32 1 (take (network_to_host (take 4 xs) - 4) (drop 4 xs)) % 2 ^ 32
    pub tagged : take 4 (drop 4 xs) ≡ b'R' ∷ b'P' ∷ b'C' ∷ b'0' ∷ []
    pub parsed :
        w.parse_array
          (sub_ℕ (network_to_host (take 4 xs)) 8)
          (take (network_to_host (take 4 xs) - 8) (drop 8 xs))
        ≡ some m

  split_len : (len : ℕ) → 4 ≤ len → len ≡ 4 + (len - 4)
  split_len len h = omega arith

  validate_checksum-adler32 :
      (xs : List ℕ) (len : ℕ)
      → 4 ≤ len
      → validate_checksum w (drop 4 xs) len ≡ true
      → network_to_host (take 4 (drop len xs)) ≡ w.adler32 1 (take (len - 4) (drop 4 xs)) % 2 ^ 32
  unfolding validate_checksum checksum as_int32
  validate_checksum-adler32 xs len h e =
      ap (λ ys. network_to_host (take 4 ys))
        (ap (λ n. drop n xs) (split_len len h) ∙ sym (drop-drop (len - 4) 4 xs))
      ∙ sym ((==_iff _ _).0 e)

  parse_from_buffer-parse_array :
      (xs : List ℕ) (len : ℕ) (m : RpcMessage)
      → parse_from_buffer w (drop 4 (drop 4 xs)) (sub_ℕ len 8) ≡ some m
      → w.parse_array (sub_ℕ len 8) (take (len - 8) (drop 8 xs)) ≡ some m
  unfolding parse_from_buffer
  parse_from_buffer-parse_array xs len m e =
      ap₂ (λ k ys. w.parse_array (sub_ℕ len 8) (take k ys)) (ground arith) (sym (drop-drop 4 4 xs))
      ∙ e

  accept-parse :
      (n len : ℕ) (xs : List ℕ) (m : RpcMessage) (k : ℕ)
      → accept n (parse w xs len) ≡ some (m, k)
      → (k ≡ n)
        × (validate_checksum w xs len ≡ true)
        × (bytes_eq (take 4 xs) tag ≡ true)
        × (parse_from_buffer w (drop 4 xs) (sub_ℕ len 8) ≡ some m)
  unfolding accept parse
  accept-parse n len xs m k e = ground arith

  front_in-Checked :
      (n : ℕ) (xs : List ℕ) (m : RpcMessage) (k : ℕ)
      → n ≡ length xs
      → front_in w n xs ≡ some (m, k)
      → Checked xs m k
  unfolding front_in front_of
  front_in-Checked n xs m k q e =
      let len = network_to_host (take 4 xs) in
      let a = accept-parse (4 + len) len (drop 4 xs) m k (ground arith) in
      record {
        least = ground arith;
        most = ground arith;
        total = a.0;
        whole = ground (arith, a.0);
        check_sum = validate_checksum-adler32 xs len (ground arith) a.1;
        tagged = bytes_eq_sound (take 4 (drop 4 xs)) tag a.2;
        parsed = parse_from_buffer-parse_array xs len m a.3;
      }

  -- Whatever bytes stand in the buffer, a frame that is taken as a message has a size field from 4
  -- to 64 MiB and as many bytes behind it, the last four of them are the low 32 bits of the
  -- adler32 of those before, in network order, the first four are `RPC0`, and what stands between,
  -- of a length that is the size less eight, is what protobuf parsed as that message.
  pub front-Checked :
      (xs : List ℕ) (m : RpcMessage) (n : ℕ) → front w xs ≡ some (m, n) → Checked xs m n
  unfolding front
  front-Checked xs m n e = front_in-Checked (length xs) xs m n refl e

  front-oversize : (xs : List ℕ) → max_message_len < network_to_host (take 4 xs) → front w xs ≡ none
  unfolding front front_in front_of
  front-oversize xs h = ground arith

  -- If the readable bytes of a valid buffer begin with at least eight bytes that are no good
  -- frame, and their size field is out of range or the frame is all there, then `onMessage`
  -- delivers nothing and changes neither the state nor the buffer, whatever stands behind them.
  pub on_message-blocked :
      {S : Type 0} (callback : RpcMessage → S → Option S) (s : S) (bad ys : List ℕ) (b : Buffer)
      → IsValid b
      → contents b ≡ bad ++ ys
      → 8 ≤ length bad
      → (network_to_host (take 4 bad) < min_message_len)
        ⊎ (max_message_len < network_to_host (take 4 bad))
        ⊎ (4 + network_to_host (take 4 bad) ≤ length bad)
      → front w bad ≡ none
      → on_message w callback s b ≡ some (s, b)
  on_message-blocked callback s bad ys b v c h range e =
      on_message-stop callback w s b v (ap (front w) c ∙ front_blocked w bad ys h range e)

  -- A message whose size field passes the limit of 64 MiB, and whose payload is shorter than 2^31
  -- - 16 bytes, is sent without an abort, and from a valid buffer with its frame in front
  -- `onMessage` delivers nothing and changes neither the state nor the buffer, whatever stands
  -- behind the frame.
  pub send-oversize :
      {S : Type 0} (callback : RpcMessage → S → Option S) (s : S) (m : RpcMessage) (ys : List ℕ)
      (b : Buffer)
      → max_message_len < size_field w m
      → length (w.serialize m) + 16 < 2 ^ 31
      → IsValid b
      → contents b ≡ frame w m ++ ys
      → (send w m ≡ some (frame w m)) × (on_message w callback s b ≡ some (s, b))
  send-oversize callback s m ys b large small v c = (
    send_lem w m small,
    on_message-stop callback w s b v (
        ap (front w) c
        ∙ front-oversize (frame w m ++ ys) (omega (arith, frame-size_field w m ys (omega arith)))),
  )
