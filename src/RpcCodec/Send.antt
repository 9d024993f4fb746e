-- ===== src/RpcCodec/Send.antt =====
-- `fillEmptyBuffer` and `send` write the wire format, and never abort below the range of `int`.
use proto_rpc.Prelude.{
  ℕ, ◌+◌, ◌-◌, ◌%◌, ◌^◌, ◌≤◌, ◌<◌, ◌≡◌, ap, ◌∙◌, some, List, [], ◌++◌, arith, length, take,
  length-append, max_size,
}
use proto_rpc.Endian.{host_to_network, length-host_to_network}
use proto_rpc.Message.{RpcMessage}
use proto_rpc.Buffer.{
  Buffer, cheap_prepend, initial_size, peek, readable_bytes, append, append_int32, prepend,
}
use proto_rpc.Buffer.View.{IsValid, contents, length-contents, readable-length}
use proto_rpc.Buffer.Space.{ensure_writable_bytes_lem, new_buffer_lem}
use proto_rpc.Buffer.Append.{
  Appends, append_lem, written, written-Appends, has_written_lem, prepend_lem, append_int32_lem,
}
use proto_rpc.RpcCodec.{Wire, tag, checksum, serialize_to_buffer, fill_empty_buffer, send}
use proto_rpc.RpcCodec.Frame.{body, size_field, checksum_field, frame}

-- The readable bytes, as a caller copies them out.
pub read-contents : (b : Buffer) → IsValid b → take (readable_bytes b) (peek b) ≡ contents b
read-contents b v = ap (λ n. take n (peek b)) readable
  where
    readable : readable_bytes b ≡ b.writer_index - b.reader_index
    readable = omega arith

-- A buffer whose contents are `xs`, with room for the size field in front.
record Filled (xs : List ℕ) (b : Buffer) : Type 0 where
  valid : IsValid b
  holds : contents b ≡ xs
  front_room : b.reader_index ≡ cheap_prepend

Filled-append :
    (xs ys : List ℕ) (b b' : Buffer) → Filled xs b → Appends ys b b' → Filled (xs ++ ys) b'
Filled-append xs ys b b' f a = record {
  valid = a.valid;
  holds = a.extended ∙ ap (λ t. t ++ ys) f.holds;
  front_room = ground (arith, a.prependable);
}

Filled-writer : (xs : List ℕ) (b : Buffer) → Filled xs b → b.writer_index ≡ 8 + length xs
Filled-writer xs b f = omega (arith, length-contents b f.valid, ap length f.holds, f.valid)

Filled-readable : (xs : List ℕ) (b : Buffer) → Filled xs b → readable_bytes b ≡ length xs
Filled-readable xs b f = readable-length b f.valid ∙ ap length f.holds

Filled-checksum :
    (w : Wire) (xs : List ℕ) (b : Buffer)
    → Filled xs b
    → checksum w (peek b) (readable_bytes b) ≡ w.adler32 1 xs % 2 ^ 32
unfolding checksum
Filled-checksum w xs b f = ap (λ t. w.adler32 1 t % 2 ^ 32) (read-contents b f.valid ∙ f.holds)

module _ (w : Wire) (m : RpcMessage) where
  payload : List ℕ
  payload = w.serialize m

  -- `serializeToBuffer` appends the payload.
  serialize_to_buffer_lem :
      (b : Buffer)
      → IsValid b
      → length payload + 4 < 2 ^ 31
      → b.writer_index + (length payload + 4) ≤ max_size
      → (b' : Buffer) × (serialize_to_buffer w m b ≡ some (length payload, b'))
        × Appends payload b b'
  unfolding serialize_to_buffer payload
  serialize_to_buffer_lem b v small h =
      let (b₁, e, r) = ensure_writable_bytes_lem (length payload + 4) b v h in
      let room : b₁.writer_index + length payload ≤ length b₁.store = omega (arith, r.room) in
      let a = written-Appends payload b₁ r.valid room in
      (
        written payload b₁ r.valid room,
        ground (arith, e, has_written_lem payload b₁ r.valid room),
        record {
          valid = a.valid;
          extended = a.extended ∙ ap (λ t. t ++ payload) r.same;
          prependable = ground arith;
        },
      )

  -- The steps of `fillEmptyBuffer`, none of which aborts.
  fill_steps :
      (b b₁ b₂ b₃ b₄ : Buffer) (sum : ℕ)
      → readable_bytes b ≡ 0
      → append tag b ≡ some b₁
      → serialize_to_buffer w m b₁ ≡ some (length payload, b₂)
      → checksum w (peek b₂) (readable_bytes b₂) ≡ sum
      → append_int32 sum b₂ ≡ some b₃
      → readable_bytes b₃ ≡ size_field w m
      → size_field w m < 2 ^ 32
      → prepend (host_to_network 4 (size_field w m)) b₃ ≡ some b₄
      → fill_empty_buffer w b m ≡ some b₄
  unfolding fill_empty_buffer payload
  fill_steps b b₁ b₂ b₃ b₄ sum z e₁ e₂ c e₃ n small e₄ =
      rw (e₁, e₂, c, e₃) (ground (arith, prepend_arg))
    where
      prepend_arg : prepend (host_to_network 4 (readable_bytes b₃ % 2 ^ 32)) b₃ ≡ some b₄
      prepend_arg = ap (λ k. prepend (host_to_network 4 k) b₃) word ∙ e₄
        where
          word : readable_bytes b₃ % 2 ^ 32 ≡ size_field w m
          word = omega arith

  -- `fillEmptyBuffer` turns an empty buffer into the frame of the message.
  fill_empty_buffer_lem :
      (b : Buffer)
      → Filled [] b
      → length payload + 16 < 2 ^ 31
      → (b' : Buffer) × (fill_empty_buffer w b m ≡ some b') × IsValid b' × (contents b' ≡ frame w m)
  unfolding fill_empty_buffer payload
  fill_empty_buffer_lem b f small =
      let (b₁, e₁, a₁) = append_lem tag b f.valid (omega (arith, Filled-writer [] b f)) in
      let f₁ = Filled-append [] tag b b₁ f a₁ in
      let (b₂, e₂, a₂) =
        serialize_to_buffer_lem b₁ f₁.valid (omega arith)
          (omega (arith, Filled-writer tag b₁ f₁)) in
      let f₂ = Filled-append tag payload b₁ b₂ f₁ a₂ in
      let (b₃, e₃, a₃) =
        append_int32_lem (w.adler32 1 (body w m) % 2 ^ 32) b₂ f₂.valid
          (omega (arith, Filled-writer (body w m) b₂ f₂)) in
      let f₃ = Filled-append (body w m) (checksum_field w m) b₂ b₃ f₂ a₃ in
      let (b₄, e₄, p₄) =
        prepend_lem (host_to_network 4 (size_field w m)) b₃ f₃.valid
          (omega (arith, f₃.front_room, length-host_to_network 4 (size_field w m))) in
      let n₃ : readable_bytes b₃ ≡ size_field w m = omega (
        arith,
        Filled-readable (body w m ++ checksum_field w m) b₃ f₃,
        length-append (body w m) (checksum_field w m),
        length-host_to_network 4 (w.adler32 1 (body w m) % 2 ^ 32),
      ) in
      (
        b₄,
        fill_steps b b₁ b₂ b₃ b₄ (w.adler32 1 (body w m) % 2 ^ 32) (Filled-readable [] b f) e₁ e₂
            (Filled-checksum w (body w m) b₂ f₂) e₃ n₃ (omega arith) e₄,
        p₄.valid,
        p₄.extended ∙ ap (◌++◌ (host_to_network 4 (size_field w m))) f₃.holds,
      )

  -- `send` does not abort, and hands the connection the frame of the message, in the format of
  -- RpcCodec.h, if the payload is shorter than 2^31 - 16 bytes.
  pub send_lem : length (w.serialize m) + 16 < 2 ^ 31 → send w m ≡ some (frame w m)
  unfolding send payload
  send_lem small =
      let (b, e, v, none_yet, room) = new_buffer_lem initial_size (omega arith) in
      let f : Filled [] b = record { valid = v; holds = none_yet; front_room = room } in
      let (b', e', v', holds) = fill_empty_buffer_lem b f small in
      rw (e, e') (ap some (read-contents b' v' ∙ holds))
