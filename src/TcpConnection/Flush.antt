-- ===== src/TcpConnection/Flush.antt =====
-- What `handleWrite` does with the bytes that wait in the output buffer.
use proto_rpc.Prelude.{
  ℕ, ◌≤◌, ◌≡◌, refl, ap, ◌∙◌, Bool, true, false, Bool-cases, inl, inr, some, List, [], ◌∷◌, ◌++◌,
  arith, if◌then◌else◌, length, take, drop, take-append-drop, append_assoc, append-nil, ◌&&◌, ◌==◌,
  ltb, not,
}
use proto_rpc.Buffer.{Buffer, readable_bytes, peek}
use proto_rpc.Buffer.View.{IsValid, contents, length-contents}
use proto_rpc.Buffer.Read.{Takes, retrieve_lem, peek-contents}
use proto_rpc.Channel.{disable_writing}
use proto_rpc.TcpConnection.{
  Connection, written, shut_down_write, queued_write_complete, wrote, is_disconnecting, log_if,
  shutdown_in_loop, output_drained, handle_write,
}
use proto_rpc.TcpConnection.Output.{
  Streams, transmitted, transmitted-append, log_if-Streams, no_bytes,
}

if-Streams :
    (test : Bool) (sent : List ℕ) (c d : Connection)
    → Streams sent c
    → Streams sent d
    → Streams sent (if test then c else d)
if-Streams true sent c d s t = s
if-Streams false sent c d s t = t

-- What `handleWrite` does when the last byte went out.
output_drained-Streams :
    (sent : List ℕ) (c : Connection)
    → Streams sent c
    → contents c.output ≡ []
    → Streams sent (output_drained c)
unfolding output_drained shutdown_in_loop disable_writing transmitted
output_drained-Streams sent c s empty =
    if-Streams (is_disconnecting c₂.state) sent (log_if (not c₂.events.write) shut_down_write c₂) c₂
      (log_if-Streams (not c₂.events.write) shut_down_write sent c₂ refl s₂) s₂
  where
    c₁ : Connection
    c₁ = record c { events = disable_writing c.events; registered = true }

    s₁ : Streams sent c₁
    s₁ = record { valid = s.valid; bytes = s.bytes; waiting = inr empty }

    c₂ : Connection
    c₂ = log_if c.has_write_complete queued_write_complete c₁

    s₂ : Streams sent c₂
    s₂ = log_if-Streams c.has_write_complete queued_write_complete sent c₁ refl s₁

-- The stream after the socket took `n` of the waiting bytes and `retrieve` removed them.
retrieved : ℕ → Buffer → Connection → Connection
retrieved n output c = record c {
  output = output;
  effects = c.effects ++ (written (take n (peek c.output)) ∷ []);
}

retrieved-Streams :
    (n : ℕ) (output : Buffer) (sent : List ℕ) (c : Connection)
    → Streams sent c
    → c.events.write ≡ true
    → n ≤ length (contents c.output)
    → Takes n c.output output
    → Streams sent (retrieved n output c)
unfolding retrieved transmitted
retrieved-Streams n output sent c s on h t = record {
  valid = t.valid;
  bytes =
      ap (◌++◌ (transmitted (retrieved n output c).effects)) t.rest
      ∙ ap (λ u. u ++ drop n (contents c.output))
          (transmitted-append c.effects (written (take n (peek c.output)) ∷ [])
            ∙ ap (◌++◌ (transmitted c.effects))
                (append-nil (take n (peek c.output)) ∙ peek-contents n c.output s.valid h))
      ∙ append_assoc (transmitted c.effects) (take n (contents c.output))
          (drop n (contents c.output))
      ∙ ap (◌++◌ (transmitted c.effects)) (take-append-drop n (contents c.output))
      ∙ s.bytes;
  waiting = inl on;
}

-- If the stream is kept (the output buffer is valid, what the socket took and then what waits in
-- the buffer is just what was sent, in order, and nothing waits unless the channel waits to
-- write), and the socket now takes `n` of the bytes that wait, then `handleWrite` does not abort,
-- and the stream is kept.
pub handle_write_lem :
    (n : ℕ) (sent : List ℕ) (c : Connection)
    → Streams sent c
    → n ≤ length (contents c.output)
    → (c' : Connection) × (handle_write (wrote n) c ≡ some c') × Streams sent c'
unfolding handle_write retrieved
handle_write_lem n sent c s h = elim (Bool-cases (c.events.write && ltb 0 n)) [
  | inl q ↦
      let (output, e, t) = retrieve_lem n c.output s.valid h in
      let s' = retrieved-Streams n output sent c s (ground arith) h t in
      (
        if readable_bytes output == 0
            then output_drained (retrieved n output c)
            else retrieved n output c,
        rw (q, e) refl,
        elim (Bool-cases (readable_bytes output == 0)) [
          | inl z ↦
              rw z (output_drained-Streams sent (retrieved n output c) s' (empty output t.valid z))
          | inr z ↦ rw z s'
        ],
      )
  | inr q ↦ (c, rw q refl, s)
]
  where
    empty : (b : Buffer) → IsValid b → (readable_bytes b == 0) ≡ true → contents b ≡ []
    empty b v z = no_bytes (contents b) (ground (arith, length-contents b v))
