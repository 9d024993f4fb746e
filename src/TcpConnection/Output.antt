-- ===== src/TcpConnection/Output.antt =====
-- The sending side of a connection: the stream of its bytes, and what `sendInLoop` does with those of
-- the caller.
use proto_rpc.Prelude.{
  ◌⊎◌, ℕ, ◌+◌, ◌-◌, ◌≤◌, ◌≡◌, refl, sym, ap, ◌∙◌, Bool, true, false, Bool-cases, inl, inr, some,
  List, [], ◌∷◌, ◌++◌, arith, subst, suc, length, take, drop, length-drop, take-append-drop,
  append_assoc, append-nil, max_size, sub_size, ◌&&◌, ◌==◌, lt→ltb, not,
}
use proto_rpc.Buffer.{readable_bytes}
use proto_rpc.Buffer.View.{IsValid, contents}
use proto_rpc.Buffer.Append.{append_lem}
use proto_rpc.Channel.{enable_writing}
use proto_rpc.TcpConnection.{
  Connection, Effect, written, shut_down_write, queued_write_complete, queued_force_close,
  queued_shutdown, queued_send, connection_callback, message_callback, close_callback,
  removed_channel, WriteResult, wrote, refused, Errno, is_fault, is_disconnected, keep_rest,
  write_directly, send_in_loop, log, log_if,
}

-- The bytes that the socket took, in order.
unfoldable pub transmitted : List Effect → List ℕ
transmitted [] = []
transmitted (written xs ∷ es) = xs ++ transmitted es
transmitted (shut_down_write ∷ es) = transmitted es
transmitted (queued_write_complete ∷ es) = transmitted es
transmitted (queued_force_close ∷ es) = transmitted es
transmitted (queued_shutdown ∷ es) = transmitted es
transmitted (queued_send xs ∷ es) = transmitted es
transmitted (connection_callback ∷ es) = transmitted es
transmitted (message_callback ∷ es) = transmitted es
transmitted (close_callback ∷ es) = transmitted es
transmitted (removed_channel ∷ es) = transmitted es

-- Of the bytes `sent` so far the socket took a front, and the output buffer holds the rest, which is
-- empty if the channel does not wait to write.
pub record Streams (sent : List ℕ) (c : Connection) : Type 0 where
  pub valid : IsValid c.output
  pub bytes : transmitted c.effects ++ contents c.output ≡ sent
  pub waiting : (c.events.write ≡ true) ⊎ (contents c.output ≡ [])

-- The answers to a `write` of these bytes after which none of them is lost.
pub data Answers : WriteResult → List ℕ → Type 0 where
  took : {n : ℕ} {bytes : List ℕ} → n ≤ length bytes → Answers (wrote n) bytes
  later : {e : Errno} {bytes : List ℕ} → is_fault e ≡ false → Answers (refused e) bytes

pub transmitted-append :
    (es fs : List Effect) → transmitted (es ++ fs) ≡ transmitted es ++ transmitted fs
unfolding transmitted
transmitted-append [] fs = refl
transmitted-append (written xs ∷ es) fs =
    ap (◌++◌ xs) (transmitted-append es fs)
    ∙ sym (append_assoc xs (transmitted es) (transmitted fs))
transmitted-append (shut_down_write ∷ es) fs = transmitted-append es fs
transmitted-append (queued_write_complete ∷ es) fs = transmitted-append es fs
transmitted-append (queued_force_close ∷ es) fs = transmitted-append es fs
transmitted-append (queued_shutdown ∷ es) fs = transmitted-append es fs
transmitted-append (queued_send xs ∷ es) fs = transmitted-append es fs
transmitted-append (connection_callback ∷ es) fs = transmitted-append es fs
transmitted-append (message_callback ∷ es) fs = transmitted-append es fs
transmitted-append (close_callback ∷ es) fs = transmitted-append es fs
transmitted-append (removed_channel ∷ es) fs = transmitted-append es fs

-- An effect that writes nothing leaves the stream alone.
transmitted-log :
    (e : Effect) (es : List Effect)
    → transmitted (e ∷ []) ≡ []
    → transmitted (es ++ (e ∷ [])) ≡ transmitted es
transmitted-log e es q =
    transmitted-append es (e ∷ []) ∙ ap (◌++◌ (transmitted es)) q ∙ append-nil (transmitted es)

pub log_if-Streams :
    (test : Bool) (e : Effect) (sent : List ℕ) (c : Connection)
    → transmitted (e ∷ []) ≡ []
    → Streams sent c
    → Streams sent (log_if test e c)
unfolding log_if
log_if-Streams false e sent c q s = s
log_if-Streams true e sent c q s = record {
  valid = s.valid;
  bytes = ap (λ t. t ++ contents c.output) (transmitted-log e c.effects q) ∙ s.bytes;
  waiting = s.waiting;
}

log_if-output : (test : Bool) (e : Effect) (c : Connection) → (log_if test e c).output ≡ c.output
unfolding log_if
log_if-output true e c = refl
log_if-output false e c = refl

keep_rest_lem :
    (rest sent : List ℕ) (c : Connection)
    → Streams sent c
    → c.output.writer_index + length rest ≤ max_size
    → (c' : Connection) × (keep_rest (length rest) rest c ≡ some c') × Streams (sent ++ rest) c'
unfolding keep_rest enable_writing
keep_rest_lem [] sent c s h = (c, refl, rw (append-nil sent) s)
keep_rest_lem (x ∷ xs) sent c s h =
    let (output, e, a) = append_lem (x ∷ xs) c.output s.valid h in
    (
      record c { output = output; events = enable_writing c.events; registered = true },
      rw (lt→ltb 0 (suc (length xs)) (omega arith), e) refl,
      record {
        valid = a.valid;
        bytes =
            ap (◌++◌ (transmitted c.effects)) a.extended
            ∙ sym (append_assoc (transmitted c.effects) (contents c.output) (x ∷ xs))
            ∙ ap (λ t. t ++ (x ∷ xs)) s.bytes;
        waiting = inl refl;
      },
    )

-- What is left of a `write` that took `n` bytes while nothing waited.
write_directly_lem :
    (n : ℕ) (bytes sent : List ℕ) (c : Connection)
    → Streams sent c
    → contents c.output ≡ []
    → n ≤ length bytes
    → c.output.writer_index + length bytes ≤ max_size
    → (c' : Connection) × (write_directly (wrote n) bytes c ≡ some c') × Streams (sent ++ bytes) c'
unfolding write_directly transmitted
write_directly_lem n bytes sent c s empty h room =
    let (c', e, s') = keep_rest_lem (drop n bytes) (sent ++ take n bytes) c₂ s₂ small in
    (
      c',
      subst (λ k. keep_rest k (drop n bytes) c₂ ≡ some c') (length-drop n bytes ∙ sub) e,
      subst (λ t. Streams t c')
          (append_assoc sent (take n bytes) (drop n bytes)
            ∙ ap (◌++◌ sent) (take-append-drop n bytes))
          s',
    )
  where
    done : Bool
    done = sub_size (length bytes) n == 0 && c.has_write_complete

    c₁ : Connection
    c₁ = log (written (take n bytes)) c

    c₂ : Connection
    c₂ = log_if done queued_write_complete c₁

    sub : length bytes - n ≡ sub_size (length bytes) n
    sub = ground arith

    all_sent : transmitted c.effects ≡ sent
    all_sent =
        sym (append-nil (transmitted c.effects))
        ∙ ap (◌++◌ (transmitted c.effects)) (sym empty)
        ∙ s.bytes

    s₁ : Streams (sent ++ take n bytes) c₁
    s₁ = record {
      valid = s.valid;
      bytes =
          ap (◌++◌ (transmitted c₁.effects)) empty
          ∙ append-nil (transmitted c₁.effects)
          ∙ transmitted-append c.effects (written (take n bytes) ∷ [])
          ∙ ap (◌++◌ (transmitted c.effects)) (append-nil (take n bytes))
          ∙ ap (λ t. t ++ take n bytes) all_sent;
      waiting = inr empty;
    }

    s₂ : Streams (sent ++ take n bytes) c₂
    s₂ = log_if-Streams done queued_write_complete (sent ++ take n bytes) c₁ refl s₁

    small : c₂.output.writer_index + length (drop n bytes) ≤ max_size
    small = rw (log_if-output done queued_write_complete c₁) (omega (arith, length-drop n bytes))

-- The direct `write`, whatever it answers short of a fault.
direct_lem :
    (answer : WriteResult) (bytes sent : List ℕ) (c : Connection)
    → Answers answer bytes
    → Streams sent c
    → contents c.output ≡ []
    → c.output.writer_index + length bytes ≤ max_size
    → (c' : Connection) × (write_directly answer bytes c ≡ some c') × Streams (sent ++ bytes) c'
unfolding write_directly
direct_lem (wrote n) bytes sent c (took h) s empty room =
    write_directly_lem n bytes sent c s empty h room
direct_lem (refused e) bytes sent c (later h) s empty room =
    let (c', q, s') = keep_rest_lem bytes sent c s room in (c', rw h q, s')

pub no_bytes : (xs : List ℕ) → length xs ≡ 0 → xs ≡ []
no_bytes [] h = refl
no_bytes (x ∷ xs) h = ground arith

-- A channel that does not wait to write has nothing to write.
pub Streams-drained :
    (sent : List ℕ) (c : Connection)
    → Streams sent c
    → c.events.write ≡ false
    → contents c.output ≡ []
Streams-drained sent c s off = elim s.waiting [ inl on ↦ cc | inr empty ↦ empty ]

waits-empty :
    (sent : List ℕ) (c : Connection)
    → Streams sent c
    → (not c.events.write && readable_bytes c.output == 0) ≡ true
    → contents c.output ≡ []
waits-empty sent c s h = Streams-drained sent c s (ground arith)

-- Say that the stream is kept if the output buffer is valid, what the socket took and then what
-- waits in the buffer is just what was sent, in order, and nothing waits unless the channel waits
-- to write. If it is kept on a connection that is not disconnected, the new bytes end within the
-- largest vector behind the output buffer's writer, and the socket takes some of them or fails
-- without EPIPE or ECONNRESET, then `sendInLoop` does not abort, and the stream is kept with the
-- new bytes sent.
pub send_in_loop_lem :
    (answer : WriteResult) (bytes sent : List ℕ) (c : Connection)
    → Answers answer bytes
    → Streams sent c
    → is_disconnected c.state ≡ false
    → c.output.writer_index + length bytes ≤ max_size
    → (c' : Connection) × (send_in_loop answer bytes c ≡ some c') × Streams (sent ++ bytes) c'
unfolding send_in_loop
send_in_loop_lem answer bytes sent c a s live room =
    elim (Bool-cases (not c.events.write && readable_bytes c.output == 0)) [
      | inl q ↦
          let (c', e, s') = direct_lem answer bytes sent c a s (waits-empty sent c s q) room in
          (c', rw (live, q) e, s')
      | inr q ↦ let (c', e, s') = keep_rest_lem bytes sent c s room in (c', rw (live, q) e, s')
    ]
