-- ===== src/RpcChannel/Ownership.antt =====
-- The response objects that callers hand to proto_rpc/rpc_framework/RpcChannel.cc, counted over any
-- history: what waits and what was deleted.
use Prim.Native.String.{String}
use proto_rpc.Prelude.{
  ℕ, ◌+◌, ◌^◌, ◌<◌, ◌≤◌, ◌≡◌, ◌≢◌, refl, subst, ◌==◌, ==_iff, Bool-cases, if◌then◌else◌, Option,
  none, some, List, [], ◌∷◌, ◌++◌, arith, Option-cases, inl, inr, total, total-append,
  assert-eq-some,
}
use proto_rpc.Message.{RpcMessage, MessageType, request, response, ErrorCode, no_error}
use proto_rpc.RpcCodec.{Wire}
use proto_rpc.RpcChannel.{
  RpcChannel, OutstandingCall, Effect, deleted, deleted_closure, new_channel, send, request_message,
  call_method, handle_response_msg, request_error, error_message, handle_request_msg,
  on_rpc_message, done_callback, dispatch, answered, finish_request, response_message, run_at_once,
  reply_at_once, call_of, parse_response, run_done, destroyed, destroy_all, destroy,
}
use proto_rpc.RpcChannel.Calls.{
  Issued, next_id, next_id-fresh, new_channel-Issued, calls, arrives, completes, Reach, here, after,
  Reach-Issued, handle_response_msg-absent, handle_response_msg-found,
}
use proto_rpc.StdMap.{find, assign, erase, AllKeys}

module _ (r : ℕ) where
  -- One for each time that a call holds the object, or that an effect deletes it.
  pub held : OutstandingCall → ℕ
  held out = elim out.response_object [ none ↦ 0 | some object ↦ if object == r then 1 else 0 ]

  pub deletes : Effect → ℕ
  deletes (deleted object) = if object == r then 1 else 0
  deletes _ = 0

  abbrev pub waiting : List (ℕ × OutstandingCall) → ℕ
  waiting m = total (λ p. held p.1) m

  run_done-deletes : (done : Option ℕ) → total deletes (run_done done) ≡ 0
  unfolding run_done deletes
  run_done-deletes none = refl
  run_done-deletes (some c) = refl

  parse_response-deletes : (o : ℕ) (bytes : List ℕ) → total deletes (parse_response o bytes) ≡ 0
  unfolding parse_response deletes
  parse_response-deletes o [] = refl
  parse_response-deletes o (b ∷ bytes) = refl

  -- An answer deletes what the call holds.
  answered-deletes :
      (out : OutstandingCall) (bytes : List ℕ) → total deletes (answered out bytes) ≡ held out
  unfolding answered held deletes
  answered-deletes out bytes = by_object out.response_object
    where
      by_object :
          (o : Option ℕ)
          → total deletes (elim o [
            | none ↦ []
            | some object ↦
                parse_response object bytes ++ (run_done out.done ++ (deleted object ∷ []))
          ])
            ≡ elim o [ none ↦ 0 | some object ↦ if object == r then 1 else 0 ]
      by_object none = refl
      by_object (some object) = omega (
        arith,
        total-append deletes (parse_response object bytes)
            (run_done out.done ++ (deleted object ∷ [])),
        total-append deletes (run_done out.done) (deleted object ∷ []),
        run_done-deletes out.done,
        parse_response-deletes object bytes,
      )

  destroyed-deletes : (out : OutstandingCall) → total deletes (destroyed out) ≡ held out
  unfolding destroyed held deletes
  destroyed-deletes out = by_fields out.response_object out.done
    where
      by_fields :
          (o c : Option ℕ)
          → total deletes (
              (elim o [ none ↦ [] | some object ↦ deleted object ∷ [] ])
              ++ (elim c [ none ↦ [] | some closure ↦ deleted_closure closure ∷ [] ]))
            ≡ elim o [ none ↦ 0 | some object ↦ if object == r then 1 else 0 ]
      by_fields none none = refl
      by_fields none (some c) = refl
      by_fields (some o) none = omega arith
      by_fields (some o) (some c) = omega arith

  destroy_all-deletes : (m : List (ℕ × OutstandingCall)) → total deletes (destroy_all m) ≡ waiting m
  unfolding destroy_all
  destroy_all-deletes [] = refl
  destroy_all-deletes ((id, out) ∷ m) = omega (
    arith,
    total-append deletes (destroyed out) (destroy_all m),
    destroyed-deletes out,
    destroy_all-deletes m,
  )

  waiting-assign :
      (id : ℕ) (out : OutstandingCall) (m : List (ℕ × OutstandingCall))
      → AllKeys (λ k. k ≢ id) m
      → waiting (assign id out m) ≡ waiting m + held out
  unfolding assign
  waiting-assign id out [] h = omega arith
  waiting-assign id out ((k, o) ∷ m) h = elim (Bool-cases (k == id)) [
    | inl e ↦ absurd (h.0 ((==_iff k id).0 e))
    | inr e ↦ rw e (omega (arith, waiting-assign id out m h.1))
  ]

  waiting-erase :
      (id : ℕ) (out : OutstandingCall) (m : List (ℕ × OutstandingCall))
      → find id m ≡ some out
      → waiting m ≡ waiting (erase id m) + held out
  unfolding find erase
  waiting-erase id out [] e = cc
  waiting-erase id out ((k, o) ∷ m) e = ground (arith, waiting-erase id out m)

  module _ (w : Wire) where
    -- What a channel holds and has deleted, after calls that handed over these objects.
    Kept : ℕ → RpcChannel → Type 0
    Kept handed ch = handed ≡ total deletes ch.effects + waiting ch.outstandings

    send-Kept :
        (handed : ℕ) (m : RpcMessage) (ch ch' : RpcChannel)
        → send w m ch ≡ some ch'
        → Kept handed ch
        → Kept handed ch'
    unfolding send Kept
    send-Kept handed m ch ch' e k = ground arith

    handle_response_msg-Kept :
        (handed : ℕ) (m : RpcMessage) (ch : RpcChannel)
        → Kept handed ch
        → Kept handed (handle_response_msg m ch)
    unfolding Kept
    handle_response_msg-Kept handed m ch k = elim (Option-cases (find m.id ch.outstandings)) [
      | inl e ↦ rw (handle_response_msg-absent w m ch e) k
      | inr (out, e) ↦ rw (handle_response_msg-found w m ch out e) (
          omega (
            arith,
            k,
            total-append deletes ch.effects (answered out m.response_bytes),
            answered-deletes out m.response_bytes,
            waiting-erase m.id out ch.outstandings e,
          ))
    ]

    finish_request-Kept :
        (handed : ℕ) (error : ErrorCode) (reply : Option (List ℕ)) (m : RpcMessage)
        (ch ch' : RpcChannel)
        → finish_request w error reply m ch ≡ some ch'
        → Kept handed ch
        → Kept handed ch'
    unfolding finish_request Kept run_at_once done_callback
    finish_request-Kept handed no_error none m ch ch' e k =
        subst (Kept handed) {x = record ch { calls = ch.calls ++ (call_of m ∷ []) }} {y = ch'} (cc)
          k
    finish_request-Kept handed no_error (some bytes) m ch ch' e k =
        send-Kept handed (response_message m.id bytes)
          (record ch { calls = ch.calls ++ (call_of m ∷ []) }) ch' e k
    finish_request-Kept handed error reply m ch ch' e k =
        send-Kept handed (error_message m.id error) ch ch' e k

    dispatch-Kept :
        (handed : ℕ) (type : MessageType) (m : RpcMessage) (ch ch' : RpcChannel)
        → dispatch w type m ch ≡ some ch'
        → Kept handed ch
        → Kept handed ch'
    unfolding dispatch handle_request_msg
    dispatch-Kept handed response m ch ch' e k =
        subst (Kept handed) (cc) (handle_response_msg-Kept handed m ch k)
    dispatch-Kept handed request m ch ch' e k =
        finish_request-Kept handed (request_error m ch.services) (reply_at_once m ch.services) m ch
          ch' e k
    dispatch-Kept handed (MessageType.unrecognised n) m ch ch' e k = subst (Kept handed) (cc) k

    call_method-Kept :
        {start n : ℕ} (handed : ℕ) (service method : String) (bytes : List ℕ)
        (out : OutstandingCall) (ch ch' : RpcChannel)
        → call_method w service method bytes out ch ≡ some ch'
        → n < 2 ^ 64
        → Issued start n ch
        → Kept handed ch
        → Kept (handed + held out) ch'
    unfolding call_method Kept
    call_method-Kept handed service method bytes out ch ch' e b v k =
        send-Kept (handed + held out) (request_message (next_id ch) service method bytes)
          (record ch { id = next_id ch; outstandings = assign (next_id ch) out ch.outstandings })
          ch' e (issued_more handed out ch (next_id-fresh ch v b) k)
      where
        issued_more :
            (handed : ℕ) (out : OutstandingCall) (ch : RpcChannel)
            → AllKeys (λ i. i ≢ next_id ch) ch.outstandings
            → Kept handed ch
            → Kept (handed + held out) (record ch {
              id = next_id ch;
              outstandings = assign (next_id ch) out ch.outstandings;
            })
        issued_more handed out ch f k =
            omega (arith, k, waiting-assign (next_id ch) out ch.outstandings f)

    -- How often the calls of a history handed over the object.
    pub handed : {ch₀ : RpcChannel} {n : ℕ} {ch : RpcChannel} → Reach w ch₀ n ch → ℕ
    handed here = 0
    handed (after h b (calls service method bytes out e)) = handed h + held out
    handed (after h b (arrives conn m e)) = handed h
    handed (after h b (completes bytes id e)) = handed h

    Reach-Kept :
        {start : ℕ} {ch₀ : RpcChannel} {n : ℕ} {ch : RpcChannel}
        → Issued start 0 ch₀
        → Kept 0 ch₀
        → (h : Reach w ch₀ n ch) → Kept (handed h) ch
    unfolding handed on_rpc_message done_callback
    Reach-Kept v k here = k
    Reach-Kept v k (after {ch = ch} {ch' = ch'} h b (calls service method bytes out e)) =
        call_method-Kept (handed h) service method bytes out ch ch' e b (Reach-Issued w v h)
          (Reach-Kept v k h)
    Reach-Kept v k (after {ch = ch} {ch' = ch'} h b (arrives conn m e)) =
        dispatch-Kept (handed h) m.type m ch ch'
          (assert-eq-some (conn == ch.conn) (dispatch w m.type m ch) ch' e).1 (Reach-Kept v k h)
    Reach-Kept v k (after {ch = ch} {ch' = ch'} h b (completes bytes id e)) =
        send-Kept (handed h) (response_message id bytes) ch ch' e (Reach-Kept v k h)

    -- After any history of calls, messages from the peer and completed services on a new channel,
    -- whose first id is any 64-bit word, in which each call is made after fewer than 2^64 others,
    -- a response object was deleted at most as often as calls handed it over, and after the
    -- destructor exactly as often.
    pub Reach-destroy :
        {n : ℕ} {ch : RpcChannel} (conn start : ℕ)
        → start < 2 ^ 64
        → (h : Reach w (new_channel conn start) n ch)
        → (total deletes ch.effects ≤ handed h) × (total deletes (destroy ch) ≡ handed h)
    unfolding destroy new_channel Kept
    Reach-destroy {ch = ch} conn start s h =
        let k = Reach-Kept (new_channel-Issued conn start s) refl h in
        (
          omega (arith, k),
          omega (
            arith,
            k,
            total-append deletes ch.effects (destroy_all ch.outstandings),
            destroy_all-deletes ch.outstandings,
          ),
        )
