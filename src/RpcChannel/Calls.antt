-- ===== src/RpcChannel/Calls.antt =====
-- The calls that wait for an answer, along any history of the channel: no two have one id.
use Prim.Native.String.{String}
use proto_rpc.Prelude.{
  ℕ, suc, ◌+◌, ◌-◌, ◌*◌, ◌%◌, ◌^◌, ◌<◌, ◌≡◌, ◌≢◌, subst, ◌==◌, assert-eq-some, Option, none, some,
  List, [], ◌∷◌, ◌++◌, arith, Option-cases, inl, inr,
}
use proto_rpc.Message.{RpcMessage, MessageType, request, response, ErrorCode, no_error}
use proto_rpc.RpcCodec.{Wire}
use proto_rpc.RpcChannel.{
  RpcChannel, OutstandingCall, new_channel, send, request_message, call_method, handle_response_msg,
  request_error, error_message, handle_request_msg, on_rpc_message, done_callback, dispatch,
  answered, finish_request, response_message, run_at_once, reply_at_once, call_of,
}
use proto_rpc.StdMap.{
  find, assign, erase, AllKeys, Distinct, find_absent, AllKeys-erase, AllKeys-assign,
  Distinct-erase, Distinct-assign,
}

-- How many calls before the last of `id` a key was given out, counted from `start`; `id_` wraps.
abbrev pub age : ℕ → ℕ → ℕ
age start k = (k + 2 * 2 ^ 64 - start - 1) % 2 ^ 64

-- After `n` calls the waiting ones have the ids `start + 1` to `start + n`, each once.
pub record Issued (start n : ℕ) (ch : RpcChannel) : Type 0 where
  pub start_word : start < 2 ^ 64
  pub last : ch.id ≡ (start + n) % 2 ^ 64
  pub keys : AllKeys (λ k. age start k < n) ch.outstandings
  pub distinct : Distinct ch.outstandings

module _ {V : Type 0} where
  AllKeys-older :
      (start n : ℕ) (m : List (ℕ × V))
      → AllKeys (λ k. age start k < n) m
      → AllKeys (λ k. age start k < suc n) m
  AllKeys-older start n [] h = tt
  AllKeys-older start n ((k, v) ∷ m) h = (omega arith, AllKeys-older start n m h.1)

  AllKeys-fresh :
      (start n : ℕ) (m : List (ℕ × V))
      → start < 2 ^ 64
      → n < 2 ^ 64
      → AllKeys (λ k. age start k < n) m
      → AllKeys (λ k. k ≢ ((start + n) % 2 ^ 64 + 1) % 2 ^ 64) m
  AllKeys-fresh start n [] s b h = tt
  AllKeys-fresh start n ((k, v) ∷ m) s b h = (omega arith, AllKeys-fresh start n m s b h.1)

abbrev pub next_id : RpcChannel → ℕ
next_id ch = (ch.id + 1) % 2 ^ 64

-- The id of the next call is not that of a waiting one, until the ids come round.
pub next_id-fresh :
    {start n : ℕ} (ch : RpcChannel)
    → Issued start n ch
    → n < 2 ^ 64
    → AllKeys (λ k. k ≢ next_id ch) ch.outstandings
next_id-fresh {start} {n} ch v b =
    rw v.last (AllKeys-fresh start n ch.outstandings v.start_word b v.keys)

pub new_channel-Issued : (conn start : ℕ) → start < 2 ^ 64 → Issued start 0 (new_channel conn start)
unfolding new_channel
new_channel-Issued conn start h = record {
  start_word = h;
  last = omega arith;
  keys = tt;
  distinct = tt;
}

module _ (w : Wire) where
  -- `send` changes the log of what was sent alone.
  send-Issued :
      {start n : ℕ} (m : RpcMessage) (ch ch' : RpcChannel)
      → send w m ch ≡ some ch'
      → Issued start n ch
      → Issued start n ch'
  unfolding send
  send-Issued m ch ch' e v = ground arith

  call_method-Issued :
      {start n : ℕ} (service method : String) (bytes : List ℕ) (out : OutstandingCall)
      (ch ch' : RpcChannel)
      → call_method w service method bytes out ch ≡ some ch'
      → n < 2 ^ 64
      → Issued start n ch
      → Issued start (suc n) ch'
  unfolding call_method
  call_method-Issued {start} {n} service method bytes out ch ch' e b v =
      send-Issued (request_message (next_id ch) service method bytes)
        (record ch { id = next_id ch; outstandings = assign (next_id ch) out ch.outstandings }) ch'
        e
        (record {
          start_word = v.start_word;
          last = omega (arith, v.last);
          keys =
              AllKeys-assign (λ k. age start k < suc n) (next_id ch) out ch.outstandings
                (omega (arith, v.last, v.start_word))
                (AllKeys-older start n ch.outstandings v.keys);
          distinct =
              Distinct-assign (next_id ch) out ch.outstandings (next_id-fresh ch v b) v.distinct;
        })

  pub handle_response_msg-Issued :
      {start n : ℕ} (m : RpcMessage) (ch : RpcChannel)
      → Issued start n ch
      → Issued start n (handle_response_msg m ch)
  unfolding handle_response_msg
  handle_response_msg-Issued {start} {n} m ch v = elim (Option-cases (find m.id ch.outstandings)) [
    | inl e ↦ rw (e, handle_response_msg) v
    | inr (out, e) ↦
        rw (e, handle_response_msg)
          (record {
            start_word = v.start_word;
            last = v.last;
            keys = AllKeys-erase (λ k. age start k < n) m.id ch.outstandings v.keys;
            distinct = Distinct-erase m.id ch.outstandings v.distinct;
          })
  ]

  done_callback-Issued :
      {start n : ℕ} (bytes : List ℕ) (id : ℕ) (ch ch' : RpcChannel)
      → done_callback w bytes id ch ≡ some ch'
      → Issued start n ch
      → Issued start n ch'
  unfolding done_callback
  done_callback-Issued bytes id ch ch' e v = send-Issued (response_message id bytes) ch ch' e v

  called-Issued :
      {start n : ℕ} (m : RpcMessage) (ch : RpcChannel)
      → Issued start n ch
      → Issued start n (record ch { calls = ch.calls ++ (call_of m ∷ []) })
  called-Issued m ch v = record {
    start_word = v.start_word;
    last = v.last;
    keys = v.keys;
    distinct = v.distinct;
  }

  finish_request-Issued :
      {start n : ℕ} (error : ErrorCode) (reply : Option (List ℕ)) (m : RpcMessage)
      (ch ch' : RpcChannel)
      → finish_request w error reply m ch ≡ some ch'
      → Issued start n ch
      → Issued start n ch'
  unfolding finish_request run_at_once
  finish_request-Issued {start} {n} no_error none m ch ch' e v =
      subst (Issued start n) (cc) (called-Issued m ch v)
  finish_request-Issued no_error (some bytes) m ch ch' e v =
      done_callback-Issued bytes m.id (record ch { calls = ch.calls ++ (call_of m ∷ []) }) ch' e
        (called-Issued m ch v)
  finish_request-Issued error reply m ch ch' e v = send-Issued (error_message m.id error) ch ch' e v

  dispatch-Issued :
      {start n : ℕ} (type : MessageType) (m : RpcMessage) (ch ch' : RpcChannel)
      → dispatch w type m ch ≡ some ch'
      → Issued start n ch
      → Issued start n ch'
  unfolding dispatch handle_request_msg
  dispatch-Issued response m ch ch' e v =
      subst_ok (handle_response_msg m ch) ch' e (handle_response_msg-Issued m ch v)
    where
      subst_ok :
          {start n : ℕ} (c c' : RpcChannel)
          → some c ≡ some c'
          → Issued start n c
          → Issued start n c'
      subst_ok {start} {n} c c' e v = subst (Issued start n) (cc) v
  dispatch-Issued request m ch ch' e v =
      finish_request-Issued (request_error m ch.services) (reply_at_once m ch.services) m ch ch' e v
  dispatch-Issued (MessageType.unrecognised k) m ch ch' e v = ground arith

  -- Whatever arrives, the waiting calls keep their ids.
  pub on_rpc_message-Issued :
      {start n : ℕ} (conn : ℕ) (m : RpcMessage) (ch ch' : RpcChannel)
      → on_rpc_message w conn m ch ≡ some ch'
      → Issued start n ch
      → Issued start n ch'
  unfolding on_rpc_message
  on_rpc_message-Issued conn m ch ch' e v =
      dispatch-Issued m.type m ch ch'
        (assert-eq-some (conn == ch.conn) (dispatch w m.type m ch) ch' e).1 v

  -- What happens to a channel: a call of the client, a message that arrives, a service that is done.
  pub data Step : ℕ → RpcChannel → ℕ → RpcChannel → Type 0 where
    calls :
        {n : ℕ} {ch ch' : RpcChannel} (service method : String) (bytes : List ℕ)
        (out : OutstandingCall)
        → call_method w service method bytes out ch ≡ some ch'
        → Step n ch (suc n) ch'
    arrives :
        {n : ℕ} {ch ch' : RpcChannel} (conn : ℕ) (m : RpcMessage)
        → on_rpc_message w conn m ch ≡ some ch'
        → Step n ch n ch'
    completes :
        {n : ℕ} {ch ch' : RpcChannel} (bytes : List ℕ) (id : ℕ)
        → done_callback w bytes id ch ≡ some ch'
        → Step n ch n ch'

  -- Histories in which `n` calls were made.
  pub data Reach (ch₀ : RpcChannel) : ℕ → RpcChannel → Type 0 where
    here : Reach ch₀ 0 ch₀
    after :
        {n n' : ℕ} {ch ch' : RpcChannel}
        → Reach ch₀ n ch
        → n < 2 ^ 64
        → Step n ch n' ch'
        → Reach ch₀ n' ch'

  pub Step-Issued :
      {start n n' : ℕ} {ch ch' : RpcChannel}
      → Step n ch n' ch'
      → n < 2 ^ 64
      → Issued start n ch
      → Issued start n' ch'
  unfolding done_callback
  Step-Issued (calls {ch = ch} {ch' = ch'} service method bytes out e) b v =
      call_method-Issued service method bytes out ch ch' e b v
  Step-Issued (arrives {ch = ch} {ch' = ch'} conn m e) b v = on_rpc_message-Issued conn m ch ch' e v
  Step-Issued (completes {ch = ch} {ch' = ch'} bytes id e) b v =
      send-Issued (response_message id bytes) ch ch' e v

  -- After any history of fewer than 2 ^ 64 calls the waiting calls have distinct ids.
  pub Reach-Issued :
      {start : ℕ} {ch₀ : RpcChannel} {n : ℕ} {ch : RpcChannel}
      → Issued start 0 ch₀
      → Reach ch₀ n ch
      → Issued start n ch
  Reach-Issued v here = v
  Reach-Issued v (after r b s) = Step-Issued s b (Reach-Issued v r)

  -- After any history of calls, messages from the peer and completed services on a new channel,
  -- whose first id is any 64-bit word, in which fewer than 2^64 calls were made, the id of the
  -- next call is not that of a call that still waits.
  pub Reach-fresh :
      {n : ℕ} {ch : RpcChannel} (conn start : ℕ)
      → start < 2 ^ 64
      → Reach (new_channel conn start) n ch
      → n < 2 ^ 64
      → find (next_id ch) ch.outstandings ≡ none
  Reach-fresh {ch = ch} conn start h r b =
      find_absent (next_id ch) ch.outstandings
        (next_id-fresh ch (Reach-Issued (new_channel-Issued conn start h) r) b)

  pub handle_response_msg-absent :
      (m : RpcMessage) (ch : RpcChannel)
      → find m.id ch.outstandings ≡ none
      → handle_response_msg m ch ≡ ch
  unfolding handle_response_msg
  handle_response_msg-absent m ch e = rw (e, handle_response_msg)

  pub handle_response_msg-found :
      (m : RpcMessage) (ch : RpcChannel) (out : OutstandingCall)
      → find m.id ch.outstandings ≡ some out
      → handle_response_msg m ch ≡ record ch {
        outstandings = erase m.id ch.outstandings;
        effects = ch.effects ++ answered out m.response_bytes;
      }
  unfolding handle_response_msg
  handle_response_msg-found m ch out e = rw (e, handle_response_msg)
