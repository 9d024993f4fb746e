-- ===== src/RpcChannel/Once.antt =====
-- An answer is taken once: what came for a call before is not taken again, whatever happened since.
use proto_rpc.Prelude.{
  ℕ, ◌^◌, ◌<◌, ◌≡◌, ◌≢◌, refl, ap, ◌∙◌, subst, ◌==◌, assert-eq-some, Option, none, some, List, [],
  ◌∷◌, ◌++◌, arith, Option-cases, Bool-cases, ==_iff, inl, inr,
}
use proto_rpc.Message.{RpcMessage, MessageType, request, response, ErrorCode, no_error}
use proto_rpc.RpcCodec.{Wire}
use proto_rpc.RpcChannel.{
  RpcChannel, OutstandingCall, new_channel, send, request_message, call_method, handle_response_msg,
  request_error, error_message, handle_request_msg, on_rpc_message, done_callback, dispatch,
  finish_request, response_message, run_at_once, reply_at_once, call_of,
}
use proto_rpc.StdMap.{find, assign, erase, AllKeys, find-assign, find-erase_self}
use proto_rpc.RpcChannel.Calls.{
  age, Issued, next_id, new_channel-Issued, Step, calls, arrives, completes, Reach, Reach-Issued,
  Step-Issued, handle_response_msg-Issued, handle_response_msg-absent, handle_response_msg-found,
}

find-erase-none :
    (k j : ℕ) (m : List (ℕ × OutstandingCall)) → find k m ≡ none → find k (erase j m) ≡ none
unfolding find erase
find-erase-none k j [] e = refl
find-erase-none k j ((i, out) ∷ m) e = ground (arith, find-erase-none k j m)

AllKeys-found :
    (P : ℕ → Type 0) (k : ℕ) (m : List (ℕ × OutstandingCall)) (out : OutstandingCall)
    → AllKeys P m
    → find k m ≡ some out
    → P k
unfolding find
AllKeys-found P k [] out h e = absurd (cc)
AllKeys-found P k ((i, u) ∷ m) out h e = elim (Bool-cases (i == k)) [
  | inl q ↦ subst P ((==_iff i k).0 q) h.0
  | inr q ↦ AllKeys-found P k m out h.1 (ground (arith, e, q))
]

-- An id that was given out is not the next one.
age-next_id :
    {start n : ℕ} (k : ℕ) (ch : RpcChannel)
    → Issued start n ch
    → n < 2 ^ 64
    → age start k < n
    → next_id ch ≢ k
age-next_id k ch v b a e = omega (arith, v.last, v.start_word, b, a, e)

-- No call with this id waits.
abbrev Absent : ℕ → RpcChannel → Type 0
Absent k ch = find k ch.outstandings ≡ none

module _ (w : Wire) where
  -- Further steps of a channel, on which `n` calls were made before.
  pub data Later (n : ℕ) (ch : RpcChannel) : ℕ → RpcChannel → Type 0 where
    now : Later n ch n ch
    proceeds :
        {n' n'' : ℕ} {ch' ch'' : RpcChannel}
        → Later n ch n' ch'
        → n' < 2 ^ 64
        → Step w n' ch' n'' ch''
        → Later n ch n'' ch''

  send-outstandings :
      (m : RpcMessage) (ch ch' : RpcChannel)
      → send w m ch ≡ some ch'
      → ch'.outstandings ≡ ch.outstandings
  unfolding send
  send-outstandings m ch ch' e = ground arith

  finish_request-outstandings :
      (error : ErrorCode) (reply : Option (List ℕ)) (m : RpcMessage) (ch ch' : RpcChannel)
      → finish_request w error reply m ch ≡ some ch'
      → ch'.outstandings ≡ ch.outstandings
  unfolding finish_request run_at_once done_callback
  finish_request-outstandings no_error none m ch ch' e = cc
  finish_request-outstandings no_error (some bytes) m ch ch' e =
      send-outstandings (response_message m.id bytes)
        (record ch { calls = ch.calls ++ (call_of m ∷ []) }) ch' e
  finish_request-outstandings error reply m ch ch' e =
      send-outstandings (error_message m.id error) ch ch' e

  handle_response_msg-Absent :
      (k : ℕ) (m : RpcMessage) (ch : RpcChannel) → Absent k ch → Absent k (handle_response_msg m ch)
  handle_response_msg-Absent k m ch a = elim (Option-cases (find m.id ch.outstandings)) [
    | inl e ↦ rw (handle_response_msg-absent w m ch e) a
    | inr (out, e) ↦
        rw (handle_response_msg-found w m ch out e) (find-erase-none k m.id ch.outstandings a)
  ]

  dispatch-Absent :
      (k : ℕ) (type : MessageType) (m : RpcMessage) (ch ch' : RpcChannel)
      → dispatch w type m ch ≡ some ch'
      → Absent k ch
      → Absent k ch'
  unfolding dispatch handle_request_msg
  dispatch-Absent k response m ch ch' e a =
      moved (handle_response_msg m ch) e (handle_response_msg-Absent k m ch a)
    where
      moved : (c : RpcChannel) → some c ≡ some ch' → Absent k c → Absent k ch'
      moved c e a = subst (Absent k) {x = c} {y = ch'} (cc) a
  dispatch-Absent k request m ch ch' e a =
      ap (find k) (
        finish_request-outstandings (request_error m ch.services) (reply_at_once m ch.services) m ch
          ch' e)
      ∙ a
  dispatch-Absent k (MessageType.unrecognised t) m ch ch' e a = ground arith

  Step-Absent :
      {start n n' : ℕ} {ch ch' : RpcChannel} (k : ℕ)
      → Step w n ch n' ch'
      → n < 2 ^ 64
      → Issued start n ch
      → age start k < n
      → Absent k ch
      → Absent k ch'
  unfolding call_method on_rpc_message done_callback
  Step-Absent k (calls {ch = ch} {ch' = ch'} service method bytes out e) b v g a =
      ap (find k) (
        send-outstandings (request_message (next_id ch) service method bytes)
          (record ch { id = next_id ch; outstandings = assign (next_id ch) out ch.outstandings })
          ch' e)
      ∙ find-assign (next_id ch) k out ch.outstandings
      ∙ ground (arith, age-next_id k ch v b g, a)
  Step-Absent k (arrives {ch = ch} {ch' = ch'} conn m e) b v g a =
      dispatch-Absent k m.type m ch ch'
        (assert-eq-some (conn == ch.conn) (dispatch w m.type m ch) ch' e).1 a
  Step-Absent k (completes {ch = ch} {ch' = ch'} bytes id e) b v g a =
      ap (find k) (send-outstandings (response_message id bytes) ch ch' e) ∙ a

  Step-grows : {n n' : ℕ} {ch ch' : RpcChannel} (j : ℕ) → Step w n ch n' ch' → j < n → j < n'
  Step-grows j (calls service method bytes out e) g = omega arith
  Step-grows j (arrives conn m e) g = g
  Step-grows j (completes bytes id e) g = g

  Later-Absent :
      {start n : ℕ} {ch : RpcChannel} (k : ℕ) {n' : ℕ} {ch' : RpcChannel}
      → Later n ch n' ch'
      → Issued start n ch
      → age start k < n
      → Absent k ch
      → Issued start n' ch' × (age start k < n') × Absent k ch'
  Later-Absent k now v g a = (v, g, a)
  Later-Absent {start} k (proceeds l b s) v g a =
      let (v', g', a') = Later-Absent k l v g a in
      (Step-Issued w s b v', Step-grows (age start k) s g', Step-Absent k s b v' g' a')

  -- On a new channel whose first id is any 64-bit word, after any history of calls, messages from
  -- the peer and completed services, let an answer to a call that waits be handled. After any
  -- further calls, messages and completed services, as long as fewer than 2^64 calls were made
  -- before each of them, an answer with the same id changes nothing: the closure does not run
  -- twice, and the response object is not deleted twice.
  pub answer_once :
      {n n' : ℕ} {ch ch' : RpcChannel} (conn start : ℕ) (m m' : RpcMessage) (out : OutstandingCall)
      → start < 2 ^ 64
      → Reach w (new_channel conn start) n ch
      → find m.id ch.outstandings ≡ some out
      → Later n (handle_response_msg m ch) n' ch'
      → m'.id ≡ m.id
      → handle_response_msg m' ch' ≡ ch'
  answer_once {n} {ch = ch} {ch' = ch'} conn start m m' out s r f l e =
      let v = Reach-Issued w (new_channel-Issued conn start s) r in
      let taken =
        ap (λ c. find m.id c.outstandings) (handle_response_msg-found w m ch out f)
        ∙ find-erase_self m.id ch.outstandings v.distinct in
      let (v', g, a) =
        Later-Absent m.id l (handle_response_msg-Issued w m ch v)
          (AllKeys-found (λ k. age start k < n) m.id ch.outstandings out v.keys f) taken in
      handle_response_msg-absent w m' ch' (ap (λ k. find k ch'.outstandings) e ∙ a)
