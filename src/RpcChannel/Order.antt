-- ===== src/RpcChannel/Order.antt =====
-- Many answers at once: each goes to its own call, whatever their order in the stream.
use mathlib.Core.List.{Perm, perm_append_comm}
use mathlib.Core.List.Perm
use mathlib.Core.List.Permᴰ.{Permᴰ}
use mathlib.Core.Logic.{∥∥₁_elim, ∥∥₁_prop}
use proto_rpc.Prelude.{
  ℕ, ◌≡◌, ◌≢◌, refl, ap, ap₂, subst, ◌∙◌, none, some, List, [], ◌∷◌, ◌++◌, arith, inl, inr,
  Option-cases, append_assoc, append-nil, ==_refl, ◌>>=◌,
}
use proto_rpc.Message.{RpcMessage, response}
use proto_rpc.Buffer.{Buffer}
use proto_rpc.Buffer.View.{IsValid, contents}
use proto_rpc.RpcCodec.{Wire}
use proto_rpc.RpcCodec.Parse.{front}
use proto_rpc.RpcCodec.Stream.{seen, deliver_all}
use proto_rpc.RpcCodec.Sequence.{frames, AllSendable, on_message-frames}
use proto_rpc.RpcChannel.{
  RpcChannel, OutstandingCall, Effect, handle_response_msg, dispatch, on_rpc_message, on_message,
}
use proto_rpc.RpcChannel.Calls.{handle_response_msg-absent, handle_response_msg-found}
use proto_rpc.RpcChannel.Due.{due, answered-due}
use proto_rpc.StdMap.{find, erase, find-erase_ne}

-- Messages that are answers, to different calls.
abbrev pub AllAnswers : List RpcMessage → Type 0
AllAnswers [] = Unit {0}
AllAnswers (m ∷ ms) = (m.type ≡ response) × AllAnswers ms

abbrev pub NoneAnswers : ℕ → List RpcMessage → Type 0
NoneAnswers k [] = Unit {0}
NoneAnswers k (m ∷ ms) = (k ≢ m.id) × NoneAnswers k ms

abbrev pub DistinctIds : List RpcMessage → Type 0
DistinctIds [] = Unit {0}
DistinctIds (m ∷ ms) = NoneAnswers m.id ms × DistinctIds ms

-- What an answer does to the call it belongs to, if there is one.
unfoldable pub reply : List (ℕ × OutstandingCall) → RpcMessage → List Effect
reply waiting m = elim (find m.id waiting) [
  | none ↦ []
  | some out ↦ due out.response_object out.done m.response_bytes
]

unfoldable pub replies : List (ℕ × OutstandingCall) → List RpcMessage → List Effect
replies waiting [] = []
replies waiting (m ∷ ms) = reply waiting m ++ replies waiting ms

-- The calls that still wait.
unfoldable pub erase_ids : List RpcMessage → List (ℕ × OutstandingCall) → List (ℕ × OutstandingCall)
erase_ids [] waiting = waiting
erase_ids (m ∷ ms) waiting = erase_ids ms (erase m.id waiting)

-- The channel after the answers: each call that waited got its own.
unfoldable pub settled : List RpcMessage → RpcChannel → RpcChannel
settled ms ch = record ch {
  outstandings = erase_ids ms ch.outstandings;
  effects = ch.effects ++ replies ch.outstandings ms;
}

erase_absent : (k : ℕ) (m : List (ℕ × OutstandingCall)) → find k m ≡ none → erase k m ≡ m
unfolding find erase
erase_absent k [] h = refl
erase_absent k ((j, out) ∷ m) h = ground (arith, erase_absent k m)

erase_comm : (k j : ℕ) (m : List (ℕ × OutstandingCall)) → erase k (erase j m) ≡ erase j (erase k m)
unfolding erase
erase_comm k j [] = refl
erase_comm k j ((i, out) ∷ m) = ground (arith, erase_comm k j m)

reply-erase :
    (k : ℕ) (n : RpcMessage) (m : List (ℕ × OutstandingCall))
    → k ≢ n.id
    → reply (erase k m) n ≡ reply m n
unfolding reply
reply-erase k n m h =
    ap (λ o. elim o [ none ↦ [] | some out ↦ due out.response_object out.done n.response_bytes ])
      (find-erase_ne k n.id m h)

replies-erase :
    (k : ℕ) (ms : List RpcMessage) (m : List (ℕ × OutstandingCall))
    → NoneAnswers k ms
    → replies (erase k m) ms ≡ replies m ms
unfolding replies
replies-erase k [] m h = refl
replies-erase k (n ∷ ms) m h = ap₂ ◌++◌ (reply-erase k n m h.0) (replies-erase k ms m h.1)

calls_set : IsSet (List (ℕ × OutstandingCall))
calls_set = hlevel

erase_ids-erase :
    (k : ℕ) (ms : List RpcMessage) (m : List (ℕ × OutstandingCall))
    → erase_ids ms (erase k m) ≡ erase k (erase_ids ms m)
unfolding erase_ids
erase_ids-erase k [] m = refl
erase_ids-erase k (n ∷ ms) m =
    ap (erase_ids ms) (erase_comm n.id k m) ∙ erase_ids-erase k ms (erase n.id m)

-- The order of the answers does not matter to what waits, and only reorders the effects.
erase_ids-Permᴰ :
    {ms ms' : List RpcMessage} (m : List (ℕ × OutstandingCall))
    → Permᴰ ms ms'
    → erase_ids ms m ≡ erase_ids ms' m
unfolding erase_ids
erase_ids-Permᴰ m Permᴰ.nil = refl
erase_ids-Permᴰ m (Permᴰ.cons {a = a} {b = b} {l₁ = l} e d) =
    ap (λ a. erase_ids l (erase a.id m)) e ∙ erase_ids-Permᴰ (erase b.id m) d
erase_ids-Permᴰ m (Permᴰ.swap {a = a} {b = b} {l = l} e e') =
    ap (erase_ids l) (erase_comm b.id a.id m)
    ∙ ap₂ (λ x y. erase_ids l (erase x.id (erase y.id m))) e e'
erase_ids-Permᴰ m (Permᴰ.trans d d') = erase_ids-Permᴰ m d ∙ erase_ids-Permᴰ m d'

erase_ids-Perm :
    {ms ms' : List RpcMessage} (m : List (ℕ × OutstandingCall))
    → Perm ms ms'
    → erase_ids ms m ≡ erase_ids ms' m
erase_ids-Perm {ms} {ms'} m p =
    ∥∥₁_elim p (calls_set (erase_ids ms m) (erase_ids ms' m)) (erase_ids-Permᴰ m)

append_swap : (xs ys zs : List Effect) → Perm (xs ++ (ys ++ zs)) (ys ++ (xs ++ zs))
append_swap xs ys zs = subst (Perm (xs ++ (ys ++ zs))) (append_assoc ys xs zs) (
    subst (λ l. Perm l ((ys ++ xs) ++ zs)) (append_assoc xs ys zs)
      (Perm.append_right zs (perm_append_comm xs ys)))

replies-Permᴰ :
    {ms ms' : List RpcMessage} (m : List (ℕ × OutstandingCall))
    → Permᴰ ms ms'
    → Perm (replies m ms) (replies m ms')
unfolding replies
replies-Permᴰ m Permᴰ.nil = Perm.rfl
replies-Permᴰ m (Permᴰ.cons {a = a} {b = b} {l₁ = l} {l₂ = l'} e d) =
    subst (λ x. Perm (reply m a ++ replies m l) (reply m x ++ replies m l')) e
      (Perm.append_left (reply m a) (replies-Permᴰ m d))
replies-Permᴰ m (Permᴰ.swap {a = a} {b = b} {l = l} e e') =
    subst (λ x. Perm (reply m a ++ (reply m b ++ replies m l)) x)
      (ap₂ (λ x y. reply m y ++ (reply m x ++ replies m l)) e e')
      (append_swap (reply m a) (reply m b) (replies m l))
replies-Permᴰ m (Permᴰ.trans d d') = Perm.trans (replies-Permᴰ m d) (replies-Permᴰ m d')

replies-Perm :
    {ms ms' : List RpcMessage} (m : List (ℕ × OutstandingCall))
    → Perm ms ms'
    → Perm (replies m ms) (replies m ms')
replies-Perm m p = ∥∥₁_elim p ∥∥₁_prop (replies-Permᴰ m)

module _ (w : Wire) where
  handle_response_msg_lem :
      (m : RpcMessage) (ch : RpcChannel)
      → handle_response_msg m ch ≡ record ch {
        outstandings = erase m.id ch.outstandings;
        effects = ch.effects ++ reply ch.outstandings m;
      }
  unfolding reply
  handle_response_msg_lem m ch = elim (Option-cases (find m.id ch.outstandings)) [
    | inl e ↦
        handle_response_msg-absent w m ch e
        ∙ rw (erase_absent m.id ch.outstandings e, e, reply, append-nil ch.effects) refl
    | inr (out, e) ↦
        handle_response_msg-found w m ch out e
        ∙ rw (e, reply, answered-due out m.response_bytes) refl
  ]

  on_rpc_message-answer :
      (m : RpcMessage) (ch : RpcChannel)
      → m.type ≡ response
      → on_rpc_message w ch.conn m ch ≡ some (handle_response_msg m ch)
  unfolding on_rpc_message dispatch
  on_rpc_message-answer m ch e = rw (==_refl ch.conn, e) refl

  deliver_all-settled :
      (ms : List RpcMessage) (ch : RpcChannel)
      → AllAnswers ms
      → DistinctIds ms
      → deliver_all (on_rpc_message w ch.conn) ms ch ≡ some (settled ms ch)
  unfolding deliver_all settled replies erase_ids
  deliver_all-settled [] ch a d = rw (append-nil ch.effects) refl
  deliver_all-settled (m ∷ ms) ch a d =
      let next : RpcChannel = record ch {
        outstandings = erase m.id ch.outstandings;
        effects = ch.effects ++ reply ch.outstandings m;
      } in
      rw (on_rpc_message-answer m ch a.0, handle_response_msg_lem m ch)
        (deliver_all-settled ms next a.1 d.1
          ∙ rw
              (
                replies-erase m.id ms ch.outstandings d.0,
                append_assoc ch.effects (reply ch.outstandings m) (replies ch.outstandings ms),
              )
              refl)

  -- What a stream of answers holds: frames that protobuf reads back, of different calls.
  pub record IsAnswers (ms : List RpcMessage) : Type 0 where
    pub sendable : AllSendable w ms
    pub answers : AllAnswers ms
    pub distinct : DistinctIds ms

  -- If a valid buffer of a channel holds the frames of answers with different ids, each of which
  -- protobuf reads back and whose frame keeps the limit, and behind them bytes with no good frame
  -- in front, then `onMessage` does not abort and leaves just those bytes; of each call that
  -- waited under the id of an answer the response object gets the bytes of that answer, if any,
  -- the closure runs, and the object is deleted, in the order of the answers, and the call waits
  -- no more (a call without an object gets nothing), while an answer whose id nothing waits under
  -- changes nothing.
  pub on_message-settled :
      (ms : List RpcMessage) (rest : List ℕ) (ch : RpcChannel) (b : Buffer)
      → IsAnswers ms
      → front w rest ≡ none
      → IsValid b
      → contents b ≡ frames w ms ++ rest
      → seen (on_rpc_message w ch.conn) (on_message w ch.conn ch b) ≡ some (settled ms ch, rest)
  unfolding on_message
  on_message-settled ms rest ch b a e v c =
      on_message-frames w (on_rpc_message w ch.conn) ch ms rest b v a.sendable e c
      ∙ ap (λ o. o >>= λ ch'. some (ch', rest)) (deliver_all-settled ms ch a.answers a.distinct)

  -- The order of the answers does not matter: if two valid buffers hold the frames of the same
  -- answers in two orders, with different ids, each of which protobuf reads back and whose frame
  -- keeps the limit, and behind them the same bytes with no good frame in front, then `onMessage`
  -- of a channel aborts on neither, leaves the same calls waiting and the same bytes, and what it
  -- did to objects and closures is the same up to the order; all else of the channel stays.
  pub on_message-reordered :
      (ms ms' : List RpcMessage) (rest : List ℕ) (ch : RpcChannel) (b b' : Buffer)
      → Perm ms ms'
      → IsAnswers ms
      → IsAnswers ms'
      → front w rest ≡ none
      → IsValid b
      → IsValid b'
      → contents b ≡ frames w ms ++ rest
      → contents b' ≡ frames w ms' ++ rest
      → (waiting : List (ℕ × OutstandingCall)) × (done done' : List Effect) × (seen
            (on_rpc_message w ch.conn)
            (on_message w ch.conn ch b)
          ≡ some (record ch { outstandings = waiting; effects = ch.effects ++ done }, rest))
        × (seen (on_rpc_message w ch.conn) (on_message w ch.conn ch b')
            ≡ some (record ch { outstandings = waiting; effects = ch.effects ++ done' }, rest))
        × Perm done done'
  unfolding settled
  on_message-reordered ms ms' rest ch b b' p a a' e v v' c c' = (
    erase_ids ms ch.outstandings,
    replies ch.outstandings ms,
    replies ch.outstandings ms',
    on_message-settled ms rest ch b a e v c,
    on_message-settled ms' rest ch b' a' e v' c' ∙ rw (erase_ids-Perm ch.outstandings p) refl,
    replies-Perm ch.outstandings p,
  )
