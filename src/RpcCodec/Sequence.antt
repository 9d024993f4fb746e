-- ===== src/RpcCodec/Sequence.antt =====
-- A stream that is made of whole frames: `onMessage` delivers their messages, and leaves the
-- incomplete frame behind them.
use proto_rpc.Prelude.{
  ℕ, ◌≡◌, refl, sym, ap, ◌∙◌, Option, none, some, List, [], ◌∷◌, ◌++◌, arith, inl, inr,
  Option-cases, length, drop, drop-append_length, append_assoc, append-nil, ◌>>=◌,
}
use proto_rpc.Message.{RpcMessage}
use proto_rpc.Buffer.{Buffer}
use proto_rpc.Buffer.View.{IsValid, contents}
use proto_rpc.RpcCodec.{Wire, on_message}
use proto_rpc.RpcCodec.Frame.{frame, IsSendable, front-frame}
use proto_rpc.RpcCodec.Parse.{front, front_bounds}
use proto_rpc.RpcCodec.Stream.{
  Drains, stop, next, Drains-eq, Drains-unique, deliver_all, seen, seen_after, on_message_lem,
}

module _ (w : Wire) where
  -- The frames of the messages, one behind the other.
  unfoldable pub frames : List RpcMessage → List ℕ
  frames [] = []
  frames (m ∷ ms) = frame w m ++ frames ms

  abbrev pub AllSendable : List RpcMessage → Type 0
  AllSendable [] = Unit {0}
  AllSendable (m ∷ ms) = IsSendable w m × AllSendable ms

  Drains-frames :
      (ms : List RpcMessage) (rest : List ℕ)
      → AllSendable ms
      → front w rest ≡ none
      → Drains w (frames ms ++ rest) ms rest
  unfolding frames
  Drains-frames [] rest a e = stop e refl
  Drains-frames (m ∷ ms) rest a e =
      next m (length (frame w m)) first (Drains-eq w (sym cut) (Drains-frames ms rest a.1 e))
    where
      regroup : (frame w m ++ frames ms) ++ rest ≡ frame w m ++ (frames ms ++ rest)
      regroup = append_assoc (frame w m) (frames ms) rest

      first : front w ((frame w m ++ frames ms) ++ rest) ≡ some (m, length (frame w m))
      first = ap (front w) regroup ∙ front-frame w m (frames ms ++ rest) a.0

      cut : drop (length (frame w m)) ((frame w m ++ frames ms) ++ rest) ≡ frames ms ++ rest
      cut =
          ap (drop (length (frame w m))) regroup
          ∙ drop-append_length (length (frame w m)) (frame w m) (frames ms ++ rest) refl

  -- If a valid buffer holds the frames of any messages, each of which protobuf reads back and
  -- whose frame keeps the limit, and behind them bytes with no good frame in front, then
  -- `onMessage` hands just those messages to the callback, in order, and leaves just the bytes
  -- behind them; it aborts only if the callback does.
  pub on_message-frames :
      {S : Type 0} (callback : RpcMessage → S → Option S) (s : S) (ms : List RpcMessage)
      (rest : List ℕ) (b : Buffer)
      → IsValid b
      → AllSendable ms
      → front w rest ≡ none
      → contents b ≡ frames ms ++ rest
      → seen callback (on_message w callback s b)
        ≡ (deliver_all callback ms s >>= λ s'. some (s', rest))
  on_message-frames callback s ms rest b v a e c =
      let (ms', left, d, _, run) = on_message_lem callback w b v in
      let u = Drains-unique w (Drains-eq w c d) (Drains-frames ms rest a e) in
      ap (seen callback) (run s)
      ∙ seen_after callback (deliver_all callback ms' s) left
      ∙ rw (u.0, u.1)

  -- No frame is in front of an empty stream.
  pub front-nil : front w [] ≡ none
  front-nil = elim (Option-cases (front w [])) [
    | inl e ↦ e
    | inr (f, e) ↦ let h = front_bounds w [] f e in absurd (omega arith)
  ]

  -- A frame that fills the buffer is delivered, and the buffer is left empty.
  pub on_message-frame :
      {S : Type 0} (callback : RpcMessage → S → Option S) (s : S) (m : RpcMessage) (b : Buffer)
      → IsValid b
      → IsSendable w m
      → contents b ≡ frame w m
      → seen callback (on_message w callback s b) ≡ (callback m s >>= λ s'. some (s', []))
  unfolding frames deliver_all
  on_message-frame {S} callback s m b v a c =
      on_message-frames callback s (m ∷ []) [] b v (a, tt) front-nil
        (c ∙ sym (append-nil (frame w m)) ∙ sym (append-nil (frame w m ++ [])))
      ∙ one (callback m s)
    where
      one :
          (o : Option S)
          → ((o >>= λ s'. some s') >>= λ s'. some (s', []))
            ≡ ◌>>=◌ {B = S × List ℕ} o (λ s'. some (s', []))
      one none = refl
      one (some s') = refl
