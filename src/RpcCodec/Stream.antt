-- ===== src/RpcCodec/Stream.antt =====
-- `onMessage` as a whole: it ends, it delivers the good frames in front in order, and it does not
-- matter how the stream was cut into reads.
use proto_rpc.Prelude.{
  ℕ, zero, suc, ◌<◌, ◌≡◌, refl, sym, ap, ap₂, subst, ◌∙◌, Option, none, some, List, [], ◌∷◌, ◌++◌,
  arith, inl, inr, Option-cases, length, drop, length-drop, drop-append_le, ◌>>=◌,
}
use proto_rpc.Message.{RpcMessage}
use proto_rpc.Buffer.{Buffer, readable_bytes, retrieve}
use proto_rpc.Buffer.View.{IsValid, contents, readable-length}
use proto_rpc.Buffer.Read.{retrieve_lem}
use proto_rpc.RpcCodec.{Wire, on_message_loop, on_message}
use proto_rpc.RpcCodec.Parse.{front, front_bounds, front-append, next_message-front}

-- The frames in front of a stream, in order, and what is left when no good frame is in front.
pub data Drains (w : Wire) : List ℕ → List RpcMessage → List ℕ → Type 0 where
  stop : {xs rest : List ℕ} → front w xs ≡ none → rest ≡ xs → Drains w xs [] rest
  next :
      {xs rest : List ℕ} {ms : List RpcMessage} (m : RpcMessage) (n : ℕ)
      → front w xs ≡ some (m, n)
      → Drains w (drop n xs) ms rest
      → Drains w xs (m ∷ ms) rest

module _ (w : Wire) where
  pub Drains-eq :
      {xs xs' r : List ℕ} {ms : List RpcMessage} → xs ≡ xs' → Drains w xs ms r → Drains w xs' ms r
  Drains-eq {r = r} {ms = ms} p d = subst (λ t. Drains w t ms r) p d

  same_front :
      (xs xs' : List ℕ) (m m' : RpcMessage) (n n' : ℕ)
      → xs ≡ xs'
      → front w xs ≡ some (m, n)
      → front w xs' ≡ some (m', n')
      → (m ≡ m') × (drop n xs ≡ drop n' xs')
  same_front xs xs' m m' n n' p e e' = (cc, cc)

  Drains-unique_eq :
      {xs xs' r r' : List ℕ} {ms ms' : List RpcMessage}
      → xs ≡ xs'
      → Drains w xs ms r
      → Drains w xs' ms' r'
      → (ms ≡ ms') × (r ≡ r')
  Drains-unique_eq p (stop e q) (stop e' q') = (refl, q ∙ p ∙ sym q')
  Drains-unique_eq p (stop e q) (next m n e' d') = cc
  Drains-unique_eq p (next m n e d) (stop e' q') = cc
  Drains-unique_eq p (next {xs = xs} m n e d) (next {xs = xs'} m' n' e' d') =
      let f = same_front xs xs' m m' n n' p e e' in
      let u = Drains-unique_eq f.1 d d' in (ap₂ ◌∷◌ f.0 u.0, u.1)

  -- A stream is drained in one way.
  pub Drains-unique :
      {xs r r' : List ℕ} {ms ms' : List RpcMessage}
      → Drains w xs ms r
      → Drains w xs ms' r'
      → (ms ≡ ms') × (r ≡ r')
  Drains-unique d d' = Drains-unique_eq refl d d'

  -- Draining what has come so far, then the rest with what came later, is draining it all.
  pub Drains-append :
      (ys : List ℕ) {xs r r' : List ℕ} {ms ms' : List RpcMessage}
      → Drains w xs ms r
      → Drains w (r ++ ys) ms' r'
      → Drains w (xs ++ ys) (ms ++ ms') r'
  Drains-append ys (stop e p) d' = Drains-eq (ap (λ t. t ++ ys) p) d'
  Drains-append ys (next {xs = xs} m n e d) d' = next m n (front-append w xs ys (m, n) e) (
      Drains-eq (sym (drop-append_le n xs ys (front_bounds w xs (m, n) e).1))
        (Drains-append ys d d'))

module _ {S : Type 0} (callback : RpcMessage → S → Option S) where
  -- The callback on the messages in order.
  unfoldable pub deliver_all : List RpcMessage → S → Option S
  deliver_all [] s = some s
  deliver_all (m ∷ ms) s = callback m s >>= λ s'. deliver_all ms s'

  pub deliver_all-append :
      (ms ms' : List RpcMessage) (s : S)
      → deliver_all (ms ++ ms') s ≡ (deliver_all ms s >>= deliver_all ms')
  unfolding deliver_all
  deliver_all-append [] ms' s = refl
  deliver_all-append (m ∷ ms) ms' s = after (callback m s) (deliver_all-append ms ms')
    where
      after :
          (r : Option S)
          → ((s' : S) → deliver_all (ms ++ ms') s' ≡ (deliver_all ms s' >>= deliver_all ms'))
          → (r >>= λ s'. deliver_all (ms ++ ms') s')
            ≡ ((r >>= λ s'. deliver_all ms s') >>= deliver_all ms')
      after none h = refl
      after (some s') h = h s'

  -- What a run of the loop did: the messages that it delivered, and the buffer that it left.
  record Ran (w : Wire) (run : S → Option (S × Buffer)) (b : Buffer) : Type 0 where
    messages : List RpcMessage
    left : Buffer
    drains : Drains w (contents b) messages (contents left)
    valid : IsValid left
    result : (s : S) → run s ≡ (deliver_all messages s >>= λ s'. some (s', left))

  module _ (w : Wire) where
    stopped :
        (fuel : ℕ) (b : Buffer)
        → IsValid b
        → front w (contents b) ≡ none
        → Ran w (λ s. on_message_loop w callback (suc fuel) s b) b
    unfolding on_message_loop deliver_all
    stopped fuel b v e = record {
      messages = [];
      left = b;
      drains = stop e refl;
      valid = v;
      result = λ s. rw (next_message-front w b v, e);
    }

    round :
        (fuel n : ℕ) (m : RpcMessage) (b b' : Buffer)
        → IsValid b
        → front w (contents b) ≡ some (m, n)
        → retrieve n b ≡ some b'
        → contents b' ≡ drop n (contents b)
        → Ran w (λ s. on_message_loop w callback fuel s b') b'
        → Ran w (λ s. on_message_loop w callback (suc fuel) s b) b
    unfolding on_message_loop deliver_all
    round fuel n m b b' v e e' c r = record {
      messages = m ∷ r.messages;
      left = r.left;
      drains = next m n e (Drains-eq w c r.drains);
      valid = r.valid;
      result = λ s. rw (next_message-front w b v, e) (after (callback m s));
    }
      where
        after :
            (o : Option S)
            → (o >>= λ s'. retrieve n b >>= λ b''. on_message_loop w callback fuel s' b'')
              ≡ ((o >>= λ s'. deliver_all r.messages s') >>= λ s'. some (s', r.left))
        after none = refl
        after (some s') = rw e' (r.result s')

    loop_lem :
        (fuel : ℕ) (b : Buffer)
        → IsValid b
        → length (contents b) < fuel
        → Ran w (λ s. on_message_loop w callback fuel s b) b
    loop_lem zero b v h = absurd (omega arith)
    loop_lem (suc fuel) b v h = elim (Option-cases (front w (contents b))) [
      | inl e ↦ stopped fuel b v e
      | inr ((m, n), e) ↦
          let bounds = front_bounds w (contents b) (m, n) e in
          let (b', e', t) = retrieve_lem n b v bounds.1 in
          round fuel n m b b' v e e' t.rest (
            loop_lem fuel b' t.valid
              (omega (arith, bounds.0, bounds.1, ap length t.rest, length-drop n (contents b))))
    ]

    -- Without a good frame in front nothing changes.
    pub on_message-stop :
        (s : S) (b : Buffer)
        → IsValid b
        → front w (contents b) ≡ none
        → on_message w callback s b ≡ some (s, b)
    unfolding on_message on_message_loop
    on_message-stop s b v e = rw (next_message-front w b v, e)

    -- On every valid buffer `onMessage` ends, and does not abort of its own: there is a list of
    -- messages, those of the good frames in front of the readable bytes, such that from any state
    -- it hands them to the callback in order and leaves a valid buffer with the bytes behind those
    -- frames, which have no good frame in front; it aborts only where the callback does.
    pub on_message_lem :
        (b : Buffer)
        → IsValid b
        → (ms : List RpcMessage) × (b' : Buffer) × Drains w (contents b) ms (contents b')
          × IsValid b'
          × ((s : S) → on_message w callback s b ≡ (deliver_all ms s >>= λ s'. some (s', b')))
    unfolding on_message
    on_message_lem b v = (r.messages, r.left, r.drains, r.valid, r.result)
      where
        r : Ran w (λ s. on_message_loop w callback (suc (readable_bytes b)) s b) b
        r = loop_lem (suc (readable_bytes b)) b v (omega (arith, readable-length b v))

  -- What a caller sees of a run: its state and the bytes that are left.
  abbrev pub seen : Option (S × Buffer) → Option (S × List ℕ)
  seen r = r >>= λ p. some (p.0, contents p.1)

  pub seen_after :
      (o : Option S) (b : Buffer)
      → seen (o >>= λ s. some (s, b)) ≡ (o >>= λ s. some (s, contents b))
  seen_after none b = refl
  seen_after (some s) b = refl

  delivered_some :
      (o : Option S) (b b₁ : Buffer) (s₁ : S)
      → ◌>>=◌ {B = S × Buffer} o (λ s. some (s, b)) ≡ some (s₁, b₁)
      → (o ≡ some s₁) × (b ≡ b₁)
  delivered_some none b b₁ s₁ e = cc
  delivered_some (some s) b b₁ s₁ e = (cc, cc)

  joined :
      (ms ms₂ ms₃ : List RpcMessage) (s s₁ : S) (r r' : List ℕ)
      → ms₃ ≡ ms ++ ms₂
      → r ≡ r'
      → deliver_all ms s ≡ some s₁
      → ◌>>=◌ {B = S × List ℕ} (deliver_all ms₃ s) (λ s'. some (s', r))
        ≡ (deliver_all ms₂ s₁ >>= λ s'. some (s', r'))
  joined ms ms₂ ms₃ s s₁ r r' p q e = rw (p, q, deliver_all-append ms ms₂ s, e)

  -- Cutting the stream into two reads changes nothing. If `onMessage` on a valid buffer gave the
  -- state `s₁` and left the buffer `b₁`, then `onMessage` from `s₁` on a valid buffer with the
  -- bytes `ys` behind those of `b₁` gives the same state and leaves the same bytes, or aborts the
  -- same way, as one `onMessage` on a valid buffer that has all the bytes from the start.
  pub on_message_chunks :
      (w : Wire) (s s₁ : S) (b b₁ b₂ b₃ : Buffer) (ys : List ℕ)
      → IsValid b
      → IsValid b₂
      → IsValid b₃
      → on_message w callback s b ≡ some (s₁, b₁)
      → contents b₂ ≡ contents b₁ ++ ys
      → contents b₃ ≡ contents b ++ ys
      → seen (on_message w callback s b₃) ≡ seen (on_message w callback s₁ b₂)
  on_message_chunks w s s₁ b b₁ b₂ b₃ ys v v₂ v₃ e c₂ c₃ =
      let (ms, left, d, _, run) = on_message_lem w b v in
      let (ms₂, left₂, d₂, _, run₂) = on_message_lem w b₂ v₂ in
      let (ms₃, left₃, d₃, _, run₃) = on_message_lem w b₃ v₃ in
      let first = delivered_some (deliver_all ms s) left b₁ s₁ (sym (run s) ∙ e) in
      let all =
        Drains-append w ys d (Drains-eq w (c₂ ∙ ap (λ t. contents t ++ ys) (sym first.1)) d₂) in
      let u = Drains-unique w (Drains-eq w c₃ d₃) all in
      ap seen (run₃ s)
      ∙ seen_after (deliver_all ms₃ s) left₃
      ∙ joined ms ms₂ ms₃ s s₁ (contents left₃) (contents left₂) u.0 u.1 first.0
      ∙ sym (ap seen (run₂ s₁) ∙ seen_after (deliver_all ms₂ s₁) left₂)
