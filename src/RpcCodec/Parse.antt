-- ===== src/RpcCodec/Parse.antt =====
-- The front of a byte stream as the codec judges it: which bytes the verdict depends on, and that
-- one round of `onMessage` judges the readable bytes alone.
use proto_rpc.Prelude.{
  ℕ, ◌+◌, ◌-◌, ◌≤◌, ◌<◌, ◌≡◌, refl, sym, ap, ◌∙◌, ◌⊎◌, ◌||◌, Option, none, some, List, ◌++◌, arith,
  leb, if◌then◌else◌, length, take, drop, take-take_le, take_all, drop-take, take-append_le,
  length-append, pos, pos_part, sub_ℕ, ltb_ℤ, signed32, dec_le,
}
use proto_rpc.Endian.{network_to_host}
use proto_rpc.Message.{RpcMessage}
use proto_rpc.Buffer.{Buffer, peek, readable_bytes}
use proto_rpc.Buffer.View.{IsValid, contents, readable-length, length-contents}
use proto_rpc.Buffer.Read.{peek_int32_lem}
use proto_rpc.RpcCodec.{
  Wire, header_len, max_message_len, min_message_len, CodecError, as_int32, checksum,
  validate_checksum, parse_from_buffer, parse, accept, message_of, next_message,
}

module _ (w : Wire) where
  checksum-take : (n len : ℕ) (xs : List ℕ) → n ≤ len → checksum w (take len xs) n ≡ checksum w xs n
  unfolding checksum
  checksum-take n len xs h = rw (take-take_le n len xs h)

  -- `parse` reads its first `len` bytes only.
  pub parse-take : (len : ℕ) (xs : List ℕ) → 4 ≤ len → parse w (take len xs) len ≡ parse w xs len
  unfolding parse validate_checksum as_int32 parse_from_buffer
  parse-take len xs h = rw (
    checksum-take (len - 4) len xs (omega arith),
    drop-take (len - 4) len xs (omega arith),
    take-take_le 4 (len - (len - 4)) (drop (len - 4) xs) (omega arith),
    take-take_le 4 len xs h,
    drop-take 4 len xs h,
    take-take_le (pos_part (sub_ℕ len 8)) (len - 4) (drop 4 xs) (ground arith),
  )

  parse_agree :
      (len : ℕ) (xs ys : List ℕ)
      → 4 ≤ len
      → take len xs ≡ take len ys
      → parse w xs len ≡ parse w ys len
  parse_agree len xs ys h e =
      sym (parse-take len xs h) ∙ ap (λ t. parse w t len) e ∙ parse-take len ys h

  unfoldable pub front_of : ℕ → List ℕ → ℕ → Option (RpcMessage × ℕ)
  front_of n p len =
      if ltb_ℤ (pos max_message_len) (signed32 len) || ltb_ℤ (signed32 len) (pos min_message_len)
      then none
      else if leb (header_len + len) n
      then accept (header_len + len) (parse w (drop header_len p) len)
      else none

  -- The verdict on the first `n` bytes at `p`.
  unfoldable pub front_in : ℕ → List ℕ → Option (RpcMessage × ℕ)
  front_in n p =
      if leb (min_message_len + header_len) n
      then front_of n p (network_to_host (take 4 p))
      else none

  -- The message in front of a stream and the bytes that it takes, if there is a whole good frame.
  unfoldable pub front : List ℕ → Option (RpcMessage × ℕ)
  front xs = front_in (length xs) xs

  body_agree :
      (n len : ℕ) (p q : List ℕ)
      → take n p ≡ take n q
      → 4 ≤ len
      → 4 + len ≤ n
      → parse w (drop 4 p) len ≡ parse w (drop 4 q) len
  body_agree n len p q e h k =
      parse_agree len (drop 4 p) (drop 4 q) h
        (sym (cut p) ∙ ap (λ t. take len (drop 4 t)) e ∙ cut q)
    where
      cut : (xs : List ℕ) → take len (drop 4 (take n xs)) ≡ take len (drop 4 xs)
      cut xs =
          rw (drop-take 4 n xs (omega arith), take-take_le len (n - 4) (drop 4 xs) (omega arith))

  word_agree : (n : ℕ) (p q : List ℕ) → take n p ≡ take n q → 8 ≤ n → take 4 p ≡ take 4 q
  word_agree n p q e h =
      sym (take-take_le 4 n p (omega arith)) ∙ ap (take 4) e ∙ take-take_le 4 n q (omega arith)

  front_of_agree :
      (n len : ℕ) (p q : List ℕ) → take n p ≡ take n q → front_of n p len ≡ front_of n q len
  unfolding front_of
  front_of_agree n len p q e = elim (dec_le 4 len) [
    | yes h ↦ elim (dec_le (4 + len) n) [
      | yes k ↦ rw (body_agree n len p q e h k)
      | no k ↦ ground arith
    ]
    | no h ↦ ground arith
  ]

  front_in_agree : (n : ℕ) (p q : List ℕ) → take n p ≡ take n q → front_in n p ≡ front_in n q
  unfolding front_in
  front_in_agree n p q e = elim (dec_le 8 n) [
    | yes h ↦ rw (word_agree n p q e h, front_of_agree n (network_to_host (take 4 q)) p q e)
    | no h ↦ ground arith
  ]

  message_of-front_of :
      (b : Buffer) (len : ℕ) → message_of w b len ≡ front_of (readable_bytes b) (peek b) len
  unfolding message_of front_of
  message_of-front_of b len = refl

  peek_agree :
      (b : Buffer)
      → IsValid b
      → take (length (contents b)) (peek b) ≡ take (length (contents b)) (contents b)
  peek_agree b v =
      ap (λ n. take n (peek b)) (length-contents b v)
      ∙ sym (take_all (length (contents b)) (contents b) (omega arith))

  next_message-front_in :
      (b : Buffer) → IsValid b → next_message w b ≡ some (front_in (readable_bytes b) (peek b))
  unfolding next_message front_in
  next_message-front_in b v = elim (dec_le 8 (length (contents b))) [
    | yes h ↦
        rw (peek_int32_lem b v (omega arith))
          (ground (arith, message_of-front_of b (network_to_host (take 4 (peek b)))))
    | no h ↦ ground (arith, length-contents b v)
  ]

  -- A round of `onMessage` on a valid buffer does not abort, and judges the readable bytes alone.
  pub next_message-front : (b : Buffer) → IsValid b → next_message w b ≡ some (front (contents b))
  unfolding front
  next_message-front b v =
      next_message-front_in b v
      ∙ ap (λ n. some (front_in n (peek b))) (readable-length b v)
      ∙ ap some (front_in_agree (length (contents b)) (peek b) (contents b) (peek_agree b v))

  accept-some :
      (n : ℕ) (r : CodecError × Option RpcMessage) (f : RpcMessage × ℕ)
      → accept n r ≡ some f
      → f.1 ≡ n
  unfolding accept
  accept-some n (CodecError.no_error, some m) f e = ground arith
  accept-some n (_, _) f e = cc

  front_of_bounds :
      (n len : ℕ) (p : List ℕ) (f : RpcMessage × ℕ)
      → front_of n p len ≡ some f
      → (8 ≤ f.1) × (f.1 ≤ n)
  unfolding front_of
  front_of_bounds n len p f e = ground (arith, accept-some (4 + len) (parse w (drop 4 p) len) f)

  -- A frame takes at least eight bytes, and no more than there are.
  pub front_bounds :
      (xs : List ℕ) (f : RpcMessage × ℕ) → front xs ≡ some f → (8 ≤ f.1) × (f.1 ≤ length xs)
  unfolding front front_in
  front_bounds xs f e =
      ground (arith, front_of_bounds (length xs) (network_to_host (take 4 xs)) xs f)

  front_of_grow :
      (n m len : ℕ) (p : List ℕ) (f : RpcMessage × ℕ)
      → n ≤ m
      → front_of n p len ≡ some f
      → front_of m p len ≡ some f
  unfolding front_of
  front_of_grow n m len p f h e = ground arith

  front_in_grow :
      (n m : ℕ) (p : List ℕ) (f : RpcMessage × ℕ)
      → n ≤ m
      → front_in n p ≡ some f
      → front_in m p ≡ some f
  unfolding front_in
  front_in_grow n m p f h e = ground (arith, front_of_grow n m (network_to_host (take 4 p)) p f h)

  -- A whole good frame in front stays in front when more bytes arrive.
  pub front-append :
      (xs ys : List ℕ) (f : RpcMessage × ℕ) → front xs ≡ some f → front (xs ++ ys) ≡ some f
  unfolding front
  front-append xs ys f e =
      front_in_grow (length xs) (length (xs ++ ys)) (xs ++ ys) f
        (omega (arith, length-append xs ys)) (front_in_agree (length xs) (xs ++ ys) xs same ∙ e)
    where
      same : take (length xs) (xs ++ ys) ≡ take (length xs) xs
      same = take-append_le (length xs) xs ys (omega arith)

  -- What makes a frame good.
  pub front_intro :
      (len : ℕ) (m : RpcMessage) (xs : List ℕ)
      → network_to_host (take 4 xs) ≡ len
      → 4 ≤ len
      → len ≤ max_message_len
      → 4 + len ≤ length xs
      → parse w (drop 4 xs) len ≡ (CodecError.no_error, some m)
      → front xs ≡ some (m, 4 + len)
  unfolding front front_in front_of accept
  front_intro len m xs word low high all good = rw (word, good) (ground arith)

  front_in_blocked :
      (n m : ℕ) (p : List ℕ)
      → 8 ≤ n
      → n ≤ m
      → (network_to_host (take 4 p) < min_message_len)
        ⊎ (max_message_len < network_to_host (take 4 p))
        ⊎ (4 + network_to_host (take 4 p) ≤ n)
      → front_in n p ≡ none
      → front_in m p ≡ none
  unfolding front_in front_of
  front_in_blocked n m p h k bad e = ground arith

  -- A size out of range, or a whole frame that was refused, is refused again whatever follows.
  pub front_blocked :
      (xs ys : List ℕ)
      → 8 ≤ length xs
      → (network_to_host (take 4 xs) < min_message_len)
        ⊎ (max_message_len < network_to_host (take 4 xs))
        ⊎ (4 + network_to_host (take 4 xs) ≤ length xs)
      → front xs ≡ none
      → front (xs ++ ys) ≡ none
  unfolding front
  front_blocked xs ys h bad e =
      front_in_blocked (length xs) (length (xs ++ ys)) (xs ++ ys) h
        (omega (arith, length-append xs ys)) (rw (take-append_le 4 xs ys (omega arith)) bad)
        (front_in_agree (length xs) (xs ++ ys) xs (take-append_le (length xs) xs ys (omega arith))
          ∙ e)
