-- ===== src/Buffer/Space.antt =====
-- `makeSpace` and `ensureWritableBytes` never abort on a valid buffer that stays within the largest
-- vector, and leave the readable bytes as they are.
use proto_rpc.Prelude.{
  ℕ, ◌+◌, ◌-◌, ◌≤◌, ◌<◌, ◌≡◌, refl, ap, ◌∙◌, ◌⊎◌, inl, inr, List, ◌++◌, [], some, arith, length,
  take, drop, replicate, length-append, length-take, length-drop, length-replicate, take_all,
  max_size, append_assoc, le→leb, dec_lt,
}
use proto_rpc.Buffer.{
  Buffer, cheap_prepend, resize, write_at, make_space, new_buffer, ensure_writable_bytes,
}
use proto_rpc.Buffer.View.{
  IsValid, contents, Layout, IsValid-Layout, contents-Layout, Layout-IsValid, Layout-length,
  length-contents,
}

-- Room for `n` more bytes was made, and nothing else changed that a reader sees.
pub record HasRoom (n : ℕ) (b b' : Buffer) : Type 0 where
  pub valid : IsValid b'
  pub same : contents b' ≡ contents b
  pub room : b'.writer_index + n ≤ length b'.store
  pub prependable : (b'.reader_index ≡ b.reader_index) ⊎ (b'.reader_index ≡ cheap_prepend)

pub resize_grow :
    (n : ℕ) (xs : List ℕ)
    → length xs ≤ n
    → n ≤ max_size
    → resize n xs ≡ some (xs ++ replicate (n - length xs) 0)
unfolding resize
resize_grow n xs h m = rw (le→leb n max_size m, take_all n xs h)

module _ (n : ℕ) (b : Buffer) (v : IsValid b) (h : b.writer_index + n ≤ max_size) where
  grown : Buffer
  grown = record b { store = b.store ++ replicate (b.writer_index + n - length b.store) 0 }

  grown-HasRoom : length b.store - b.writer_index < n → HasRoom n b grown
  unfolding grown
  grown-HasRoom p = record {
    valid = Layout-IsValid grown pre (contents b) free' layout fits enough;
    same = contents-Layout grown pre (contents b) free' layout;
    room = omega (arith, length-grown);
    prependable = inl refl;
  }
    where
      pad : List ℕ
      pad = replicate (b.writer_index + n - length b.store) 0

      pre : List ℕ
      pre = take b.reader_index b.store

      free' : List ℕ
      free' = drop b.writer_index b.store ++ pad

      l : Layout b pre (contents b) (drop b.writer_index b.store)
      l = IsValid-Layout b v

      layout : Layout grown pre (contents b) free'
      layout = record {
        store_eq =
            ap (λ t. t ++ pad) l.store_eq
            ∙ append_assoc pre (contents b ++ drop b.writer_index b.store) pad
            ∙ ap (◌++◌ pre) (append_assoc (contents b) (drop b.writer_index b.store) pad);
        reader_eq = l.reader_eq;
        writer_eq = l.writer_eq;
      }

      length-grown : length (b.store ++ pad) ≡ b.writer_index + n
      length-grown = omega (
        arith,
        length-append b.store pad,
        length-replicate (b.writer_index + n - length b.store) (let z : ℕ = 0 in z),
      )

      fits : length pre + length (contents b) + length free' ≤ max_size
      fits = omega (arith, length-grown, Layout-length grown pre (contents b) free' layout)

      enough : cheap_prepend ≤ length pre + length (contents b) + length free'
      enough = omega (arith, length-grown, Layout-length grown pre (contents b) free' layout)

  compacted : Buffer
  compacted = record b {
    store = write_at cheap_prepend (contents b) b.store;
    reader_index = cheap_prepend;
    writer_index = cheap_prepend + (b.writer_index - b.reader_index);
  }

  compacted-HasRoom :
      n + cheap_prepend ≤ length b.store - b.writer_index + b.reader_index
      → cheap_prepend < b.reader_index
      → HasRoom n b compacted
  unfolding compacted write_at
  compacted-HasRoom p q = record {
    valid =
        Layout-IsValid compacted pre (contents b) free layout (omega (arith, total))
          (omega (arith, total));
    same = contents-Layout compacted pre (contents b) free layout;
    room =
        omega
          (arith, total, length-contents b v, Layout-length compacted pre (contents b) free layout);
    prependable = inr refl;
  }
    where
      pre : List ℕ
      pre = take cheap_prepend b.store

      free : List ℕ
      free = drop (cheap_prepend + length (contents b)) b.store

      layout : Layout compacted pre (contents b) free
      layout = record {
        store_eq = refl;
        reader_eq = omega (arith, length-take cheap_prepend b.store);
        writer_eq = omega (arith, length-take cheap_prepend b.store, length-contents b v);
      }

      total : length pre + length (contents b) + length free ≡ length b.store
      total = omega (
        arith,
        length-take cheap_prepend b.store,
        length-contents b v,
        length-drop (cheap_prepend + length (contents b)) b.store,
      )

  make_space-grown :
      length b.store - b.writer_index < n
      → length b.store - b.writer_index + b.reader_index < n + cheap_prepend
      → make_space n b ≡ some grown
  unfolding make_space grown
  make_space-grown p q = ground (arith, resize_grow (b.writer_index + n) b.store)

  make_space-compacted :
      length b.store - b.writer_index < n
      → n + cheap_prepend ≤ length b.store - b.writer_index + b.reader_index
      → make_space n b ≡ some compacted
  unfolding make_space compacted
  make_space-compacted p q = ground arith

  -- `makeSpace` finds the room, by growing or by moving the readable bytes to the front.
  make_space_lem :
      length b.store - b.writer_index < n
      → (b' : Buffer) × (make_space n b ≡ some b') × HasRoom n b b'
  make_space_lem p =
      elim (dec_lt (length b.store - b.writer_index + b.reader_index) (n + cheap_prepend)) [
        | yes q ↦ (grown, make_space-grown p q, grown-HasRoom p)
        | no q ↦ (
          compacted,
          make_space-compacted p (omega arith),
          compacted-HasRoom (omega arith) (omega arith),
        )
      ]

  -- On a valid buffer in which `n` more bytes end within the largest vector,
  -- `ensureWritableBytes(n)` does not abort, whether it grows the storage, moves the bytes or does
  -- nothing, and gives a valid buffer with the same readable bytes, room for `n` more, and the
  -- reader where it stood or at `kCheapPrepend`.
  pub ensure_writable_bytes_lem :
      (b' : Buffer) × (ensure_writable_bytes n b ≡ some b') × HasRoom n b b'
  unfolding ensure_writable_bytes
  ensure_writable_bytes_lem = elim (dec_lt (length b.store - b.writer_index) n) [
    | yes p ↦ after_space (make_space_lem p) p
    | no p ↦ (
      b,
      ground arith,
      record { valid = v; same = refl; room = omega arith; prependable = inl refl },
    )
  ]
    where
      after_space :
          (b' : Buffer) × (make_space n b ≡ some b') × HasRoom n b b'
          → length b.store - b.writer_index < n
          → (b' : Buffer) × (ensure_writable_bytes n b ≡ some b') × HasRoom n b b'
      after_space (b', e, r) p = (b', ground arith, r)

-- A new buffer is valid and empty, with eight bytes before the reader.
pub new_buffer_lem :
    (size : ℕ)
    → size + cheap_prepend ≤ max_size
    → (b : Buffer) × (new_buffer size ≡ some b)
      × IsValid b
      × (contents b ≡ [])
      × (b.reader_index ≡ cheap_prepend)
unfolding new_buffer
new_buffer_lem size h = (
  fresh,
  ground (
    arith,
    resize_grow (cheap_prepend + size) [],
    length-replicate {A = ℕ} (cheap_prepend + size) 0,
  ),
  omega (arith, length-replicate {A = ℕ} (cheap_prepend + size) 0),
  refl,
  refl,
)
  where
    fresh : Buffer
    fresh = record {
      store = replicate (cheap_prepend + size) 0;
      reader_index = cheap_prepend;
      writer_index = cheap_prepend;
    }
