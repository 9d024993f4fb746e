-- ===== src/Buffer/Read.antt =====
-- What is taken from the front of a valid buffer: `retrieve`, the strings and the integers, and
-- what `readFd` adds to its end.
use proto_rpc.Prelude.{
  ◌⊎◌, inl, inr, ℕ, ◌+◌, ◌-◌, ◌^◌, ◌≤◌, ◌<◌, ◌≡◌, refl, sym, ap, ◌∙◌, List, [], ◌++◌, some, arith,
  length, take, drop, length-append, length-take, length-drop, take-append_length,
  drop-append_length, take-take_le, drop-drop, take-append-drop, max_size, append_assoc, dec_lt,
  dec_le, take_all, drop_all, drop-take, pos, ◌>>=◌,
}
use proto_rpc.Endian.{
  host_to_network, network_to_host, network_to_host-host_to_network, length-host_to_network,
}
use proto_rpc.Buffer.{
  cheap_prepend, Buffer, peek, writable_bytes, retrieve, retrieve_all, retrieve_as_string,
  peek_word, peek_int32, read_word, read_fd, got, iov_room, write_end, append,
}
use proto_rpc.Buffer.View.{IsValid, contents, length-contents}
use proto_rpc.Buffer.Append.{Appends, append_lem, length-write_at, written, written-Appends}

pub retrieve_all-IsValid : (b : Buffer) → IsValid b → IsValid (retrieve_all b)
unfolding retrieve_all
retrieve_all-IsValid b v = omega arith

-- A front of the bytes from the reader on is a front of the contents.
pub peek-contents :
    (n : ℕ) (b : Buffer)
    → IsValid b
    → n ≤ length (contents b)
    → take n (peek b) ≡ take n (contents b)
peek-contents n b v h =
    sym (
      take-take_le n (b.writer_index - b.reader_index) (peek b)
        (omega (arith, length-contents b v)))

pub peek_int32_lem :
    (b : Buffer)
    → IsValid b
    → 4 ≤ length (contents b)
    → peek_int32 b ≡ some (network_to_host (take 4 (peek b)))
unfolding peek_int32 peek_word
peek_int32_lem b v h = ground (arith, length-contents b v)

-- `n` bytes were taken from the front.
pub record Takes (n : ℕ) (b b' : Buffer) : Type 0 where
  pub valid : IsValid b'
  pub rest : contents b' ≡ drop n (contents b)
  pub writer : (b'.writer_index ≡ b.writer_index) ⊎ (b'.writer_index ≡ cheap_prepend)

module _ (n : ℕ) (b : Buffer) (v : IsValid b) (h : n ≤ length (contents b)) where
  advanced : Buffer
  advanced = record b { reader_index = b.reader_index + n }

  advanced-Takes : Takes n b advanced
  unfolding advanced
  advanced-Takes = record {
    valid = omega (arith, length-contents b v);
    rest = rest';
    writer = inl refl;
  }
    where
      len : ℕ
      len = b.writer_index - b.reader_index

      rest' : contents advanced ≡ drop n (contents b)
      rest' =
          ap (λ k. take k (drop (b.reader_index + n) b.store)) count
          ∙ ap (take (len - n)) (sym (drop-drop n b.reader_index b.store))
          ∙ sym (drop-take n len (drop b.reader_index b.store) (omega (arith, length-contents b v)))
        where
          count : b.writer_index - (b.reader_index + n) ≡ len - n
          count = omega arith

  emptied-Takes : length (contents b) ≤ n → Takes n b (retrieve_all b)
  unfolding retrieve_all
  emptied-Takes p = record {
    valid = omega (arith, length-contents b v);
    rest = take_eq' ∙ sym (drop_all n (contents b) p);
    writer = inr refl;
  }
    where
      take_eq' : contents (retrieve_all b) ≡ []
      take_eq' = refl

  -- On a valid buffer `retrieve(n)` does not abort for `n` up to the number of readable bytes, and
  -- gives a valid buffer that has lost just the first `n` of them, whose writer stands where it
  -- stood or at `kCheapPrepend`.
  pub retrieve_lem : (b' : Buffer) × (retrieve n b ≡ some b') × Takes n b b'
  unfolding retrieve advanced
  retrieve_lem = elim (dec_lt n (length (contents b))) [
    | yes p ↦ (advanced, ground (arith, length-contents b v), advanced-Takes)
    | no p ↦ (retrieve_all b, ground (arith, length-contents b v), emptied-Takes (omega arith))
  ]

-- `retrieveAsString` hands out the front of the contents.
pub retrieve_as_string_lem :
    (n : ℕ) (b : Buffer)
    → IsValid b
    → n ≤ length (contents b)
    → (b' : Buffer) × (retrieve_as_string n b ≡ some (take n (contents b), b')) × Takes n b b'
unfolding retrieve_as_string
retrieve_as_string_lem n b v h =
    let (b', e, t) = retrieve_lem n b v h in
    (b', ground (arith, e, length-contents b v, peek-contents n b v h), t)

-- If the readable bytes of a valid buffer begin with the network order of a word of `k` bytes,
-- then `readInt` of that width does not abort, returns the word, and gives a valid buffer with
-- just the rest.
read_word_lem :
    (k x : ℕ) (rest : List ℕ) (b : Buffer)
    → IsValid b
    → x < 256 ^ k
    → contents b ≡ host_to_network k x ++ rest
    → (b' : Buffer) × (read_word k b ≡ some (x, b')) × IsValid b' × (contents b' ≡ rest)
unfolding read_word peek_word
read_word_lem k x rest b v hx e =
    let (b', e', t) = retrieve_lem k b v enough in
    (
      b',
      ground (arith, e', word, enough, network_to_host-host_to_network k x hx, length-contents b v),
      t.valid,
      t.rest ∙ ap (drop k) e ∙ drop-append_length k (host_to_network k x) rest size,
    )
  where
    size : k ≡ length (host_to_network k x)
    size = sym (length-host_to_network k x)

    enough : k ≤ length (contents b)
    enough = omega (arith, ap length e, length-append (host_to_network k x) rest, size)

    word : take k (peek b) ≡ host_to_network k x
    word =
        peek-contents k b v enough
        ∙ ap (take k) e
        ∙ take-append_length k (host_to_network k x) rest size

module _ (bytes : List ℕ) (errno : ℕ) (b : Buffer) (v : IsValid b) where
  read_fd-inside :
      (h : b.writer_index + length bytes ≤ length b.store)
      → read_fd (got bytes) errno b ≡ some (written bytes b v h, pos (length bytes), errno)
  unfolding read_fd written
  read_fd-inside h = ground (arith, take_all (writable_bytes b) bytes)

  -- What fits in the storage.
  near : List ℕ
  near = take (writable_bytes b) bytes

  far : List ℕ
  far = drop (writable_bytes b) bytes

  near_fits : b.writer_index + length near ≤ length b.store
  unfolding near
  near_fits = omega (arith, length-take (writable_bytes b) bytes)

  filled_eq :
      length b.store < b.writer_index + length bytes
      → written near b v near_fits
        ≡ record (write_end near b) { writer_index = length (write_end near b).store }
  unfolding written write_end near
  filled_eq over = ground (
    arith,
    near_fits,
    length-write_at b.writer_index near b.store,
    length-take (writable_bytes b) bytes,
  )

  filled : Buffer
  filled = written near b v near_fits

  far_lem :
      b.writer_index + length bytes ≤ max_size
      → (b' : Buffer) × (append far filled ≡ some b') × Appends far filled b'
  unfolding filled written near far
  far_lem h =
      append_lem far filled (written-Appends near b v near_fits).valid
        (omega (arith, length-take (writable_bytes b) bytes, length-drop (writable_bytes b) bytes))

  far-contents : (b' : Buffer) → Appends far filled b' → contents b' ≡ contents b ++ bytes
  unfolding filled near far
  far-contents b' a =
      a.extended
      ∙ ap (λ t. t ++ far) (written-Appends near b v near_fits).extended
      ∙ append_assoc (contents b) near far
      ∙ ap (◌++◌ (contents b)) (take-append-drop (writable_bytes b) bytes)

  read_fd-outside :
      length b.store < b.writer_index + length bytes
      → length bytes ≤ iov_room b
      → read_fd (got bytes) errno b
        ≡ (append far (written near b v near_fits) >>= λ b'. some (b', pos (length bytes), errno))
  unfolding read_fd near far
  read_fd-outside h room = rw (filled_eq h) (ground arith)

-- On a valid buffer, for bytes that `readv` can deliver into the space offered and that end within
-- the largest vector, `readFd` does not abort, returns their number, leaves the errno alone, and
-- gives a valid buffer whose readable bytes are those before and then the new ones, also where
-- some of them went to `extrabuf`.
pub read_fd_lem :
    (bytes : List ℕ) (errno : ℕ) (b : Buffer)
    → IsValid b
    → length bytes ≤ iov_room b
    → b.writer_index + length bytes ≤ max_size
    → (b' : Buffer) × (read_fd (got bytes) errno b ≡ some (b', pos (length bytes), errno))
      × IsValid b'
      × (contents b' ≡ contents b ++ bytes)
unfolding filled
read_fd_lem bytes errno b v room h =
    elim (dec_le (b.writer_index + length bytes) (length b.store)) [
      | yes p ↦ (
        written bytes b v p,
        read_fd-inside bytes errno b v p,
        (written-Appends bytes b v p).valid,
        (written-Appends bytes b v p).extended,
      )
      | no p ↦ (
        far_end.0,
        read_fd-outside bytes errno b v (omega arith) room ∙ (rw far_end.1),
        far_end.2.valid,
        far-contents bytes errno b v far_end.0 far_end.2,
      )
    ]
  where
    far_end :
        (b' : Buffer) × (append (far bytes errno b v) (filled bytes errno b v) ≡ some b')
        × Appends (far bytes errno b v) (filled bytes errno b v) b'
    far_end = far_lem bytes errno b v h
