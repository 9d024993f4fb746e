-- ===== src/Buffer/Append.antt =====
-- `append` and `prepend` never abort where the bytes fit, and what they do to the readable bytes.
use proto_rpc.Prelude.{
  ℕ, ◌+◌, ◌-◌, ◌≤◌, ◌≡◌, refl, sym, ap, ◌∙◌, ◌⊎◌, inl, List, ◌++◌, some, arith, length, take, drop,
  length-append, length-take, length-drop, max_size, append_assoc,
}
use proto_rpc.Endian.{host_to_network, length-host_to_network}
use proto_rpc.Buffer.{
  append_int32, Buffer, cheap_prepend, write_at, ensure_writable_bytes, has_written, write_end,
  append, prepend,
}
use proto_rpc.Buffer.View.{
  IsValid, contents, Layout, IsValid-Layout, contents-Layout, Layout-IsValid, Layout-length,
  length-contents, drop-reader, write_at-append,
}
use proto_rpc.Buffer.Space.{HasRoom, ensure_writable_bytes_lem}

-- `bytes` were put after the readable bytes.
pub record Appends (bytes : List ℕ) (b b' : Buffer) : Type 0 where
  pub valid : IsValid b'
  pub extended : contents b' ≡ contents b ++ bytes
  pub prependable : (b'.reader_index ≡ b.reader_index) ⊎ (b'.reader_index ≡ cheap_prepend)

pub length-write_at :
    (i : ℕ) (ys xs : List ℕ) → i + length ys ≤ length xs → length (write_at i ys xs) ≡ length xs
unfolding write_at
length-write_at i ys xs h = omega (
  arith,
  length-append (take i xs) (ys ++ drop (i + length ys) xs),
  length-append ys (drop (i + length ys) xs),
  length-take i xs,
  length-drop (i + length ys) xs,
)

-- A copy to `beginWrite()` with `hasWritten` after it, where there is room.
module _ (bytes : List ℕ) (b : Buffer) (v : IsValid b)
    (h : b.writer_index + length bytes ≤ length b.store) where
  unfoldable pub written : Buffer
  written = record (write_end bytes b) { writer_index = b.writer_index + length bytes }

  written-Layout :
      Layout written
        (take b.reader_index b.store)
        (contents b ++ bytes)
        (drop (length bytes) (drop b.writer_index b.store))
  unfolding written write_end
  written-Layout = record {
    store_eq =
        ap (write_at b.writer_index bytes) (l.store_eq ∙ sym (append_assoc pre (contents b) free))
        ∙ write_at-append b.writer_index (pre ++ contents b) bytes free
            (omega (arith, length-append pre (contents b), l.writer_eq))
        ∙ append_assoc pre (contents b) (bytes ++ drop (length bytes) free)
        ∙ ap (◌++◌ pre) (sym (append_assoc (contents b) bytes (drop (length bytes) free)));
    reader_eq = l.reader_eq;
    writer_eq = omega (arith, l.writer_eq, length-append (contents b) bytes);
  }
    where
      pre : List ℕ
      pre = take b.reader_index b.store

      free : List ℕ
      free = drop b.writer_index b.store

      l : Layout b pre (contents b) free
      l = IsValid-Layout b v

  pub written-Appends : Appends bytes b written
  unfolding written write_end
  written-Appends = record {
    valid = Layout-IsValid written pre xs free written-Layout fits enough;
    extended = contents-Layout written pre xs free written-Layout;
    prependable = inl refl;
  }
    where
      pre : List ℕ
      pre = take b.reader_index b.store

      xs : List ℕ
      xs = contents b ++ bytes

      free : List ℕ
      free = drop (length bytes) (drop b.writer_index b.store)

      fits : length pre + length xs + length free ≤ max_size
      fits = omega (
        arith,
        Layout-length written pre xs free written-Layout,
        length-write_at b.writer_index bytes b.store,
      )

      enough : cheap_prepend ≤ length pre + length xs + length free
      enough = omega (
        arith,
        Layout-length written pre xs free written-Layout,
        length-write_at b.writer_index bytes b.store,
      )

  pub has_written_lem : has_written (length bytes) (write_end bytes b) ≡ some written
  unfolding has_written written write_end
  has_written_lem = ground (arith, length-write_at b.writer_index bytes b.store)

-- On a valid buffer in which the bytes end within the largest vector, `append` does not abort, and
-- gives a valid buffer whose readable bytes are those before and then the new ones, and whose
-- reader stands where it stood or at `kCheapPrepend`.
pub append_lem :
    (bytes : List ℕ) (b : Buffer)
    → IsValid b
    → b.writer_index + length bytes ≤ max_size
    → (b' : Buffer) × (append bytes b ≡ some b') × Appends bytes b b'
unfolding append written write_end
append_lem bytes b v h = finish (ensure_writable_bytes_lem (length bytes) b v h)
  where
    finish :
        (b₁ : Buffer) × (ensure_writable_bytes (length bytes) b ≡ some b₁)
          × HasRoom (length bytes) b b₁
        → (b' : Buffer) × (append bytes b ≡ some b') × Appends bytes b b'
    finish (b₁, e, r) = (
      written bytes b₁ r.valid r.room,
      rw e (has_written_lem bytes b₁ r.valid r.room),
      record {
        valid = a.valid;
        extended = a.extended ∙ ap (λ t. t ++ bytes) r.same;
        prependable = ground arith;
      },
    )
      where
        a : Appends bytes b₁ (written bytes b₁ r.valid r.room)
        a = written-Appends bytes b₁ r.valid r.room

-- `bytes` were put before the readable bytes.
pub record Prepends (bytes : List ℕ) (b b' : Buffer) : Type 0 where
  pub valid : IsValid b'
  pub extended : contents b' ≡ bytes ++ contents b

-- On a valid buffer with at least as many bytes before the reader as are prepended, `prepend` does
-- not abort, and gives a valid buffer whose readable bytes are the new ones and then those before.
pub prepend_lem :
    (bytes : List ℕ) (b : Buffer)
    → IsValid b
    → length bytes ≤ b.reader_index
    → (b' : Buffer) × (prepend bytes b ≡ some b') × Prepends bytes b b'
unfolding prepend write_at
prepend_lem bytes b v h = (
  b',
  ground arith,
  record {
    valid = Layout-IsValid b' pre (bytes ++ contents b) free layout fits enough;
    extended = contents-Layout b' pre (bytes ++ contents b) free layout;
  },
)
  where
    r : ℕ
    r = b.reader_index - length bytes

    b' : Buffer
    b' = record b { store = write_at r bytes b.store; reader_index = r }

    pre : List ℕ
    pre = take r b.store

    free : List ℕ
    free = drop b.writer_index b.store

    back : r + length bytes ≡ b.reader_index
    back = omega arith

    tail : drop (r + length bytes) b.store ≡ contents b ++ free
    tail =
        ap (λ k. drop k b.store) back
        ∙ drop-reader b (take b.reader_index b.store) (contents b) free (IsValid-Layout b v)

    layout : Layout b' pre (bytes ++ contents b) free
    layout = record {
      store_eq =
          ap (λ t. pre ++ (bytes ++ t)) tail
          ∙ ap (◌++◌ pre) (sym (append_assoc bytes (contents b) free));
      reader_eq = omega (arith, length-take r b.store);
      writer_eq =
          omega
            (arith, length-take r b.store, length-append bytes (contents b), length-contents b v);
    }

    fits : length pre + length (bytes ++ contents b) + length free ≤ max_size
    fits = omega (
      arith,
      Layout-length b' pre (bytes ++ contents b) free layout,
      length-write_at r bytes b.store,
    )

    enough : cheap_prepend ≤ length pre + length (bytes ++ contents b) + length free
    enough = omega (
      arith,
      Layout-length b' pre (bytes ++ contents b) free layout,
      length-write_at r bytes b.store,
    )

-- `appendInt32` adds four bytes.
pub append_int32_lem :
    (x : ℕ) (b : Buffer)
    → IsValid b
    → b.writer_index + 4 ≤ max_size
    → (b' : Buffer) × (append_int32 x b ≡ some b') × Appends (host_to_network 4 x) b b'
unfolding append_int32
append_int32_lem x b v h =
    append_lem (host_to_network 4 x) b v (omega (arith, length-host_to_network 4 x))
