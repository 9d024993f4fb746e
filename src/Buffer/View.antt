-- ===== src/Buffer/View.antt =====
-- The buffer seen as the bytes that can be read, its invariant, and how its operations act on the
-- three parts of the storage: before the reader, readable, and free.
use proto_rpc.Prelude.{
  ℕ, ◌+◌, ◌-◌, ◌≤◌, ◌≡◌, refl, sym, ap, ◌∙◌, List, ◌++◌, arith, length, take, drop, length-append,
  length-take, length-drop, take-append-drop, take-append_length, drop-append_length, drop-drop,
  max_size,
}
use proto_rpc.Buffer.{Buffer, cheap_prepend, write_at, readable_bytes}

-- What a reader of the buffer sees.
abbrev pub contents : Buffer → List ℕ
contents b = take (b.writer_index - b.reader_index) (drop b.reader_index b.store)

pub record IsValid (b : Buffer) : Type 0 where
  pub ordered : b.reader_index ≤ b.writer_index
  pub inside : b.writer_index ≤ length b.store
  pub small : length b.store ≤ max_size
  pub front : cheap_prepend ≤ length b.store

-- The storage in three parts.
pub record Layout (b : Buffer) (pre xs free : List ℕ) : Type 0 where
  pub store_eq : b.store ≡ pre ++ (xs ++ free)
  pub reader_eq : b.reader_index ≡ length pre
  pub writer_eq : b.writer_index ≡ length pre + length xs

pub length-contents :
    (b : Buffer) → IsValid b → length (contents b) ≡ b.writer_index - b.reader_index
length-contents b v = omega (
  arith,
  length-take (b.writer_index - b.reader_index) (drop b.reader_index b.store),
  length-drop b.reader_index b.store,
)

pub readable-length : (b : Buffer) → IsValid b → readable_bytes b ≡ length (contents b)
readable-length b v = omega (arith, length-contents b v)

pub IsValid-Layout :
    (b : Buffer)
    → IsValid b
    → Layout b (take b.reader_index b.store) (contents b) (drop b.writer_index b.store)
IsValid-Layout b v = record {
  store_eq =
      sym (ap (◌++◌ (take b.reader_index b.store)) rest ∙ take-append-drop b.reader_index b.store);
  reader_eq = omega (arith, length-take b.reader_index b.store);
  writer_eq = omega (arith, length-take b.reader_index b.store, length-contents b v);
}
  where
    n : ℕ
    n = b.writer_index - b.reader_index

    ends : b.writer_index ≡ b.reader_index + n
    ends = omega arith

    rest : contents b ++ drop b.writer_index b.store ≡ drop b.reader_index b.store
    rest =
        ap (λ k. contents b ++ drop k b.store) ends
        ∙ ap (◌++◌ (contents b)) (sym (drop-drop n b.reader_index b.store))
        ∙ take-append-drop n (drop b.reader_index b.store)

module _ (b : Buffer) (pre xs free : List ℕ) (l : Layout b pre xs free) where
  pub drop-reader : drop b.reader_index b.store ≡ xs ++ free
  drop-reader =
      ap (drop b.reader_index) l.store_eq
      ∙ drop-append_length b.reader_index pre (xs ++ free) l.reader_eq

  pub contents-Layout : contents b ≡ xs
  contents-Layout =
      ap (take (b.writer_index - b.reader_index)) drop-reader
      ∙ take-append_length (b.writer_index - b.reader_index) xs free (omega arith)

  pub Layout-length : length b.store ≡ length pre + length xs + length free
  Layout-length =
      omega (arith, ap length l.store_eq, length-append pre (xs ++ free), length-append xs free)

  pub Layout-IsValid :
      length pre + length xs + length free ≤ max_size
      → cheap_prepend ≤ length pre + length xs + length free
      → IsValid b
  Layout-IsValid h f = record {
    ordered = omega arith;
    inside = omega (arith, Layout-length);
    small = omega (arith, Layout-length);
    front = omega (arith, Layout-length);
  }

-- A copy to the end of the first part.
pub write_at-append :
    (i : ℕ) (ps ys qs : List ℕ)
    → i ≡ length ps
    → write_at i ys (ps ++ qs) ≡ ps ++ (ys ++ drop (length ys) qs)
unfolding write_at
write_at-append i ps ys qs e =
    ap (λ t. t ++ (ys ++ drop (i + length ys) (ps ++ qs))) (take-append_length i ps qs e)
    ∙ ap (λ t. ps ++ (ys ++ t))
        (ap (λ k. drop k (ps ++ qs)) e'
          ∙ sym (drop-drop (length ys) (length ps) (ps ++ qs))
          ∙ ap (drop (length ys)) (drop-append_length (length ps) ps qs refl))
  where
    e' : i + length ys ≡ length ps + length ys
    e' = omega arith
