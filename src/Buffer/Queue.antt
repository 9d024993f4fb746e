-- ===== src/Buffer/Queue.antt =====
-- The buffer of network/include/network/Buffer.h beside a plain queue of bytes, over any sequence of
-- `append`, `retrieve` and `retrieveAsString`.
use proto_rpc.Prelude.{
  ℕ, ◌+◌, ◌≤◌, ◌<◌, ◌≡◌, refl, ap, subst, ◌∙◌, Option, none, some, List, [], ◌∷◌, ◌++◌, arith, leb,
  if◌then◌else◌, length, take, drop, length-append, length-drop, max_size, ◌>>=◌, dec_le, le→leb,
  lt→leb,
}
use proto_rpc.Buffer.Space.{new_buffer_lem}
use proto_rpc.Buffer.{Buffer, new_buffer, append, retrieve, retrieve_as_string, cheap_prepend}
use proto_rpc.Buffer.View.{IsValid, contents, length-contents}
use proto_rpc.Buffer.Append.{Appends, append_lem}
use proto_rpc.Buffer.Read.{Takes, retrieve_lem, retrieve_as_string_lem}

pub data Op : Type 0 where
  put : List ℕ → Op
  take_out discard : ℕ → Op

abbrev pub Outcome : Type 0 → Type 0
Outcome S = Option (List (List ℕ) × S)

abbrev pub emit : {S : Type 0} → List ℕ → Outcome S → Outcome S
emit s r = r >>= λ p. some (s ∷ p.0, p.1)

-- The strings that a client gets, and the buffer at the end.
pub run : List Op → Buffer → Outcome Buffer
run [] b = some ([], b)
run (put bytes ∷ ops) b = append bytes b >>= λ b'. run ops b'
run (take_out n ∷ ops) b = retrieve_as_string n b >>= λ p. emit p.0 (run ops p.1)
run (discard n ∷ ops) b = retrieve n b >>= λ b'. run ops b'

-- The same on a list, from which no more can be taken than it has.
pub run_queue : List Op → List ℕ → Outcome (List ℕ)
run_queue [] q = some ([], q)
run_queue (put bytes ∷ ops) q = run_queue ops (q ++ bytes)
run_queue (take_out n ∷ ops) q =
    if leb n (length q) then emit (take n q) (run_queue ops (drop n q)) else none
run_queue (discard n ∷ ops) q = if leb n (length q) then run_queue ops (drop n q) else none

-- The bytes that the operations put in.
unfoldable pub put_size : List Op → ℕ
put_size [] = 0
put_size (put bytes ∷ ops) = length bytes + put_size ops
put_size (take_out n ∷ ops) = put_size ops
put_size (discard n ∷ ops) = put_size ops

abbrev pub seen : Outcome Buffer → Outcome (List ℕ)
seen r = r >>= λ p. some (p.0, contents p.1)

seen-emit : (s : List ℕ) (r : Outcome Buffer) → seen (emit s r) ≡ emit s (seen r)
seen-emit s none = refl
seen-emit s (some p) = refl

-- The buffer holds the queue, and no more than `size` bytes were put in so far.
record Holds (q : List ℕ) (size : ℕ) (b : Buffer) : Type 0 where
  valid : IsValid b
  same : contents b ≡ q
  writer : b.writer_index ≤ cheap_prepend + size
  short : length q ≤ size

append-Holds :
    (bytes q : List ℕ) (size : ℕ) (b b' : Buffer)
    → Holds q size b
    → Appends bytes b b'
    → Holds (q ++ bytes) (size + length bytes) b'
append-Holds bytes q size b b' h a = record {
  valid = a.valid;
  same = a.extended ∙ ap (λ t. t ++ bytes) h.same;
  writer = ground (
    arith,
    a.prependable,
    length-contents b h.valid,
    length-contents b' a.valid,
    ap length a.extended,
    ap length h.same,
    length-append (contents b) bytes,
    h.writer,
    h.short,
    a.valid.ordered,
    h.valid.ordered,
  );
  short = omega (arith, h.short, length-append q bytes);
}

retrieve-Holds :
    (n : ℕ) (q : List ℕ) (size : ℕ) (b b' : Buffer)
    → Holds q size b
    → Takes n b b'
    → Holds (drop n q) size b'
retrieve-Holds n q size b b' h t = record {
  valid = t.valid;
  same = t.rest ∙ ap (drop n) h.same;
  writer = ground (arith, t.writer, h.writer);
  short = omega (arith, h.short, length-drop n q);
}

-- No more can be retrieved than there is.
retrieve-short : (n : ℕ) (b : Buffer) → IsValid b → length (contents b) < n → retrieve n b ≡ none
unfolding retrieve
retrieve-short n b v h = ground (arith, length-contents b v)

retrieve_as_string-short :
    (n : ℕ) (b : Buffer) → IsValid b → length (contents b) < n → retrieve_as_string n b ≡ none
unfolding retrieve_as_string
retrieve_as_string-short n b v h = ground (arith, length-contents b v)

run_lem :
    (ops : List Op) (q : List ℕ) (size : ℕ) (b : Buffer)
    → Holds q size b
    → cheap_prepend + size + put_size ops ≤ max_size
    → seen (run ops b) ≡ run_queue ops q
unfolding run run_queue put_size
run_lem [] q size b h room = ap (λ t. some ([], t)) h.same
run_lem (put bytes ∷ ops) q size b h room =
    let (b', e, a) = append_lem bytes b h.valid (omega (arith, h.writer)) in
    rw e (
      run_lem ops (q ++ bytes) (size + length bytes) b' (append-Holds bytes q size b b' h a)
        (omega arith))
run_lem (discard n ∷ ops) q size b h room = elim (dec_le n (length q)) [
  | yes p ↦
      let (b', e, t) = retrieve_lem n b h.valid (omega (arith, ap length h.same)) in
      rw (e, le→leb n (length q) p)
        (run_lem ops (drop n q) size b' (retrieve-Holds n q size b b' h t) room)
  | no p ↦
      rw
        (
          retrieve-short n b h.valid (omega (arith, ap length h.same)),
          lt→leb n (length q) (omega arith),
        )
        refl
]
run_lem (take_out n ∷ ops) q size b h room = elim (dec_le n (length q)) [
  | yes p ↦
      let (b', e, t) = retrieve_as_string_lem n b h.valid (omega (arith, ap length h.same)) in
      rw (e, le→leb n (length q) p)
        (seen-emit (take n (contents b)) (run ops b')
          ∙ ap (λ s. emit (take n s) (seen (run ops b'))) h.same
          ∙ ap (emit (take n q))
              (run_lem ops (drop n q) size b' (retrieve-Holds n q size b b' h t) room))
  | no p ↦
      rw
        (
          retrieve_as_string-short n b h.valid (omega (arith, ap length h.same)),
          lt→leb n (length q) (omega arith),
        )
        refl
]

-- For a new buffer of any initial size that ends within the largest vector, and any sequence of
-- `append`, `retrieveAsString` and `retrieve` whose appended bytes do so in all, the strings
-- returned, the readable bytes at the end, and whether it aborts are those of a plain queue of
-- bytes, from which taking more than it has aborts.
pub run-run_queue :
    (ops : List Op) (size : ℕ) (b : Buffer)
    → new_buffer size ≡ some b
    → size + cheap_prepend ≤ max_size
    → cheap_prepend + put_size ops ≤ max_size
    → seen (run ops b) ≡ run_queue ops []
run-run_queue ops size b e fits room =
    let (b₀, e₀, v, empty, reader) = new_buffer_lem size fits in
    subst (λ c. seen (run ops c) ≡ run_queue ops []) (same e₀ e)
      (run_lem ops [] 0 b₀
        (record {
          valid = v;
          same = empty;
          writer = omega (arith, length-contents b₀ v, ap length empty, reader, v.ordered);
          short = omega arith;
        })
        room)
  where
    same : {o : Option Buffer} {c d : Buffer} → o ≡ some c → o ≡ some d → c ≡ d
    same p q = cc
