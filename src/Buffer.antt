-- ===== src/Buffer.antt =====
-- network/include/network/Buffer.h and network/src/Buffer.cc: the byte buffer of a connection.
-- A method that the source declares `void` returns the new buffer, a reader its result beside it;
-- `none` is a failed `assert` or an exception of `std::vector`. A pointer into the buffer stands
-- for the bytes from there on. A byte is a number, and an `intN_t` its bit pattern below 2 ^ N.
pub mod View
pub mod Space
pub mod Append
pub mod Read
pub mod Queue
use proto_rpc.Prelude.{
  ℕ, ◌+◌, ◌-◌, ◌*◌, Option, none, some, List, [], ◌++◌, ltb, leb, ◌==◌, if◌then◌else◌, length, take,
  drop, replicate, ◌>>=◌, ◌>>◌, assert, add_size, sub_size, max_size, ℤ, pos, negsuc,
}
use proto_rpc.Endian.{host_to_network, network_to_host}

abbrev pub cheap_prepend : ℕ
cheap_prepend = 8

abbrev pub initial_size : ℕ
initial_size = 1024 * 4

pub record Buffer : Type 0 where
  pub store : List ℕ
  pub reader_index : ℕ
  pub writer_index : ℕ

abbrev pub readable_bytes : Buffer → ℕ
readable_bytes b = sub_size b.writer_index b.reader_index

abbrev pub writable_bytes : Buffer → ℕ
writable_bytes b = sub_size (length b.store) b.writer_index

abbrev pub prependable_bytes : Buffer → ℕ
prependable_bytes b = b.reader_index

abbrev pub peek : Buffer → List ℕ
peek b = drop b.reader_index b.store

-- `std::vector::resize`: new elements are zero.
unfoldable pub resize : ℕ → List ℕ → Option (List ℕ)
resize n xs = if leb n max_size then some (take n xs ++ replicate (n - length xs) 0) else none

-- `std::copy` of `ys` to index `i`.
pub write_at : ℕ → List ℕ → List ℕ → List ℕ
write_at i ys xs = take i xs ++ (ys ++ drop (i + length ys) xs)

unfoldable pub new_buffer : ℕ → Option Buffer
new_buffer size = do
  store ← resize (add_size cheap_prepend size) []
  let b : Buffer = record {
    store = store;
    reader_index = cheap_prepend;
    writer_index = cheap_prepend;
  }
  assert (readable_bytes b == 0)
  assert (writable_bytes b == size)
  assert (prependable_bytes b == cheap_prepend)
  some b

pub retrieve_all : Buffer → Buffer
retrieve_all b = record b { reader_index = cheap_prepend; writer_index = cheap_prepend }

pub retrieve : ℕ → Buffer → Option Buffer
retrieve len b = do
  assert (leb len (readable_bytes b))
  some (
      if ltb len (readable_bytes b)
      then record b { reader_index = add_size b.reader_index len }
      else retrieve_all b)

pub retrieve_as_string : ℕ → Buffer → Option (List ℕ × Buffer)
retrieve_as_string len b = do
  assert (leb len (readable_bytes b))
  let result = take len (peek b)
  b' ← retrieve len b
  some (result, b')

pub retrieve_all_as_string : Buffer → Option (List ℕ × Buffer)
retrieve_all_as_string b = retrieve_as_string (readable_bytes b) b

pub make_space : ℕ → Buffer → Option Buffer
make_space len b =
    if ltb (add_size (writable_bytes b) (prependable_bytes b)) (add_size len cheap_prepend)
    then (do
      store ← resize (add_size b.writer_index len) b.store
      some (record b { store = store }))
    else (do
      assert (ltb cheap_prepend b.reader_index)
      let readable = readable_bytes b
      let moved = record b {
        store = write_at cheap_prepend (take readable (peek b)) b.store;
        reader_index = cheap_prepend;
        writer_index = add_size cheap_prepend readable;
      }
      assert (readable == readable_bytes moved)
      some moved)

pub ensure_writable_bytes : ℕ → Buffer → Option Buffer
ensure_writable_bytes len b = do
  b' ← if ltb (writable_bytes b) len then make_space len b else some b
  assert (leb len (writable_bytes b'))
  some b'

pub has_written : ℕ → Buffer → Option Buffer
has_written len b = do
  assert (leb len (writable_bytes b))
  some (record b { writer_index = add_size b.writer_index len })

pub unwrite : ℕ → Buffer → Option Buffer
unwrite len b = do
  assert (leb len (readable_bytes b))
  some (record b { writer_index = sub_size b.writer_index len })

-- A copy to `beginWrite()`.
pub write_end : List ℕ → Buffer → Buffer
write_end bytes b = record b { store = write_at b.writer_index bytes b.store }

pub append : List ℕ → Buffer → Option Buffer
append bytes b = do
  b' ← ensure_writable_bytes (length bytes) b
  has_written (length bytes) (write_end bytes b')

pub prepend : List ℕ → Buffer → Option Buffer
prepend bytes b = do
  assert (leb (length bytes) (prependable_bytes b))
  let r = sub_size b.reader_index (length bytes)
  some (record b { store = write_at r bytes b.store; reader_index = r })

-- `peekIntN` and `readIntN` for a word of k bytes.
pub peek_word : ℕ → Buffer → Option ℕ
peek_word k b = do assert (leb k (readable_bytes b)); some (network_to_host (take k (peek b)))

pub read_word : ℕ → Buffer → Option (ℕ × Buffer)
read_word k b = do result ← peek_word k b; b' ← retrieve k b; some (result, b')

pub append_int64 : ℕ → Buffer → Option Buffer
append_int64 x b = append (host_to_network 8 x) b

pub peek_int64 : Buffer → Option ℕ
peek_int64 b = peek_word 8 b

pub retrieve_int64 : Buffer → Option Buffer
retrieve_int64 b = retrieve 8 b

pub read_int64 : Buffer → Option (ℕ × Buffer)
read_int64 b = read_word 8 b

pub prepend_int64 : ℕ → Buffer → Option Buffer
prepend_int64 x b = prepend (host_to_network 8 x) b

pub append_int32 : ℕ → Buffer → Option Buffer
append_int32 x b = append (host_to_network 4 x) b

pub peek_int32 : Buffer → Option ℕ
peek_int32 b = peek_word 4 b

pub retrieve_int32 : Buffer → Option Buffer
retrieve_int32 b = retrieve 4 b

pub read_int32 : Buffer → Option (ℕ × Buffer)
read_int32 b = read_word 4 b

pub prepend_int32 : ℕ → Buffer → Option Buffer
prepend_int32 x b = prepend (host_to_network 4 x) b

pub append_int16 : ℕ → Buffer → Option Buffer
append_int16 x b = append (host_to_network 2 x) b

pub peek_int16 : Buffer → Option ℕ
peek_int16 b = peek_word 2 b

pub retrieve_int16 : Buffer → Option Buffer
retrieve_int16 b = retrieve 2 b

pub read_int16 : Buffer → Option (ℕ × Buffer)
read_int16 b = read_word 2 b

pub prepend_int16 : ℕ → Buffer → Option Buffer
prepend_int16 x b = prepend (host_to_network 2 x) b

pub append_int8 : ℕ → Buffer → Option Buffer
append_int8 x b = append (host_to_network 1 x) b

pub peek_int8 : Buffer → Option ℕ
peek_int8 b = peek_word 1 b

pub retrieve_int8 : Buffer → Option Buffer
retrieve_int8 b = retrieve 1 b

pub read_int8 : Buffer → Option (ℕ × Buffer)
read_int8 b = read_word 1 b

pub prepend_int8 : ℕ → Buffer → Option Buffer
prepend_int8 x b = prepend (host_to_network 1 x) b

-- What `readv` answers: the bytes that it delivered, or the errno of a failure.
pub data ReadResult : Type 0 where
  got : List ℕ → ReadResult
  failed : ℕ → ReadResult

abbrev pub extra_size : ℕ
extra_size = 1024 * 1024

-- The room that the one or two `iovec`s of the call offer.
abbrev pub iov_room : Buffer → ℕ
iov_room b =
    if ltb (writable_bytes b) extra_size then writable_bytes b + extra_size else writable_bytes b

-- `readv` fills the writable part first, then `extrabuf`, past whose end no byte may be read. The
-- results are the buffer, `n` and
-- `*savedErrno`.
unfoldable pub read_fd : ReadResult → ℕ → Buffer → Option (Buffer × ℤ × ℕ)
read_fd (failed errno) saved_errno b = some (b, negsuc 0, errno)
read_fd (got bytes) saved_errno b =
    let n = length bytes in
    let writable = writable_bytes b in
    let filled = write_end (take writable bytes) b in
    if leb n writable
    then some (record filled { writer_index = add_size b.writer_index n }, pos n, saved_errno)
    else (do
      assert (leb (n - writable) extra_size)
      b' ← append (drop writable bytes) (record filled { writer_index = length filled.store })
      some (b', pos n, saved_errno))
