-- ===== src/Net/Buffer.antt =====
-- src/net/tcp/buffer.cpp and include/private/net/tcp/buffer.hpp, class Buffer.
-- A byte is a number; a pointer into the storage is its offset from `buffer.data()`. The two
-- indices are `uint32_t`, `buffer.size()` is `size_t`.
pub mod Invariant
pub mod Content
pub mod Queue
pub mod Crlf
pub mod Tests
use plugins_engine.Prelude.{
  ℕ, zero, suc, ◌+◌, ◌-◌, ◌%◌, ◌^◌, Bool, true, false, ◌&&◌, ◌||◌, Option, none, some, List, [],
  ◌∷◌, ◌++◌, length, take, drop, replicate, ltb, leb, ◌==◌, if◌then◌else◌, to_u32, sub_u32,
}

pub record Buffer : Type 0 where
  pub read_index : ℕ
  pub write_index : ℕ
  pub buffer : List ℕ

abbrev pub init_size : ℕ
init_size = 1024

-- The constructor: `size` zero bytes.
unfoldable pub create : ℕ → Buffer
create size = record { read_index = 0; write_index = 0; buffer = replicate size 0 }

pub is_readable : Buffer → Bool
is_readable b = ltb b.read_index b.write_index

unfoldable pub is_empty : Buffer → Bool
is_empty b = b.read_index == b.write_index

-- `buffer.size() - writeIndex` in `size_t`, returned as `uint32_t`.
pub writable_bytes : Buffer → ℕ
writable_bytes b = to_u32 ((length b.buffer + 2 ^ 64 - b.write_index) % 2 ^ 64)

pub readable_bytes : Buffer → ℕ
readable_bytes b = sub_u32 b.write_index b.read_index

pub reset_index : Buffer → Buffer
reset_index b = record b { read_index = 0; write_index = 0 }

-- `std::vector<uint8_t>::resize`: cut, or filled up with zeros.
pub resize : List ℕ → ℕ → List ℕ
resize v n = take n v ++ replicate (n - length v) 0

pub ensure_writable_bytes : Buffer → ℕ → Buffer
ensure_writable_bytes b len =
    if ltb (writable_bytes b) len
    then record b { buffer = resize b.buffer (b.write_index + len) }
    else b

-- `std::copy` of `src` to position `i`; in range where `i + src.size()` is at most the length.
pub copy_to : List ℕ → ℕ → List ℕ → List ℕ
copy_to v i src = take i v ++ (src ++ drop (i + length src) v)

-- `append` of the `len = length src` bytes at `data`; `writeIndex += len` wraps.
pub append : Buffer → List ℕ → Buffer
append b src = record grown {
  buffer = copy_to grown.buffer grown.write_index src;
  write_index = to_u32 (grown.write_index + length src);
}
  where
    grown : Buffer
    grown = ensure_writable_bytes b (length src)

-- What `readv` returns: -1 with `errno`, or the bytes that it has stored, in order.
pub data ReadvResult : Type 0 where
  failed : ℕ → ReadvResult
  received : List ℕ → ReadvResult

-- `readv` of the kernel, given the lengths of the areas that it may fill.
abbrev pub Readv : Type 0
Readv = List ℕ → ReadvResult

abbrev pub extrabuf_size : ℕ
extrabuf_size = 65536

-- The areas handed to `readv`: the writable part, and the stack buffer if that part is smaller.
pub iov_lens : Buffer → List ℕ
iov_lens b =
    if ltb (writable_bytes b) extrabuf_size
    then writable_bytes b ∷ extrabuf_size ∷ []
    else writable_bytes b ∷ []

-- The bytes that `readv` stores in the writable part, before the indices change.
scatter : Buffer → List ℕ → Buffer
scatter b got = record b { buffer = copy_to b.buffer b.write_index (take (writable_bytes b) got) }

-- The result is the return value (`none` for a negative one) and `errorNo` where it is written.
pub record ReadOutcome : Type 0 where
  pub after : Buffer
  pub count : Option ℕ
  pub error_no : Option ℕ

pub stored : Buffer → List ℕ → Buffer
stored b got =
    if leb (to_u32 (length got)) (writable_bytes b)
    then record filled { write_index = to_u32 (filled.write_index + length got) }
    else append (record filled { write_index = to_u32 (length filled.buffer) })
        (drop (writable_bytes b) got)
  where
    filled : Buffer
    filled = scatter b got

-- The number of bytes is below 2^31, as the kernel documents, so that its conversion to `int` keeps
-- it.
pub finish_read : Buffer → ReadvResult → ReadOutcome
finish_read b (failed e) = record { after = b; count = none; error_no = some e }
finish_read b (received got) = record {
  after = stored b got;
  count = some (length got);
  error_no = none;
}

pub read_from_io : Readv → Buffer → ReadOutcome
read_from_io readv b = finish_read b (readv (iov_lens b))

pub clear_read_index : Buffer → ℕ → Buffer
clear_read_index b len =
    if ltb len (readable_bytes b)
    then record b { read_index = to_u32 (b.read_index + len) }
    else reset_index b

-- `len` bytes from `readIndexPtr()`, the indices left alone.
pub peek : Buffer → ℕ → List ℕ
peek b len = take len (drop b.read_index b.buffer)

pub clamp_len : Buffer → ℕ → ℕ
clamp_len b len = if ltb (readable_bytes b) len then readable_bytes b else len

-- `readAsString` and `readBytes` differ in the type of the copy alone: the bytes, their number,
-- and the buffer after the read.
pub read_bytes : Buffer → ℕ → List ℕ × ℕ × Buffer
read_bytes b len = (peek b (clamp_len b len), clamp_len b len, clear_read_index b (clamp_len b len))

pub read_as_string : Buffer → ℕ → List ℕ × ℕ × Buffer
read_as_string b len =
    (peek b (clamp_len b len), clamp_len b len, clear_read_index b (clamp_len b len))

pub read_all_as_byte : Buffer → List ℕ × ℕ × Buffer
read_all_as_byte b = read_bytes b (readable_bytes b)

pub read_all_as_string : Buffer → List ℕ × ℕ × Buffer
read_all_as_string b = read_as_string b (readable_bytes b)

-- The members of both buffers are exchanged.
pub swap : Buffer → Buffer → Buffer × Buffer
swap b rhs = (
  record b { buffer = rhs.buffer; read_index = rhs.read_index; write_index = rhs.write_index },
  record rhs { buffer = b.buffer; read_index = b.read_index; write_index = b.write_index },
)

starts_with_crlf : List ℕ → Bool
starts_with_crlf (a ∷ c ∷ rest) = a == 13 && c == 10
starts_with_crlf _ = false

-- `std::search` for "\r\n": the offset of the first match from `at` on.
search_crlf : ℕ → List ℕ → Option ℕ
search_crlf at [] = none
search_crlf at (a ∷ rest) =
    let later = search_crlf (at + 1) rest in if starts_with_crlf (a ∷ rest) then some at else later

-- The pointer to the first "\r\n" among the readable bytes.
pub find_crlf : Buffer → Option ℕ
find_crlf b = search_crlf b.read_index (drop b.read_index (take b.write_index b.buffer))

pub retrieve_until : Buffer → ℕ → Buffer
retrieve_until b end =
    if ltb end b.read_index || ltb b.write_index end
    then b
    else clear_read_index b (to_u32 (end - b.read_index))
