-- ===== src/Net/Buffer/Content.antt =====
-- The bytes that a buffer holds, and what each operation does to them (src/net/tcp/buffer.cpp).
use plugins_engine.Prelude.{
  ℕ, ==_iff, true, ◌+◌, ◌-◌, ◌^◌, ◌≤◌, ◌<◌, ◌≡◌, refl, sym, ap, ◌∙◌, List, [], ◌∷◌, ◌++◌, length,
  take, drop, replicate, min, arith, length-append, length-take, length-drop, some, none,
  append_assoc, take-append_le, drop-append_le, take-append_length, drop-drop, take-drop-take,
  take_of_length-le, drop_of_length-le, take-append-drop, to_u32,
}
use native.Mathlib.Decide.{dec_le}
use plugins_engine.Net.Buffer.{
  Buffer, is_empty, ReadOutcome, Readv, ReadvResult, failed, received, writable_bytes,
  readable_bytes, resize, ensure_writable_bytes, copy_to, append, iov_lens, extrabuf_size, scatter,
  stored, finish_read, read_from_io, clear_read_index, reset_index, peek, clamp_len, read_bytes,
}
use plugins_engine.Net.Buffer.Invariant.{
  IsValid, readable_bytes_lem, writable_bytes_lem, length-copy_to, ensure_writable_bytes-HasRoom,
  append-IsValid, clear_read_index-IsValid,
}

-- The bytes between the two indices, oldest first.
abbrev pub content : Buffer → List ℕ
content b = drop b.read_index (take b.write_index b.buffer)

pub length-content : {b : Buffer} → IsValid b → length (content b) ≡ readable_bytes b
length-content {b} v = omega (
  arith,
  readable_bytes_lem v,
  length-drop b.read_index (take b.write_index b.buffer),
  length-take b.write_index b.buffer,
)

take-copy_to :
    (v src : List ℕ) (i n : ℕ)
    → i ≤ length v
    → n ≡ i + length src
    → take n (copy_to v i src) ≡ take i v ++ src
unfolding copy_to
take-copy_to v src i n h e =
    ap (take n) (sym (append_assoc (take i v) src (drop (i + length src) v)))
    ∙ take-append_length (take i v ++ src) (drop (i + length src) v) n
        (omega (arith, length-append (take i v) src, length-take i v))

take-ensure_writable_bytes :
    {b : Buffer} (len : ℕ)
    → IsValid b
    → take b.write_index (ensure_writable_bytes b len).buffer ≡ take b.write_index b.buffer
unfolding ensure_writable_bytes resize
take-ensure_writable_bytes {b} len v = ground (
  arith,
  take-append_le b.write_index b.buffer (replicate (b.write_index + len - length b.buffer) 0),
  writable_bytes_lem v,
  take_of_length-le (b.write_index + len) b.buffer,
)

-- `append` puts the bytes behind those held before.
pub content-append :
    {b : Buffer} (src : List ℕ)
    → IsValid b
    → b.write_index + length src < 2 ^ 32
    → content (append b src) ≡ content b ++ src
unfolding append
content-append {b} src v h = ground (
  arith,
  ensure_writable_bytes-HasRoom (length src) v h,
  take-copy_to (ensure_writable_bytes b (length src)).buffer src b.write_index
      (b.write_index + length src),
  take-ensure_writable_bytes (length src) v,
  drop-append_le b.read_index (take b.write_index b.buffer) src,
  length-take b.write_index b.buffer,
)

-- What a kernel may store: no more than the areas hold.
abbrev pub sum : List ℕ → ℕ
sum [] = 0
sum (n ∷ ns) = n + sum ns

abbrev pub Fits : Readv → Type 0
Fits readv = (lens : List ℕ) (got : List ℕ) → readv lens ≡ received got → length got ≤ sum lens

take-scatter :
    {b : Buffer} (got : List ℕ)
    → IsValid b
    → take (b.write_index + min (writable_bytes b) (length got)) (scatter b got).buffer
      ≡ take b.write_index b.buffer ++ take (writable_bytes b) got
unfolding scatter
take-scatter {b} got v = ground (
  arith,
  take-copy_to b.buffer (take (writable_bytes b) got) b.write_index
      (b.write_index + min (writable_bytes b) (length got)),
  length-take (writable_bytes b) got,
)

length-scatter :
    {b : Buffer} (got : List ℕ) → IsValid b → length (scatter b got).buffer ≡ length b.buffer
unfolding scatter
length-scatter {b} got v = omega (
  arith,
  length-copy_to b.buffer (take (writable_bytes b) got) b.write_index,
  length-take (writable_bytes b) got,
  writable_bytes_lem v,
)

-- Everything received went to the writable part.
stored_short :
    {b : Buffer} (got : List ℕ)
    → IsValid b
    → length got ≤ writable_bytes b
    → IsValid (stored b got) × (content (stored b got) ≡ content b ++ got)
unfolding stored scatter
stored_short {b} got v h = ground (
  arith,
  writable_bytes_lem v,
  take-scatter got v,
  length-scatter got v,
  take_of_length-le (writable_bytes b) got,
  drop-append_le b.read_index (take b.write_index b.buffer) got,
  length-take b.write_index b.buffer,
)

-- The buffer between the scattered read and the call of `append`.
abbrev filled_up : Buffer → List ℕ → Buffer
filled_up b got = record (scatter b got) { write_index = to_u32 (length (scatter b got).buffer) }

filled_up_lem :
    {b : Buffer} (got : List ℕ)
    → IsValid b
    → writable_bytes b < length got
    → IsValid (filled_up b got)
      × (content (filled_up b got) ≡ content b ++ take (writable_bytes b) got)
      × ((filled_up b got).write_index ≡ length b.buffer)
unfolding scatter
filled_up_lem {b} got v h = ground (
  arith,
  writable_bytes_lem v,
  take-scatter got v,
  length-scatter got v,
  drop-append_le b.read_index (take b.write_index b.buffer) (take (writable_bytes b) got),
  length-take b.write_index b.buffer,
)

-- The writable part was filled, and the rest came through the stack buffer.
stored_long :
    {b : Buffer} (got : List ℕ)
    → IsValid b
    → b.write_index + length got < 2 ^ 32
    → writable_bytes b < length got
    → IsValid (stored b got) × (content (stored b got) ≡ content b ++ got)
unfolding stored
stored_long {b} got v small h = ground (
  arith,
  writable_bytes_lem v,
  filled_up_lem got v h,
  length-drop (writable_bytes b) got,
  append-IsValid {b = filled_up b got} (drop (writable_bytes b) got),
  content-append {b = filled_up b got} (drop (writable_bytes b) got),
  append_assoc (content b) (take (writable_bytes b) got) (drop (writable_bytes b) got),
  take-append-drop (writable_bytes b) got,
)

pub stored_lem :
    {b : Buffer} (got : List ℕ)
    → IsValid b
    → b.write_index + length got < 2 ^ 32
    → IsValid (stored b got) × (content (stored b got) ≡ content b ++ got)
stored_lem {b} got v small = elim (dec_le (length got) (writable_bytes b)) [
  | yes short ↦ stored_short got v short
  | no long ↦ stored_long got v small (omega arith)
]

-- The outcome of a read, by what `readv` returned.
abbrev pub Delivers : Buffer → ReadvResult → ReadOutcome → Type 0
Delivers b (failed e) o = (o.after ≡ b) × (o.count ≡ none) × (o.error_no ≡ some e)
Delivers b (received got) o =
    IsValid o.after
    × (content o.after ≡ content b ++ got)
    × (o.count ≡ some (length got))
    × (o.error_no ≡ none)

finish_read-Delivers :
    {b : Buffer} (r : ReadvResult)
    → IsValid b
    → length b.buffer + extrabuf_size < 2 ^ 32
    → ((got : List ℕ) → r ≡ received got → length got ≤ sum (iov_lens b))
    → Delivers b r (finish_read b r)
unfolding finish_read iov_lens
finish_read-Delivers (failed e) v small fits = (refl, refl, refl)
finish_read-Delivers {b} (received got) v small fits =
    let bound = fits got refl in
    let result : IsValid (stored b got) × (content (stored b got) ≡ content b ++ got) =
      stored_lem got v (ground (arith, writable_bytes_lem v, bound)) in
    (result.0, result.1, refl, refl)

-- On a valid buffer that leaves room for the stack buffer below 2^32, and with a kernel that
-- stores no more than the areas hold: a failed `readv` changes nothing and passes `errno` on;
-- otherwise every byte received, through whichever area, ends up behind the content, in order,
-- the count is returned, and the buffer stays valid.
pub read_from_io-Delivers :
    (readv : Readv) {b : Buffer}
    → Fits readv
    → IsValid b
    → length b.buffer + extrabuf_size < 2 ^ 32
    → Delivers b (readv (iov_lens b)) (read_from_io readv b)
unfolding read_from_io
read_from_io-Delivers readv {b} fits v small =
    finish_read-Delivers (readv (iov_lens b)) v small (fits (iov_lens b))

pub is_empty-content : {b : Buffer} → IsValid b → is_empty b ≡ true → content b ≡ []
unfolding is_empty
is_empty-content {b} v h = ground (
  arith,
  ==_iff b.read_index b.write_index,
  drop_of_length-le b.read_index (take b.write_index b.buffer),
  length-take b.write_index b.buffer,
)

pub content-clear_read_index :
    {b : Buffer} (len : ℕ) → IsValid b → content (clear_read_index b len) ≡ drop len (content b)
unfolding clear_read_index reset_index
content-clear_read_index {b} len v = ground (
  arith,
  readable_bytes_lem v,
  length-content v,
  drop_of_length-le len (content b),
  drop-drop len b.read_index (b.read_index + len) (take b.write_index b.buffer),
)

clamp_len_lem : (b : Buffer) (len : ℕ) → clamp_len b len ≡ min len (readable_bytes b)
unfolding clamp_len
clamp_len_lem b len = ground arith

pub peek_lem :
    {b : Buffer} (len : ℕ) → IsValid b → len ≤ readable_bytes b → peek b len ≡ take len (content b)
unfolding peek
peek_lem {b} len v h =
    sym
      (take-drop-take len b.read_index b.write_index b.buffer (omega (arith, readable_bytes_lem v)))

take-min : (l : List ℕ) (n k : ℕ) → k ≡ length l → take (min n k) l ≡ take n l
take-min l n k e = ground (arith, take_of_length-le n l, take_of_length-le k l)

drop-min : (l : List ℕ) (n k : ℕ) → k ≡ length l → drop (min n k) l ≡ drop n l
drop-min l n k e = ground (arith, drop_of_length-le n l, drop_of_length-le k l)

-- A read hands out the oldest `len` bytes, or all if there are fewer, returns their number, leaves
-- the rest as the content, and keeps the buffer valid.
pub read_bytes_lem :
    {b : Buffer} (len : ℕ)
    → IsValid b
    → let (bytes, n, after) = read_bytes b len in
      (bytes ≡ take len (content b))
      × (n ≡ min len (readable_bytes b))
      × (content after ≡ drop len (content b))
      × IsValid after
unfolding read_bytes
read_bytes_lem {b} len v = ground (
  arith,
  clamp_len_lem b len,
  peek_lem (clamp_len b len) v,
  content-clear_read_index (clamp_len b len) v,
  clear_read_index-IsValid (clamp_len b len) v,
  take-min (content b) len (readable_bytes b),
  drop-min (content b) len (readable_bytes b),
  length-content v,
)
