-- ===== src/Net/Buffer/Invariant.antt =====
-- The well-formedness of a buffer, src/net/tcp/buffer.cpp, and what its operations keep.
use plugins_engine.Prelude.{
  ℕ, ◌+◌, ◌-◌, ◌^◌, ◌≤◌, ◌<◌, ◌≡◌, List, ◌++◌, length, take, drop, replicate, arith, length-append,
  length-take, length-drop, length-replicate,
}
use plugins_engine.Net.Buffer.{
  Buffer, create, writable_bytes, readable_bytes, resize, ensure_writable_bytes, copy_to, append,
  clear_read_index, reset_index,
}

-- Indices in order and inside the storage, whose size fits `uint32_t`.
pub record IsValid (b : Buffer) : Type 0 where
  pub ordered : b.read_index ≤ b.write_index
  pub within : b.write_index ≤ length b.buffer
  pub small : length b.buffer < 2 ^ 32

pub readable_bytes_lem : {b : Buffer} → IsValid b → readable_bytes b ≡ b.write_index - b.read_index
unfolding readable_bytes
readable_bytes_lem v = omega arith

pub writable_bytes_lem :
    {b : Buffer} → IsValid b → writable_bytes b ≡ length b.buffer - b.write_index
unfolding writable_bytes
writable_bytes_lem v = omega arith

pub create-IsValid : (size : ℕ) → size < 2 ^ 32 → IsValid (create size)
unfolding create
create-IsValid size h = omega (arith, length-replicate {A = ℕ} size 0)

pub length-resize : (v : List ℕ) (n : ℕ) → length (resize v n) ≡ n
unfolding resize
length-resize v n = omega (
  arith,
  length-append (take n v) (replicate (n - length v) 0),
  length-take n v,
  length-replicate {A = ℕ} (n - length v) 0,
)

pub length-copy_to :
    (v src : List ℕ) (i : ℕ) → i + length src ≤ length v → length (copy_to v i src) ≡ length v
unfolding copy_to
length-copy_to v src i h = omega (
  arith,
  length-append (take i v) (src ++ drop (i + length src) v),
  length-append src (drop (i + length src) v),
  length-take i v,
  length-drop (i + length src) v,
)

-- Room is made, and nothing else changes.
pub record HasRoom (b : Buffer) (len : ℕ) (c : Buffer) : Type 0 where
  pub read_kept : c.read_index ≡ b.read_index
  pub write_kept : c.write_index ≡ b.write_index
  pub room : c.write_index + len ≤ length c.buffer
  pub bounded : length c.buffer < 2 ^ 32

pub ensure_writable_bytes-HasRoom :
    {b : Buffer} (len : ℕ)
    → IsValid b
    → b.write_index + len < 2 ^ 32
    → HasRoom b len (ensure_writable_bytes b len)
unfolding ensure_writable_bytes
ensure_writable_bytes-HasRoom {b} len v h =
    ground (arith, writable_bytes_lem v, length-resize b.buffer (b.write_index + len))

pub append-IsValid :
    {b : Buffer} (src : List ℕ)
    → IsValid b
    → b.write_index + length src < 2 ^ 32
    → IsValid (append b src)
unfolding append
append-IsValid {b} src v h = ground (
  arith,
  ensure_writable_bytes-HasRoom (length src) v h,
  length-copy_to (ensure_writable_bytes b (length src)).buffer src b.write_index,
)

pub clear_read_index-IsValid : {b : Buffer} (len : ℕ) → IsValid b → IsValid (clear_read_index b len)
unfolding clear_read_index reset_index
clear_read_index-IsValid len v = ground (arith, readable_bytes_lem v)
