-- ===== src/Net/Buffer/Queue.antt =====
-- A buffer as a queue of bytes: what a client of src/net/tcp/buffer.cpp sees of a run of calls.
use plugins_engine.Prelude.{
  ℕ, ◌+◌, ◌^◌, ◌≤◌, ◌<◌, ◌≡◌, refl, ap, ap₂, ◌∙◌, List, [], ◌∷◌, ◌++◌, length, take, drop, arith,
  take_of_length-le, drop_of_length-le,
}
use plugins_engine.Net.Buffer.{
  Buffer, readable_bytes, append, clear_read_index, read_bytes, read_as_string, read_all_as_byte,
  read_all_as_string, reset_index, clamp_len,
}
use plugins_engine.Net.Buffer.Invariant.{
  IsValid, ensure_writable_bytes-HasRoom, append-IsValid, clear_read_index-IsValid,
}
use plugins_engine.Net.Buffer.Content.{
  content, length-content, content-append, content-clear_read_index, read_bytes_lem,
}

pub data Op : Type 0 where
  put : List ℕ → Op
  discard get_bytes get_string : ℕ → Op
  get_all_bytes get_all_string : Op

-- A call: the bytes that it hands out, and the buffer after it.
pub call : Buffer → Op → List ℕ × Buffer
call b (put src) = ([], append b src)
call b (discard n) = ([], clear_read_index b n)
call b (get_bytes n) = let (bytes, count, after) = read_bytes b n in (bytes, after)
call b (get_string n) = let (bytes, count, after) = read_as_string b n in (bytes, after)
call b get_all_bytes = let (bytes, count, after) = read_all_as_byte b in (bytes, after)
call b get_all_string = let (bytes, count, after) = read_all_as_string b in (bytes, after)

-- The same calls on an unbounded queue.
pub serve : List ℕ → Op → List ℕ × List ℕ
serve q (put src) = ([], q ++ src)
serve q (discard n) = ([], drop n q)
serve q (get_bytes n) = (take n q, drop n q)
serve q (get_string n) = (take n q, drop n q)
serve q get_all_bytes = (q, [])
serve q get_all_string = (q, [])

pub run : Buffer → List Op → List (List ℕ)
run b [] = []
run b (op ∷ ops) = let (bytes, after) = call b op in bytes ∷ run after ops

pub run_queue : List ℕ → List Op → List (List ℕ)
run_queue q [] = []
run_queue q (op ∷ ops) = let (bytes, rest) = serve q op in bytes ∷ run_queue rest ops

-- The bytes that a call or a run of calls puts in.
abbrev pub put_size : Op → ℕ
put_size (put src) = length src
put_size (discard n) = 0
put_size _ = 0

abbrev pub total_put : List Op → ℕ
total_put [] = 0
total_put (op ∷ ops) = put_size op + total_put ops

-- One call does to the content what it does to the queue.
record Refines (b : Buffer) (op : Op) : Type 0 where
  output : (call b op).0 ≡ (serve (content b) op).0
  state : content (call b op).1 ≡ (serve (content b) op).1
  valid : IsValid (call b op).1
  room : (call b op).1.write_index ≤ b.write_index + put_size op

pub write_index-clear_read_index :
    (b : Buffer) (len : ℕ) → (clear_read_index b len).write_index ≤ b.write_index
unfolding clear_read_index reset_index
write_index-clear_read_index b len = ground arith

write_index-read_bytes : (b : Buffer) (len : ℕ) → (read_bytes b len).2.write_index ≤ b.write_index
unfolding read_bytes
write_index-read_bytes b len = write_index-clear_read_index b (clamp_len b len)

pub write_index-append :
    {b : Buffer} (src : List ℕ)
    → IsValid b
    → b.write_index + length src < 2 ^ 32
    → (append b src).write_index ≡ b.write_index + length src
unfolding append
write_index-append src v h = ground (arith, ensure_writable_bytes-HasRoom (length src) v h)

get_bytes-Refines : {b : Buffer} (n : ℕ) → IsValid b → Refines b (get_bytes n)
unfolding call serve
get_bytes-Refines {b} n v = ground (arith, read_bytes_lem n v, write_index-read_bytes b n)

get_all_bytes-Refines : {b : Buffer} → IsValid b → Refines b get_all_bytes
unfolding call serve read_all_as_byte
get_all_bytes-Refines {b} v = ground (
  arith,
  read_bytes_lem (readable_bytes b) v,
  write_index-read_bytes b (readable_bytes b),
  length-content v,
  take_of_length-le (readable_bytes b) (content b),
  drop_of_length-le (readable_bytes b) (content b),
)

call-Refines :
    {b : Buffer} (op : Op) → IsValid b → b.write_index + put_size op < 2 ^ 32 → Refines b op
unfolding call serve read_as_string read_bytes read_all_as_string read_all_as_byte
call-Refines (put src) v h = record {
  output = refl;
  state = content-append src v h;
  valid = append-IsValid src v h;
  room = omega (arith, write_index-append src v h);
}
call-Refines {b} (discard n) v h = record {
  output = refl;
  state = content-clear_read_index n v;
  valid = clear_read_index-IsValid n v;
  room = omega (arith, write_index-clear_read_index b n);
}
call-Refines (get_bytes n) v h = get_bytes-Refines n v
call-Refines {b} (get_string n) v h =
    let r : Refines b (get_bytes n) = get_bytes-Refines n v in
    record { output = r.output; state = r.state; valid = r.valid; room = r.room }
call-Refines get_all_bytes v h = get_all_bytes-Refines v
call-Refines {b} get_all_string v h =
    let r : Refines b get_all_bytes = get_all_bytes-Refines v in
    record { output = r.output; state = r.state; valid = r.valid; room = r.room }

-- A valid buffer answers every run of appends, discards and reads as an unbounded first-in
-- first-out queue of its content does, as long as the bytes appended keep `writeIndex` below 2^32.
pub run-eq-run_queue :
    (ops : List Op) {b : Buffer}
    → IsValid b
    → b.write_index + total_put ops < 2 ^ 32
    → run b ops ≡ run_queue (content b) ops
unfolding run run_queue
run-eq-run_queue [] v h = refl
run-eq-run_queue (op ∷ ops) {b} v h =
    let r : Refines b op = call-Refines op v (omega arith) in
    let rest : run (call b op).1 ops ≡ run_queue (content (call b op).1) ops =
      run-eq-run_queue ops r.valid (omega (arith, r.room)) in
    ap₂ ◌∷◌ r.output (rest ∙ ap (λ q. run_queue q ops) r.state)
