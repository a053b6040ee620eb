-- ===== src/Net/TcpConnect/Order.antt =====
-- Any sequence of calls of src/net/tcp/tcpConnect.cpp, and the bytes that it sends and keeps.
use plugins_engine.Prelude.{
  ℕ, ◌+◌, ◌<◌, ◌≤◌, ◌^◌, ◌≡◌, sym, ap, ◌∙◌, Bool, true, false, List, [], ◌∷◌, ◌++◌, length, arith,
  Bool-cases, inl, inr, append_assoc, append-nil,
}
use plugins_engine.Net.Buffer.Invariant.{IsValid}
use plugins_engine.Net.TcpConnect.{
  TcpConnect, ConnectState, disconnected, WriteResult, refused, took, is_fault, Call, readable,
  writable, failing, closed, writes, shuts_down, connects, step, run,
}
use plugins_engine.Net.TcpConnect.Sending.{
  Adds, stream, taken_directly, taken_in, new_data, data_length, step-Adds, all_data, total_length,
}

length-taken_directly :
    (r : WriteResult) (bytes : List ℕ) → length (taken_directly r bytes) ≤ length bytes
unfolding taken_directly
length-taken_directly (took n e) bytes = omega arith
length-taken_directly (refused e) bytes = elim (Bool-cases (is_fault e)) [
  | inl p ↦ rw p (omega arith)
  | inr p ↦ rw p (omega arith)
]

length-taken_in :
    (s : ConnectState) (direct : Bool) (r : WriteResult) (bytes : List ℕ)
    → length (taken_in s direct r bytes) ≤ length bytes
unfolding taken_in
length-taken_in disconnected direct r bytes = omega arith
length-taken_in _ true r bytes = length-taken_directly r bytes
length-taken_in _ false r bytes = omega arith

length-new_data : (call : Call) (c : TcpConnect) → length (new_data call c) ≤ data_length call
length-new_data (writes kernel bytes) c = length-taken_in c.state _ (kernel bytes) bytes
length-new_data (readable readv) c = omega arith
length-new_data (writable kernel) c = omega arith
length-new_data failing c = omega arith
length-new_data closed c = omega arith
length-new_data shuts_down c = omega arith
length-new_data connects c = omega arith

-- Whatever is called in whatever order, and whatever part of the data the kernel takes each time,
-- the bytes sent and those that wait in the write buffer are together those from before and then
-- the data of every write, in order: nothing is lost, repeated or reordered, but for a write to a
-- closed connection and one that the kernel refuses at once with EPIPE, ECONNRESET, ENOTCONN or
-- EINVAL, of which nothing is sent or kept. The total handed over stays below what keeps
-- writeIndex below 2^32.
pub run-stream :
    (calls : List Call) (c : TcpConnect)
    → IsValid c.write_buf
    → c.write_buf.write_index + total_length calls < 2 ^ 32
    → stream (run calls c) ≡ stream c ++ all_data calls c
unfolding run
run-stream [] c v h = sym (append-nil (stream c))
run-stream (call ∷ calls) c v h =
    let a : Adds (new_data call c) c (step call c) = step-Adds call c v (omega arith) in
    run-stream calls (step call c) a.valid (omega (arith, a.room, length-new_data call c))
    ∙ ap (λ l. l ++ all_data calls (step call c)) a.order
    ∙ append_assoc (stream c) (new_data call c) (all_data calls (step call c))
