-- ===== src/Net/TcpConnect/InLoop/Order.antt =====
-- What `writeInLoop` of src/net/tcp/tcpConnect.cpp makes of writes from other threads.
use plugins_engine.Prelude.{
  ℕ, zero, suc, ◌+◌, ◌≤◌, ◌<◌, ◌^◌, ◌≡◌, refl, sym, ap, ◌∙◌, subst, true, List, [], ◌∷◌, ◌++◌, take,
  length, append-nil, arith,
}
use plugins_engine.Events.Epoll.{Epoll}
use plugins_engine.Events.EventLoop.{Request, call_function}
use plugins_engine.Events.EventLoop
use plugins_engine.Events.EventLoop.Turns.{Has, Ended, handed_over, all_handed_over, run-CallsAll}
use plugins_engine.Events.EventLoop.Keeping.{run_keeps}
use plugins_engine.Net.TcpConnect.{
  TcpConnect, Call, readable, writable, failing, closed, writes, shuts_down, connects, step, run,
  write,
}
use plugins_engine.Net.Buffer.Invariant.{IsValid}
use plugins_engine.Net.TcpConnect.Sending.{stream, all_data, total_length}
use plugins_engine.Net.TcpConnect.Order.{run-stream}
use plugins_engine.Net.TcpConnect.InLoop.{Handed, ConnectLoop, write_handed}

-- The writes among calls.
abbrev pub writes_of : List Call → List Handed
writes_of [] = []
writes_of (writes kernel bytes ∷ calls) = (kernel, bytes) ∷ writes_of calls
writes_of (readable readv ∷ calls) = writes_of calls
writes_of (writable kernel ∷ calls) = writes_of calls
writes_of (failing ∷ calls) = writes_of calls
writes_of (closed ∷ calls) = writes_of calls
writes_of (shuts_down ∷ calls) = writes_of calls
writes_of (connects ∷ calls) = writes_of calls

writes_of-append : (a b : List Call) → writes_of (a ++ b) ≡ writes_of a ++ writes_of b
writes_of-append [] b = refl
writes_of-append (writes kernel bytes ∷ a) b = ap (λ w. (kernel, bytes) ∷ w) (writes_of-append a b)
writes_of-append (readable readv ∷ a) b = writes_of-append a b
writes_of-append (writable kernel ∷ a) b = writes_of-append a b
writes_of-append (failing ∷ a) b = writes_of-append a b
writes_of-append (closed ∷ a) b = writes_of-append a b
writes_of-append (shuts_down ∷ a) b = writes_of-append a b
writes_of-append (connects ∷ a) b = writes_of-append a b

run-append : (a b : List Call) (c : TcpConnect) → run (a ++ b) c ≡ run b (run a c)
unfolding run
run-append [] b c = refl
run-append (call ∷ a) b c = run-append a b (step call c)

-- What the connection is behind calls that make these writes.
abbrev pub Sent : TcpConnect → List Handed → TcpConnect → Type 0
Sent start handed c = (calls : List Call) × (c ≡ run calls start) × (writes_of calls ≡ handed)

then-Sent :
    (start c d : TcpConnect) (a b : List Handed)
    → Sent start a c
    → Sent c b d
    → Sent start (a ++ b) d
then-Sent start c d a b (before, is, are) (after, become, make) = (
  before ++ after,
  become ∙ ap (run after) is ∙ sym (run-append before after start),
  writes_of-append before after ∙ ap (λ w. w ++ writes_of after) are ∙ ap (λ w. a ++ w) make,
)

-- How many bytes are handed over.
abbrev pub bytes_of : List Handed → ℕ
bytes_of [] = 0
bytes_of ((kernel, bytes) ∷ handed) = length bytes + bytes_of handed

bytes_of-append : (a b : List Handed) → bytes_of (a ++ b) ≡ bytes_of a + bytes_of b
bytes_of-append [] b = omega arith
bytes_of-append ((kernel, bytes) ∷ a) b = omega (arith, bytes_of-append a b)

total_length-eq-bytes_of : (calls : List Call) → total_length calls ≡ bytes_of (writes_of calls)
total_length-eq-bytes_of [] = refl
total_length-eq-bytes_of (writes kernel bytes ∷ calls) =
    omega (arith, total_length-eq-bytes_of calls)
total_length-eq-bytes_of (readable readv ∷ calls) = omega (arith, total_length-eq-bytes_of calls)
total_length-eq-bytes_of (writable kernel ∷ calls) = omega (arith, total_length-eq-bytes_of calls)
total_length-eq-bytes_of (failing ∷ calls) = omega (arith, total_length-eq-bytes_of calls)
total_length-eq-bytes_of (closed ∷ calls) = omega (arith, total_length-eq-bytes_of calls)
total_length-eq-bytes_of (shuts_down ∷ calls) = omega (arith, total_length-eq-bytes_of calls)
total_length-eq-bytes_of (connects ∷ calls) = omega (arith, total_length-eq-bytes_of calls)

bytes_of-take :
    (n : ℕ) (turns : List (List (Request Handed)))
    → bytes_of (all_handed_over (take n turns)) ≤ bytes_of (all_handed_over turns)
bytes_of-take zero turns = omega arith
bytes_of-take (suc n) [] = omega arith
bytes_of-take (suc n) (rs ∷ turns) = omega (
  arith,
  bytes_of-take n turns,
  bytes_of-append (handed_over rs) (all_handed_over turns),
  bytes_of-append (handed_over rs) (all_handed_over (take n turns)),
)

taken_fits :
    (calls : List Call) (waiting first : List Handed) (turns : List (List (Request Handed)))
    (n index : ℕ)
    → writes_of calls ≡ waiting ++ (first ++ all_handed_over (take n turns))
    → index + bytes_of (waiting ++ (first ++ all_handed_over turns)) < 2 ^ 32
    → index + total_length calls < 2 ^ 32
taken_fits calls waiting first turns n index are room = omega (
  arith,
  total_length-eq-bytes_of calls,
  ap bytes_of are,
  bytes_of-append waiting (first ++ all_handed_over (take n turns)),
  bytes_of-append first (all_handed_over (take n turns)),
  bytes_of-append waiting (first ++ all_handed_over turns),
  bytes_of-append first (all_handed_over turns),
  bytes_of-take n turns,
  room,
)

start-Sent : (c : TcpConnect) (handed : List Handed) → handed ≡ [] → Sent c handed c
unfolding run
start-Sent c handed fresh = ([], refl, sym fresh)

module _ {E : Epoll} {C : Type 0} (run_event : C → ConnectLoop E C → ConnectLoop E C)
    (event_keeps : (cb : C) (l : ConnectLoop E C) (called functions : List Handed)
      → Has called functions l.rest
      → Has called functions (run_event cb l).rest)
    (event_behaves : (cb : C) (l : ConnectLoop E C)
      → Sent l.rest.other [] (run_event cb l).rest.other) where
  written-Sent :
      (f : Handed) (l : ConnectLoop E C) (start : TcpConnect)
      → Sent start l.rest.called l.rest.other
      → Sent start
          (call_function run_event write_handed f l).rest.called
          (call_function run_event write_handed f l).rest.other
  unfolding call_function write_handed run step
  written-Sent (kernel, bytes) l start h =
      then-Sent start l.rest.other (write kernel bytes l.rest.other) l.rest.called
        ((kernel, bytes) ∷ []) h (writes kernel bytes ∷ [], refl, refl)

  event-Sent :
      (cb : C) (l : ConnectLoop E C) (start : TcpConnect)
      → Sent start l.rest.called l.rest.other
      → Sent start (run_event cb l).rest.called (run_event cb l).rest.other
  event-Sent cb l start h =
      let same = (event_keeps cb l l.rest.called l.rest.functions (refl, refl)).0 in
      subst (λ called. Sent start called (run_event cb l).rest.other)
        (append-nil l.rest.called ∙ sym same)
        (then-Sent start l.rest.other (run_event cb l).rest.other l.rest.called [] h
          (event_behaves cb l))

  handed-Has :
      (f : Handed) (l : ConnectLoop E C) (called functions : List Handed)
      → Has called functions l.rest
      → Has called functions (write_handed f l).rest
  unfolding write_handed
  handed-Has (kernel, bytes) l called functions h = h

  -- Writes that wait on a running loop, and those that other threads hand to it by `writeInLoop`, while
  -- other calls come to the connection that write nothing, are made in the order in which they are
  -- handed over, each once: behind the run, the connection is as a sequence of calls leaves it, whose
  -- writes are just these, and what it has sent or keeps is what it had before and then their data, as
  -- the connection takes them over. The callbacks of events leave the loop's functions alone, and the
  -- data handed over fit below what keeps writeIndex below 2^32.
  pub run-Sent :
      (rs : List (Request Handed)) (turns : List (List (Request Handed))) (l : ConnectLoop E C)
      → l.rest.running ≡ true
      → l.rest.called ≡ []
      → IsValid l.rest.other.write_buf
      → l.rest.other.write_buf.write_index
          + bytes_of (l.rest.functions ++ (handed_over rs ++ all_handed_over turns))
        < 2 ^ 32
      → (taken : ℕ) × (calls : List Call) × (taken ≤ length turns)
        × Ended turns taken (EventLoop.run run_event write_handed (rs ∷ turns) l)
        × (writes_of calls
            ≡ l.rest.functions ++ (handed_over rs ++ all_handed_over (take taken turns)))
        × ((EventLoop.run run_event write_handed (rs ∷ turns) l).rest.other
            ≡ run calls l.rest.other)
        × (stream (EventLoop.run run_event write_handed (rs ∷ turns) l).rest.other
            ≡ stream l.rest.other ++ all_data calls l.rest.other)
  run-Sent rs turns l running fresh valid room =
      let (taken, bound, ended, has) =
        run-CallsAll run_event write_handed event_keeps handed-Has rs turns l running in
      let (calls, is, are) =
        run_keeps (Sent l.rest.other) run_event write_handed (λ cb d. event-Sent cb d l.rest.other)
          (λ f d. written-Sent f d l.rest.other) (rs ∷ turns) l
          (start-Sent l.rest.other l.rest.called fresh) in
      let made =
        are
        ∙ has.0
        ∙ ap
            (λ c. c ++ (l.rest.functions ++ (handed_over rs ++ all_handed_over (take taken turns))))
            fresh in
      (
        taken,
        calls,
        bound,
        ended,
        made,
        is,
        ap stream is
            ∙ run-stream calls l.rest.other valid
                (taken_fits calls l.rest.functions (handed_over rs) turns taken _ made room),
      )
