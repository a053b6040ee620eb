-- ===== src/Net/TcpConnect/Sending.antt =====
-- The order of the bytes that src/net/tcp/tcpConnect.cpp sends and keeps.
use plugins_engine.Prelude.{
  ℕ, ◌+◌, ◌<◌, ◌≤◌, ◌-◌, ◌^◌, ◌≡◌, refl, sym, ap, ap₂, ◌∙◌, Bool, true, false, not, ◌&&◌, Option,
  none, some, List, [], ◌∷◌, ◌++◌, length, take, drop, ltb, ◌==◌, if◌then◌else◌, arith, Bool-cases,
  inl, inr, append_assoc, append-nil, length-drop, take-append-drop, subst, take_of_length-le,
  ==_iff,
}
use plugins_engine.Events.Event.{is_writing, enable_writing}
use plugins_engine.Net.Buffer.{read_from_io, is_empty, clear_read_index, peek, readable_bytes}
use plugins_engine.Net.Buffer.Invariant.{IsValid, append-IsValid, clear_read_index-IsValid}
use plugins_engine.Net.Buffer.Content.{
  content, length-content, is_empty-content, content-append, content-clear_read_index, peek_lem,
}
use plugins_engine.Net.Buffer.Queue.{write_index-clear_read_index, write_index-append}
use plugins_engine.Net.TcpConnect.{
  TcpConnect, Action, sent, message_callback, close_callback, write_complete_callback,
  shutdown_socket, ConnectState, connected, disconnected, disconnecting, ewouldblock, Write,
  WriteResult, refused, took, act, act_if, closing, close_event, error_event, connected_handle,
  shutting, shutdown_write, after_read, read_event, flush, flush_done, flush_failed, write_event,
  keep_rest, is_fault, writing_in, write, write_direct, Call, readable, writable, failing, closed,
  writes, shuts_down, connects, step, sent_bytes,
}
use plugins_engine.Net.TcpConnect.Backlog.{sent_bytes-append}

-- The bytes sent, and behind them those that wait in the buffer.
abbrev pub stream : TcpConnect → List ℕ
stream c = sent_bytes c.trace ++ content c.write_buf

-- A step that neither sends anything nor touches the write buffer.
abbrev IsQuiet : TcpConnect → TcpConnect → Type 0
IsQuiet c d = (sent_bytes d.trace ≡ sent_bytes c.trace) × (d.write_buf ≡ c.write_buf)

act_if-IsQuiet :
    (b : Bool) (a : Action) (c : TcpConnect) → sent_bytes (a ∷ []) ≡ [] → IsQuiet c (act_if b a c)
unfolding act_if act
act_if-IsQuiet false a c q = (refl, refl)
act_if-IsQuiet true a c q =
    (sent_bytes-append c.trace (a ∷ []) ∙ rw q (append-nil (sent_bytes c.trace)), refl)

close_event-IsQuiet : (s : ConnectState) (c : TcpConnect) → IsQuiet c (closing s c)
unfolding closing
close_event-IsQuiet disconnected c = (refl, refl)
close_event-IsQuiet _ c =
    act_if-IsQuiet c.has_close_callback close_callback (record c { state = disconnected }) refl

shutting-IsQuiet : (s : ConnectState) (c : TcpConnect) → IsQuiet c (shutting s c)
unfolding shutting act_if
shutting-IsQuiet connected c =
    act_if-IsQuiet true shutdown_socket (record c { state = disconnecting }) refl
shutting-IsQuiet _ c = (refl, refl)

after_read-IsQuiet : (n e : Option ℕ) (c : TcpConnect) → IsQuiet c (after_read n e c)
unfolding after_read close_event
after_read-IsQuiet none none c = close_event-IsQuiet c.state c
after_read-IsQuiet none (some e) c = elim (Bool-cases (e == 11)) [
  | inl p ↦ rw p (refl, refl)
  | inr p ↦ rw p (close_event-IsQuiet c.state c)
]
after_read-IsQuiet (some n) e c = elim (Bool-cases (ltb 0 n)) [
  | inl p ↦ rw p (act_if-IsQuiet c.has_message_callback message_callback c refl)
  | inr p ↦ rw p (close_event-IsQuiet c.state c)
]

-- What a step adds to the stream.
pub record Adds (bytes : List ℕ) (c d : TcpConnect) : Type 0 where
  pub order : stream d ≡ stream c ++ bytes
  pub valid : IsValid d.write_buf
  pub room : d.write_buf.write_index ≤ c.write_buf.write_index + length bytes

quiet-Adds : {c d : TcpConnect} → IsQuiet c d → IsValid c.write_buf → Adds [] c d
quiet-Adds {c} {d} (sends, keeps) v = record {
  order = ap₂ ◌++◌ sends (ap content keeps) ∙ sym (append-nil (stream c));
  valid = subst IsValid (sym keeps) v;
  room = omega (arith, ap (λ b. b.write_index) keeps);
}

keep_rest-Adds :
    (rest : List ℕ) (c : TcpConnect)
    → IsValid c.write_buf
    → c.write_buf.write_index + length rest < 2 ^ 32
    → Adds rest c (keep_rest rest c)
unfolding keep_rest
keep_rest-Adds [] c v h = quiet-Adds (refl, refl) v
keep_rest-Adds (b ∷ rest) c v h = record {
  order =
      ap (◌++◌ (sent_bytes c.trace)) (content-append (b ∷ rest) v h)
      ∙ sym (append_assoc (sent_bytes c.trace) (content c.write_buf) (b ∷ rest));
  valid = append-IsValid (b ∷ rest) v h;
  room = omega (arith, write_index-append (b ∷ rest) v h);
}

-- What a call of `write` takes over: nothing of a closed connection, and nothing where the kernel
-- reports one of the four faults at once.
unfoldable pub taken_directly : WriteResult → List ℕ → List ℕ
taken_directly (took n e) bytes = bytes
taken_directly (refused e) bytes = if is_fault e then [] else bytes

unfoldable pub taken_in : ConnectState → Bool → WriteResult → List ℕ → List ℕ
taken_in disconnected direct r bytes = []
taken_in _ direct r bytes = if direct then taken_directly r bytes else bytes

abbrev pub taken_over : Write → List ℕ → TcpConnect → List ℕ
taken_over kernel bytes c =
    taken_in c.state (not (is_writing c.event) && is_empty c.write_buf) (kernel bytes) bytes

-- The kernel takes the first part while the buffer is empty.
sends_part :
    (t : List ℕ) (c : TcpConnect)
    → content c.write_buf ≡ []
    → stream (act (sent t) c) ≡ stream c ++ t
unfolding act
sends_part t c empty =
    rw
      (
        empty,
        sent_bytes-append c.trace (sent t ∷ []),
        append-nil t,
        append-nil (sent_bytes c.trace),
        append-nil (sent_bytes c.trace ++ t),
      )
      refl

waiting-IsFault : (e : ℕ) → (e == ewouldblock) ≡ true → is_fault e ≡ false
unfolding is_fault
waiting-IsFault e h =
    ground (arith, ==_iff e 11, ==_iff e 22, ==_iff e 32, ==_iff e 104, ==_iff e 107)

quiet-stream : (c d : TcpConnect) → IsQuiet c d → stream d ≡ stream c
quiet-stream c d (sends, keeps) = ap₂ ◌++◌ sends (ap content keeps)

write_direct-Adds :
    (bytes : List ℕ) (r : WriteResult) (c : TcpConnect)
    → IsValid c.write_buf
    → content c.write_buf ≡ []
    → c.write_buf.write_index + length bytes < 2 ^ 32
    → Adds (taken_directly r bytes) c (write_direct bytes r c)
unfolding write_direct taken_directly act
write_direct-Adds bytes (refused e) c v empty h = elim (Bool-cases (e == ewouldblock)) [
  | inl p ↦ rw (waiting-IsFault e p, p) (keep_rest-Adds bytes c v h)
  | inr p ↦ elim (Bool-cases (is_fault e)) [
    | inl q ↦ rw (p, q) (quiet-Adds (refl, refl) v)
    | inr q ↦ rw (p, q) (keep_rest-Adds bytes c v h)
  ]
]
write_direct-Adds bytes (took n e) c v empty h =
    let first : TcpConnect = act (sent (take n bytes)) c in
    let done = length bytes - n == 0 && c.has_write_complete_callback in
    let second : TcpConnect = act_if done write_complete_callback first in
    let quiet : IsQuiet first second = act_if-IsQuiet done write_complete_callback first refl in
    let same : second.write_buf ≡ c.write_buf = quiet.1 in
    let kept : Adds (drop n bytes) second (keep_rest (drop n bytes) second) =
      keep_rest-Adds (drop n bytes) second (subst IsValid (sym same) v)
        (omega (arith, ap (λ b. b.write_index) same, length-drop n bytes)) in
    record {
      order =
          kept.order
          ∙ ap (λ l. l ++ drop n bytes)
              (quiet-stream first second quiet ∙ sends_part (take n bytes) c empty)
          ∙ append_assoc (stream c) (take n bytes) (drop n bytes)
          ∙ ap (◌++◌ (stream c)) (take-append-drop n bytes);
      valid = kept.valid;
      room = omega (arith, kept.room, ap (λ b. b.write_index) same, length-drop n bytes);
    }

writing_in-Adds :
    (s : ConnectState) (kernel : Write) (bytes : List ℕ) (c : TcpConnect)
    → IsValid c.write_buf
    → c.write_buf.write_index + length bytes < 2 ^ 32
    → Adds
        (taken_in s (not (is_writing c.event) && is_empty c.write_buf) (kernel bytes) bytes)
        c
        (writing_in s kernel bytes c)
unfolding writing_in taken_in
writing_in-Adds disconnected kernel bytes c v h = quiet-Adds (refl, refl) v
writing_in-Adds _ kernel bytes c v h = elim (Bool-cases (is_writing c.event)) [
  | inl p ↦ rw p (keep_rest-Adds bytes c v h)
  | inr p ↦ elim (Bool-cases (is_empty c.write_buf)) [
    | inl q ↦ rw (p, q) (write_direct-Adds bytes (kernel bytes) c v (is_empty-content v q) h)
    | inr q ↦ rw (p, q) (keep_rest-Adds bytes c v h)
  ]
]

flush_done-IsQuiet : (c : TcpConnect) → IsQuiet c (flush_done c)
unfolding flush_done
flush_done-IsQuiet c = elim (Bool-cases (is_empty c.write_buf)) [
  | inl p ↦ rw p (
      act_if-IsQuiet c.has_write_complete_callback write_complete_callback
        (record c { event = enable_writing false c.event }) refl)
  | inr p ↦ rw p (refl, refl)
]

flush_failed-IsQuiet : (e : ℕ) (c : TcpConnect) → IsQuiet c (flush_failed e c)
unfolding flush_failed close_event
flush_failed-IsQuiet e c = elim (Bool-cases (e == 11)) [
  | inl p ↦ rw p (refl, refl)
  | inr p ↦ rw p (close_event-IsQuiet c.state c)
]

flush_taken : ℕ → List ℕ → TcpConnect → TcpConnect
flush_taken n bytes c = record (act (sent (take n bytes)) c) {
  write_buf = clear_read_index c.write_buf n;
}

flush_taken-Adds :
    (n : ℕ) (c : TcpConnect)
    → IsValid c.write_buf
    → Adds [] c (flush_taken n (content c.write_buf) c)
unfolding flush_taken act
flush_taken-Adds n c v = record {
  order =
      ap₂ ◌++◌
        (sent_bytes-append c.trace (sent (take n (content c.write_buf)) ∷ [])
          ∙ ap (◌++◌ (sent_bytes c.trace)) (append-nil (take n (content c.write_buf))))
        (content-clear_read_index n v)
      ∙ append_assoc (sent_bytes c.trace) (take n (content c.write_buf))
          (drop n (content c.write_buf))
      ∙ ap (◌++◌ (sent_bytes c.trace)) (take-append-drop n (content c.write_buf))
      ∙ sym (append-nil (stream c));
  valid = clear_read_index-IsValid n v;
  room = omega (arith, write_index-clear_read_index c.write_buf n);
}

then_quiet-Adds :
    (bytes : List ℕ) (c d e : TcpConnect) → Adds bytes c d → IsQuiet d e → Adds bytes c e
then_quiet-Adds bytes c d e a q = record {
  order = quiet-stream d e q ∙ a.order;
  valid = subst IsValid (sym (q.1)) a.valid;
  room = omega (arith, a.room, ap (λ b. b.write_index) (q.1));
}

flush-Adds :
    (r : WriteResult) (c : TcpConnect)
    → IsValid c.write_buf
    → Adds [] c (flush (content c.write_buf) r c)
unfolding flush flush_taken
flush-Adds (refused e) c v = quiet-Adds (flush_failed-IsQuiet e c) v
flush-Adds (took n e) c v = elim (Bool-cases (ltb 0 n)) [
  | inl p ↦
      let next = flush_taken n (content c.write_buf) c in
      rw p (
        then_quiet-Adds [] c next (flush_done next) (flush_taken-Adds n c v)
          (flush_done-IsQuiet next))
  | inr p ↦ rw p (quiet-Adds (flush_failed-IsQuiet e c) v)
]

write_event-Adds :
    (kernel : Write) (c : TcpConnect) → IsValid c.write_buf → Adds [] c (write_event kernel c)
unfolding write_event
write_event-Adds kernel c v = elim (Bool-cases (is_writing c.event)) [
  | inl p ↦ rw p (quiet-Adds (refl, refl) v)
  | inr p ↦ rw (p, whole) (flush-Adds (kernel (content c.write_buf)) c v)
]
  where
    whole : peek c.write_buf (readable_bytes c.write_buf) ≡ content c.write_buf
    whole =
        peek_lem (readable_bytes c.write_buf) v (omega arith)
        ∙ take_of_length-le (readable_bytes c.write_buf) (content c.write_buf)
            (omega (arith, length-content v))

-- What a call adds to the stream.
abbrev pub new_data : Call → TcpConnect → List ℕ
new_data (writes kernel bytes) c = taken_over kernel bytes c
new_data (readable readv) c = []
new_data (writable kernel) c = []
new_data failing c = []
new_data closed c = []
new_data shuts_down c = []
new_data connects c = []

-- The number of bytes that a user hands over in a call.
abbrev pub data_length : Call → ℕ
data_length (writes kernel bytes) = length bytes
data_length (readable readv) = 0
data_length (writable kernel) = 0
data_length failing = 0
data_length closed = 0
data_length shuts_down = 0
data_length connects = 0

pub step-Adds :
    (call : Call) (c : TcpConnect)
    → IsValid c.write_buf
    → c.write_buf.write_index + data_length call < 2 ^ 32
    → Adds (new_data call c) c (step call c)
unfolding step read_event error_event close_event write shutdown_write connected_handle
step-Adds (readable readv) c v h =
    let outcome = read_from_io readv c.read_buf in
    quiet-Adds
      (after_read-IsQuiet outcome.count outcome.error_no (record c { read_buf = outcome.after })) v
step-Adds (writable kernel) c v h = write_event-Adds kernel c v
step-Adds failing c v h = quiet-Adds (close_event-IsQuiet c.state c) v
step-Adds closed c v h = quiet-Adds (close_event-IsQuiet c.state c) v
step-Adds (writes kernel bytes) c v h = writing_in-Adds c.state kernel bytes c v h
step-Adds shuts_down c v h = quiet-Adds (shutting-IsQuiet c.state c) v
step-Adds connects c v h = quiet-Adds (refl, refl) v

-- The data that the calls hand over, in order.
abbrev pub all_data : List Call → TcpConnect → List ℕ
all_data [] c = []
all_data (call ∷ calls) c = new_data call c ++ all_data calls (step call c)

abbrev pub total_length : List Call → ℕ
total_length [] = 0
total_length (call ∷ calls) = data_length call + total_length calls
