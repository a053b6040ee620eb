-- ===== src/Net/TcpConnect/Backlog.antt =====
-- What becomes of data that src/net/tcp/tcpConnect.cpp has put into its write buffer.
use plugins_engine.Prelude.{
  ℕ, ◌<◌, ◌-◌, ◌≡◌, ◌≢◌, refl, sym, ap, ◌∙◌, Bool, true, false, Option, none, some, List, [], ◌∷◌,
  ◌++◌, length, take, drop, ltb, ◌==◌, arith, Bool-cases, inl, inr, append_assoc, append-nil,
  length-drop,
}
use plugins_engine.Events.Event.{enable_reading, is_writing}
use plugins_engine.Events.Event.Masks.{is_writing-enable_writing}
use plugins_engine.Net.Buffer.{read_from_io, is_empty}
use plugins_engine.Net.TcpConnect.{
  TcpConnect, Action, sent, message_callback, close_callback, write_complete_callback,
  shutdown_socket, ConnectState, connected, disconnected, disconnecting, Write, took, act, act_if,
  closing, close_event, error_event, connected_handle, shutting, shutdown_write, after_read,
  read_event, write_event, keep_rest, writing_in, write, write_direct, Call, readable, writable,
  failing, closed, writes, shuts_down, connects, step, run, sent_bytes,
}

pub sent_bytes-append : (s t : List Action) → sent_bytes (s ++ t) ≡ sent_bytes s ++ sent_bytes t
sent_bytes-append [] t = refl
sent_bytes-append (sent bytes ∷ s) t =
    ap (◌++◌ bytes) (sent_bytes-append s t) ∙ sym (append_assoc bytes (sent_bytes s) (sent_bytes t))
sent_bytes-append (message_callback ∷ s) t = sent_bytes-append s t
sent_bytes-append (close_callback ∷ s) t = sent_bytes-append s t
sent_bytes-append (write_complete_callback ∷ s) t = sent_bytes-append s t
sent_bytes-append (shutdown_socket ∷ s) t = sent_bytes-append s t

-- The connection waits for writability and has sent just these bytes.
abbrev pub IsStuck : List ℕ → TcpConnect → Type 0
IsStuck bytes c = (is_writing c.event ≡ true) × (sent_bytes c.trace ≡ bytes)

-- A call of a callback or of the socket that sends nothing.
IsQuiet : Action → Type 0
IsQuiet a = sent_bytes (a ∷ []) ≡ []

act_if-IsStuck :
    (bytes : List ℕ) (b : Bool) (a : Action) (c : TcpConnect)
    → IsQuiet a
    → IsStuck bytes c
    → IsStuck bytes (act_if b a c)
unfolding act_if act IsQuiet
act_if-IsStuck bytes false a c q h = h
act_if-IsStuck bytes true a c q (w, s) =
    (w, sent_bytes-append c.trace (a ∷ []) ∙ rw q (append-nil (sent_bytes c.trace)) ∙ s)

closing-IsStuck :
    (bytes : List ℕ) (s : ConnectState) (c : TcpConnect)
    → IsStuck bytes c
    → IsStuck bytes (closing s c)
unfolding closing IsQuiet
closing-IsStuck bytes disconnected c h = h
closing-IsStuck bytes _ c h =
    act_if-IsStuck bytes c.has_close_callback close_callback (record c { state = disconnected })
      refl h

close_event-IsStuck :
    (bytes : List ℕ) (c : TcpConnect) → IsStuck bytes c → IsStuck bytes (close_event c)
unfolding close_event
close_event-IsStuck bytes c h = closing-IsStuck bytes c.state c h

shutting-IsStuck :
    (bytes : List ℕ) (s : ConnectState) (c : TcpConnect)
    → IsStuck bytes c
    → IsStuck bytes (shutting s c)
unfolding shutting IsQuiet act_if
shutting-IsStuck bytes connected c h =
    act_if-IsStuck bytes true shutdown_socket (record c { state = disconnecting }) refl h
shutting-IsStuck bytes _ c h = h

after_read-IsStuck :
    (bytes : List ℕ) (n e : Option ℕ) (c : TcpConnect)
    → IsStuck bytes c
    → IsStuck bytes (after_read n e c)
unfolding after_read IsQuiet
after_read-IsStuck bytes none none c h = close_event-IsStuck bytes c h
after_read-IsStuck bytes none (some e) c h = elim (Bool-cases (e == 11)) [
  | inl p ↦ rw p h
  | inr p ↦ rw p (close_event-IsStuck bytes c h)
]
after_read-IsStuck bytes (some n) e c h = elim (Bool-cases (ltb 0 n)) [
  | inl p ↦ rw p (act_if-IsStuck bytes c.has_message_callback message_callback c refl h)
  | inr p ↦ rw p (close_event-IsStuck bytes c h)
]

keep_rest-IsStuck :
    (bytes rest : List ℕ) (c : TcpConnect) → IsStuck bytes c → IsStuck bytes (keep_rest rest c)
unfolding keep_rest
keep_rest-IsStuck bytes [] c h = h
keep_rest-IsStuck bytes (b ∷ rest) c (w, s) = (rw w w, s)

writing_in-IsStuck :
    (sent_so_far : List ℕ) (s : ConnectState) (kernel : Write) (bytes : List ℕ) (c : TcpConnect)
    → IsStuck sent_so_far c
    → IsStuck sent_so_far (writing_in s kernel bytes c)
unfolding writing_in
writing_in-IsStuck so_far disconnected kernel bytes c h = h
writing_in-IsStuck so_far _ kernel bytes c h = rw (h.0) (keep_rest-IsStuck so_far bytes c h)

step-IsStuck :
    (bytes : List ℕ) (call : Call) (c : TcpConnect) → IsStuck bytes c → IsStuck bytes (step call c)
unfolding step read_event write_event error_event write shutdown_write connected_handle
step-IsStuck bytes (readable readv) c h =
    let outcome = read_from_io readv c.read_buf in
    after_read-IsStuck bytes outcome.count outcome.error_no (record c { read_buf = outcome.after })
      h
step-IsStuck bytes (writable kernel) c h = rw (h.0) h
step-IsStuck bytes failing c h = close_event-IsStuck bytes c h
step-IsStuck bytes closed c h = close_event-IsStuck bytes c h
step-IsStuck bytes (writes kernel data_bytes) c h =
    writing_in-IsStuck bytes c.state kernel data_bytes c h
step-IsStuck bytes shuts_down c h = shutting-IsStuck bytes c.state c h
step-IsStuck bytes connects c (w, s) = (
  (is_writing-enable_writing (enable_reading true c.event) true).4
      ∙ (is_writing-enable_writing c.event true).3
      ∙ w,
  s,
)

-- Once a connection waits for writability it never sends another byte: whatever it is asked to
-- write, whatever the kernel reports and accepts, and in whatever order, since `writeEvent` returns
-- at once exactly when it is called to send the rest.
pub run-IsStuck :
    (bytes : List ℕ) (calls : List Call) (c : TcpConnect)
    → IsStuck bytes c
    → IsStuck bytes (run calls c)
unfolding run
run-IsStuck bytes [] c h = h
run-IsStuck bytes (call ∷ calls) c h =
    run-IsStuck bytes calls (step call c) (step-IsStuck bytes call c h)

keep_rest-some :
    (rest : List ℕ) (c : TcpConnect) → 0 < length rest → is_writing (keep_rest rest c).event ≡ true
unfolding keep_rest
keep_rest-some [] c h = absurd (omega arith)
keep_rest-some (b ∷ rest) c h = elim (Bool-cases (is_writing c.event)) [
  | inl p ↦ rw p p
  | inr p ↦ rw p (is_writing-enable_writing c.event true).0
]

trace-keep_rest : (rest : List ℕ) (c : TcpConnect) → (keep_rest rest c).trace ≡ c.trace
unfolding keep_rest
trace-keep_rest [] c = refl
trace-keep_rest (b ∷ rest) c = refl

short_write :
    (c : TcpConnect) (bytes : List ℕ) (n e : ℕ)
    → n < length bytes
    → IsStuck (sent_bytes c.trace ++ take n bytes) (write_direct bytes (took n e) c)
unfolding write_direct act act_if
short_write c bytes n e h = rw more (
  keep_rest-some (drop n bytes) (act (sent (take n bytes)) c) (omega (arith, length-drop n bytes)),
  ap sent_bytes (trace-keep_rest (drop n bytes) (act (sent (take n bytes)) c))
      ∙ sent_bytes-append c.trace (sent (take n bytes) ∷ [])
      ∙ ap (◌++◌ (sent_bytes c.trace)) (append-nil (take n bytes)),
)
  where
    more : (length bytes - n == 0) ≡ false
    more = ground arith

direct_by_state :
    (s : ConnectState) (c : TcpConnect) (kernel : Write) (bytes : List ℕ)
    → s ≢ disconnected
    → is_writing c.event ≡ false
    → is_empty c.write_buf ≡ true
    → writing_in s kernel bytes c ≡ write_direct bytes (kernel bytes) c
unfolding writing_in
direct_by_state disconnected c kernel bytes live idle empty = absurd (live refl)
direct_by_state _ c kernel bytes live idle empty = rw (idle, empty)

-- When the kernel takes only part of the data of a `write` on an idle connection, the rest is never
-- sent: the bytes sent after any further calls are those sent before and the part taken.
pub partial_write :
    (c : TcpConnect) (kernel : Write) (bytes : List ℕ) (n e : ℕ) (calls : List Call)
    → c.state ≢ disconnected
    → is_writing c.event ≡ false
    → is_empty c.write_buf ≡ true
    → kernel bytes ≡ took n e
    → n < length bytes
    → sent_bytes (run calls (write kernel bytes c)).trace ≡ sent_bytes c.trace ++ take n bytes
unfolding write
partial_write c kernel bytes n e calls live idle empty partly h =
    rw (direct_by_state c.state c kernel bytes live idle empty, partly)
      (run-IsStuck (sent_bytes c.trace ++ take n bytes) calls (write_direct bytes (took n e) c)
        (short_write c bytes n e h)).1
