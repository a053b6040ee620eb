-- ===== src/Net/TcpConnect.antt =====
-- src/net/tcp/tcpConnect.cpp, class TcpConnect: the state of a connection, its two buffers, and the
-- handlers of its events. The loop hears of a change of the mask by `update`, see
-- Events/EventCtrl.antt; here the mask is that of the connection's own event.
pub mod Order
pub mod Sending
pub mod Backlog
pub mod Closing
pub mod Silent
pub mod InLoop
pub mod Registration
pub mod Tests
use plugins_engine.Prelude.{
  ℕ, ◌+◌, ◌-◌, ◌≤◌, ◌≡◌, Bool, true, false, not, ◌&&◌, ◌||◌, Option, none, some, List, [], ◌∷◌,
  ◌++◌, length, take, drop, ltb, ◌==◌, if◌then◌else◌,
}
use plugins_engine.Events.Event.{
  Event, enable_reading, enable_writing, enable_error_event, is_writing,
}
use plugins_engine.Net.Buffer.{
  Buffer, Readv, ReadOutcome, read_from_io, readable_bytes, peek, clear_read_index, is_empty,
  append,
}

-- `enum ConnectState`.
pub data ConnectState : Type 0 where
  disconnected connecting connected disconnecting : ConnectState

-- The calls of user callbacks and of the socket, in order.
pub data Action : Type 0 where
  message_callback close_callback write_complete_callback shutdown_socket : Action
  sent : List ℕ → Action

-- `has_…` says whether the `std::function` is set.
pub record TcpConnect : Type 0 where
  pub event : Event (Unit {0})
  pub read_buf : Buffer
  pub write_buf : Buffer
  pub has_message_callback : Bool
  pub has_close_callback : Bool
  pub has_write_complete_callback : Bool
  pub state : ConnectState
  pub trace : List Action

-- Linux values of `errno`.
abbrev pub ewouldblock : ℕ
ewouldblock = 11

abbrev pub einval : ℕ
einval = 22

abbrev pub epipe : ℕ
epipe = 32

abbrev pub econnreset : ℕ
econnreset = 104

abbrev pub enotconn : ℕ
enotconn = 107

-- `write` of the kernel on the bytes handed over: -1, or how many it took; with the value of
-- `errno` behind the call.
pub data WriteResult : Type 0 where
  refused : ℕ → WriteResult
  took : ℕ → ℕ → WriteResult

abbrev pub Write : Type 0
Write = List ℕ → WriteResult

pub act : Action → TcpConnect → TcpConnect
act a c = record c { trace = c.trace ++ (a ∷ []) }

pub act_if : Bool → Action → TcpConnect → TcpConnect
act_if true a c = act a c
act_if false a c = c

-- `closeEvent`.
closing : ConnectState → TcpConnect → TcpConnect
closing disconnected c = c
closing _ c = act_if c.has_close_callback close_callback (record c { state = disconnected })

pub close_event : TcpConnect → TcpConnect
close_event c = closing c.state c

pub error_event : TcpConnect → TcpConnect
error_event c = close_event c

-- `connectedHandle`.
unfoldable pub connected_handle : TcpConnect → TcpConnect
connected_handle c = record c {
  state = connected;
  event = enable_error_event true (enable_reading true c.event);
}

shutting : ConnectState → TcpConnect → TcpConnect
shutting connected c = act shutdown_socket (record c { state = disconnecting })
shutting _ c = c

-- `shutdownWrite`.
pub shutdown_write : TcpConnect → TcpConnect
shutdown_write c = shutting c.state c

after_read : Option ℕ → Option ℕ → TcpConnect → TcpConnect
after_read none (some e) c = if e == ewouldblock then c else close_event c
after_read none none c = close_event c
after_read (some n) e c =
    if ltb 0 n then act_if c.has_message_callback message_callback c else close_event c

-- `readEvent`; `errno` is still that of `readv`.
pub read_event : Readv → TcpConnect → TcpConnect
read_event readv c =
    let outcome = read_from_io readv c.read_buf in
    after_read outcome.count outcome.error_no (record c { read_buf = outcome.after })

-- `writeEvent` behind its first test, by what `write` returned.
flush_done : TcpConnect → TcpConnect
flush_done c =
    if is_empty c.write_buf
    then act_if c.has_write_complete_callback write_complete_callback
        (record c { event = enable_writing false c.event })
    else c

flush_failed : ℕ → TcpConnect → TcpConnect
flush_failed e c = if e == ewouldblock then c else close_event c

flush : List ℕ → WriteResult → TcpConnect → TcpConnect
flush bytes (refused e) c = flush_failed e c
flush bytes (took n e) c =
    if ltb 0 n
    then flush_done
        (record (act (sent (take n bytes)) c) { write_buf = clear_read_index c.write_buf n })
    else flush_failed e c

-- `writeEvent`.
pub write_event : Write → TcpConnect → TcpConnect
write_event kernel c =
    let bytes = peek c.write_buf (readable_bytes c.write_buf) in
    if is_writing c.event then c else flush bytes (kernel bytes) c

-- The errors after which `write` gives the data up.
pub is_fault : ℕ → Bool
is_fault e = e == epipe || e == econnreset || e == enotconn || e == einval

-- The end of `write`: what is left of the data goes to the buffer.
pub keep_rest : List ℕ → TcpConnect → TcpConnect
keep_rest [] c = c
keep_rest (b ∷ rest) c = record c {
  write_buf = append c.write_buf (b ∷ rest);
  event = if is_writing c.event then c.event else enable_writing true c.event;
}

-- The branch of `write` that calls the kernel at once.
pub write_direct : List ℕ → WriteResult → TcpConnect → TcpConnect
write_direct bytes (took n e) c = keep_rest (drop n bytes) (
    act_if (length bytes - n == 0 && c.has_write_complete_callback) write_complete_callback
      (act (sent (take n bytes)) c))
write_direct bytes (refused e) c =
    if e == ewouldblock then keep_rest bytes c else if is_fault e then c else keep_rest bytes c

writing_in : ConnectState → Write → List ℕ → TcpConnect → TcpConnect
writing_in disconnected kernel bytes c = c
writing_in _ kernel bytes c =
    if not (is_writing c.event) && is_empty c.write_buf
    then write_direct bytes (kernel bytes) c
    else keep_rest bytes c

-- `write(data, length)`, to which the other two `write` lead.
pub write : Write → List ℕ → TcpConnect → TcpConnect
write kernel bytes c = writing_in c.state kernel bytes c

-- The members that the loop or a user calls. A user callback is the last thing that each of them
-- does, so what it does to the connection comes as calls of its own behind it.
pub data Call : Type 0 where
  readable : Readv → Call
  writable : Write → Call
  failing : Call
  closed : Call
  writes : Write → List ℕ → Call
  shuts_down : Call
  connects : Call

pub step : Call → TcpConnect → TcpConnect
step (readable readv) c = read_event readv c
step (writable kernel) c = write_event kernel c
step failing c = error_event c
step closed c = close_event c
step (writes kernel bytes) c = write kernel bytes c
step shuts_down c = shutdown_write c
step connects c = connected_handle c

pub run : List Call → TcpConnect → TcpConnect
run [] c = c
run (call ∷ calls) c = run calls (step call c)

-- The bytes that the kernel has taken so far.
abbrev pub sent_bytes : List Action → List ℕ
sent_bytes [] = []
sent_bytes (sent bytes ∷ trace) = bytes ++ sent_bytes trace
sent_bytes (message_callback ∷ trace) = sent_bytes trace
sent_bytes (close_callback ∷ trace) = sent_bytes trace
sent_bytes (write_complete_callback ∷ trace) = sent_bytes trace
sent_bytes (shutdown_socket ∷ trace) = sent_bytes trace

abbrev pub close_calls : List Action → ℕ
close_calls [] = 0
close_calls (close_callback ∷ trace) = close_calls trace + 1
close_calls (sent bytes ∷ trace) = close_calls trace
close_calls (message_callback ∷ trace) = close_calls trace
close_calls (write_complete_callback ∷ trace) = close_calls trace
close_calls (shutdown_socket ∷ trace) = close_calls trace
