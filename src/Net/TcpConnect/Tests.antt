-- ===== src/Net/TcpConnect/Tests.antt =====
-- The connection at concrete calls, and its theorems there.
use plugins_engine.Prelude.{ℕ, ◌≡◌, ◌≢◌, ap, refl, true, false, none, [], ◌∷◌, ◌++◌, List, arith}
use plugins_engine.Events.Event.{is_writing}
use plugins_engine.Prelude.Bits.{masked}
use plugins_engine.Net.Buffer.{Buffer, is_empty}
use plugins_engine.Net.Buffer.Invariant.{IsValid}
use plugins_engine.Net.TcpConnect.{
  TcpConnect, connected, disconnected, ConnectState, Write, refused, took, Call, writable, closed,
  writes, shuts_down, run, write, sent_bytes, ewouldblock,
}
use plugins_engine.Net.TcpConnect.Backlog.{partial_write}
use plugins_engine.Net.TcpConnect.Sending.{stream, all_data}
use plugins_engine.Net.TcpConnect.Order.{run-stream}

abbrev empty_buffer : Buffer
empty_buffer = record { read_index = 0; write_index = 0; buffer = 0 ∷ 0 ∷ [] }

empty_buffer-IsValid : IsValid empty_buffer
empty_buffer-IsValid = omega arith

-- A connection that reads (`EPOLLIN | EPOLLPRI` is 3) and has nothing to write.
abbrev idle : TcpConnect
idle = record {
  event = record {
    event_fd = 5;
    events = 3;
    read_callback = none;
    write_callback = none;
    error_callback = none;
    close_callback = none;
  };
  read_buf = empty_buffer;
  write_buf = empty_buffer;
  has_message_callback = true;
  has_close_callback = true;
  has_write_complete_callback = false;
  state = connected;
  trace = [];
}

-- The same connection when it waits for writability (`EPOLLOUT` is 4).
abbrev waiting : TcpConnect
waiting = record idle {
  event = record {
    event_fd = 5;
    events = 7;
    read_callback = none;
    write_callback = none;
    error_callback = none;
    close_callback = none;
  };
  write_buf = record { read_index = 0; write_index = 2; buffer = 8 ∷ 9 ∷ [] };
}

-- A kernel that takes two bytes, and one that takes none.
abbrev takes_two : Write
takes_two bytes = took 2 0

abbrev is_full : Write
is_full bytes = refused ewouldblock

abbrev calls : List Call
calls =
    writes takes_two (1 ∷ 2 ∷ 3 ∷ [])
    ∷ writable takes_two
    ∷ writes is_full (4 ∷ [])
    ∷ shuts_down
    ∷ closed
    ∷ writes takes_two (5 ∷ [])
    ∷ []

run-stream_example : stream (run calls idle) ≡ stream idle ++ all_data calls idle
run-stream_example = run-stream calls idle empty_buffer-IsValid (omega arith)

is_waiting : is_writing waiting.event ≡ true
unfolding is_writing masked
is_waiting = refl

is_idle : is_writing idle.event ≡ false
unfolding is_writing masked
is_idle = refl

has_no_backlog : is_empty idle.write_buf ≡ true
unfolding is_empty
has_no_backlog = refl

abbrev is_open : ConnectState → ℕ
is_open disconnected = 0
is_open _ = 1

not_closed : idle.state ≢ disconnected
not_closed e = absurd (omega (arith, ap is_open e))

partial_write_example :
    sent_bytes (run calls (write takes_two (1 ∷ 2 ∷ 3 ∷ []) idle)).trace ≡ 1 ∷ 2 ∷ []
partial_write_example =
    partial_write idle takes_two (1 ∷ 2 ∷ 3 ∷ []) 2 0 calls not_closed is_idle has_no_backlog refl
      (omega arith)
