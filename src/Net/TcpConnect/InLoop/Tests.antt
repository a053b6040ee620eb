-- ===== src/Net/TcpConnect/InLoop/Tests.antt =====
-- A connection on a loop over a small kernel, and the theorem on `writeInLoop` there.
use plugins_engine.Prelude.{ℕ, ◌≤◌, ◌≡◌, refl, true, false, none, List, [], ◌∷◌, ◌++◌, take, arith}
use plugins_engine.Events.EventCtrl.TableKernel.{table_kernel, one_event}
use plugins_engine.Events.EventLoop.{Loop, Request, runs, stops}
use plugins_engine.Events.EventLoop
use plugins_engine.Events.EventLoop.Turns.{Has, Ended, all_handed_over}
use plugins_engine.Net.Buffer.Invariant.{IsValid}
use plugins_engine.Net.TcpConnect.{TcpConnect, connected, Write, took, Call, shuts_down, step, run}
use plugins_engine.Net.TcpConnect.Sending.{stream, all_data}
use plugins_engine.Net.TcpConnect.InLoop.{Handed, ConnectLoop, write_handed}
use plugins_engine.Net.TcpConnect.InLoop.Order.{Sent, writes_of, run-Sent}

-- A connection with nothing to write.
abbrev quiet : TcpConnect
quiet = record {
  event = record {
    event_fd = 5;
    events = 3;
    read_callback = none;
    write_callback = none;
    error_callback = none;
    close_callback = none;
  };
  read_buf = record { read_index = 0; write_index = 0; buffer = 0 ∷ 0 ∷ [] };
  write_buf = record { read_index = 0; write_index = 0; buffer = 0 ∷ 0 ∷ [] };
  has_message_callback = true;
  has_close_callback = true;
  has_write_complete_callback = false;
  state = connected;
  trace = [];
}

quiet-IsValid : IsValid quiet.write_buf
quiet-IsValid = omega arith

abbrev quiet_loop : ConnectLoop table_kernel ℕ
quiet_loop = record {
  kernel = one_event.kernel;
  event_pool = one_event.event_pool;
  store = one_event.store;
  next_event = one_event.next_event;
  rest = record { running = true; functions = []; called = []; other = quiet };
}

-- A callback that has the connection shut down its writing side.
abbrev shuts : ℕ → ConnectLoop table_kernel ℕ → ConnectLoop table_kernel ℕ
shuts cb l = record l { rest = record (l.rest) { other = step shuts_down l.rest.other } }

shuts-Has :
    (cb : ℕ) (l : ConnectLoop table_kernel ℕ) (called functions : List Handed)
    → Has called functions l.rest
    → Has called functions (shuts cb l).rest
shuts-Has cb l called functions h = h

shuts-Sent :
    (cb : ℕ) (l : ConnectLoop table_kernel ℕ) → Sent l.rest.other [] (shuts cb l).rest.other
unfolding run
shuts-Sent cb l = (shuts_down ∷ [], refl, refl)

abbrev takes_one : Write
takes_one bytes = took 1 0

abbrev first : Handed
first = (takes_one, 1 ∷ 2 ∷ [])

abbrev second : Handed
second = (takes_one, 3 ∷ [])

run-Sent_example :
    (taken : ℕ) × (calls : List Call) × (taken ≤ 1)
    × Ended ((runs second ∷ []) ∷ []) taken (
        EventLoop.run shuts write_handed ((runs first ∷ []) ∷ ((runs second ∷ []) ∷ [])) quiet_loop)
    × (writes_of calls ≡ first ∷ all_handed_over (take taken ((runs second ∷ []) ∷ [])))
    × ((EventLoop.run shuts write_handed
          ((runs first ∷ []) ∷ ((runs second ∷ []) ∷ []))
          quiet_loop).rest.other
        ≡ run calls quiet)
    × (stream
          (EventLoop.run shuts write_handed
            ((runs first ∷ []) ∷ ((runs second ∷ []) ∷ []))
            quiet_loop).rest.other
        ≡ stream quiet ++ all_data calls quiet)
run-Sent_example =
    run-Sent shuts shuts-Has shuts-Sent (runs first ∷ []) ((runs second ∷ []) ∷ []) quiet_loop refl
      refl quiet-IsValid (omega arith)
