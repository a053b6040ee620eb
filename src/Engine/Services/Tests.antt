-- ===== src/Engine/Services/Tests.antt =====
-- The engine's waits over a small kernel, its plugins, and the theorems there.
use plugins_engine.Prelude.{ℕ, ◌≡◌, true, List, [], ◌∷◌, arith}
use plugins_engine.Prelude.Int.{pos, negsuc}
use plugins_engine.Events.EventCtrl.TableKernel.{table_kernel, one_event}
use plugins_engine.Events.EventLoop.{Loop, handle_event}
use plugins_engine.Engine.Services.{wait_and_handle_events_for}
use plugins_engine.Engine.Services.Waits.{wait_and_handle_events_for_lem}

abbrev engine_loop : Loop table_kernel ℕ ℕ (List ℕ)
engine_loop = record {
  kernel = one_event.kernel;
  event_pool = one_event.event_pool;
  store = one_event.store;
  next_event = one_event.next_event;
  rest = record { running = true; functions = []; called = []; other = [] };
}

abbrev record_call : ℕ → Loop table_kernel ℕ ℕ (List ℕ) → Loop table_kernel ℕ ℕ (List ℕ)
record_call n l = record l { rest = record (l.rest) { other = n ∷ l.rest.other } }

-- A timeout of 2.5 milliseconds, and one of -1.
wait_and_handle_events_for_example :
    (wait_and_handle_events_for record_call record_call (pos 2500000) engine_loop
      ≡ handle_event record_call record_call (pos 2) engine_loop)
    × (wait_and_handle_events_for record_call record_call (negsuc 999999) engine_loop
        ≡ handle_event record_call record_call
            (negsuc 0)
            (handle_event record_call record_call (pos 0) engine_loop))
wait_and_handle_events_for_example =
    wait_and_handle_events_for_lem record_call record_call 2500000 0 engine_loop (omega arith)
      (omega arith)
