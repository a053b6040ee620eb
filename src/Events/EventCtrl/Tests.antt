-- ===== src/Events/EventCtrl/Tests.antt =====
-- The registry over a small kernel, and its theorems there.
use plugins_engine.Prelude.{ℕ, ◌≡◌, refl, none, some, List, [], ◌∷◌, ℕ_discrete}
use plugins_engine.Prelude.Int.{pos}
use plugins_engine.Prelude.Assoc.{lookup, insert, erase}
use plugins_engine.Prelude.Bits.{masked}
use plugins_engine.Events.Event.{Event}
use plugins_engine.Events.Event
use plugins_engine.Events.EventCtrl.{
  Ctrl, delete_event_fd, wait_and_run_handler, run_active, run_reported, run_all_active, run_entry,
  delete_found, epoll_remove_fd, epoll_ctrl, erase_fd,
}
use plugins_engine.Events.EventCtrl.Registry.{entry, Synced}
use plugins_engine.Events.EventCtrl.Dispatching.{wait_and_run_handler-Synced}
use plugins_engine.Events.EventCtrl.TableKernel.{table_kernel, one_event, one_event-Synced}

-- A callback that records itself.
abbrev record_call : ℕ → Ctrl table_kernel ℕ (List ℕ) → Ctrl table_kernel ℕ (List ℕ)
record_call cb c = record c { rest = cb ∷ c.rest }

calls_reader : (wait_and_run_handler record_call (pos 0) one_event).rest ≡ 1 ∷ []
unfolding wait_and_run_handler run_reported run_all_active run_active run_entry delete_event_fd
    delete_found epoll_remove_fd epoll_ctrl erase_fd lookup insert erase ℕ_discrete Event.handle
    Event.when_masked Event.call masked
calls_reader = refl

record_call-Synced :
    (cb : ℕ) (c : Ctrl table_kernel ℕ (List ℕ)) → Synced c → Synced (record_call cb c)
record_call-Synced cb c v = v

wait_and_run_handler-Synced_example : Synced (wait_and_run_handler record_call (pos 0) one_event)
wait_and_run_handler-Synced_example =
    wait_and_run_handler-Synced record_call (pos 0) one_event record_call-Synced one_event-Synced

free_entry : entry one_event 9 ≡ none
unfolding lookup ℕ_discrete
free_entry = refl

registered_entry : entry one_event 5 ≡ some (some 0)
unfolding lookup ℕ_discrete
registered_entry = refl
