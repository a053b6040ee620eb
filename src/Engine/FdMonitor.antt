-- ===== src/Engine/FdMonitor.antt =====
-- `Engine::addFd`, `removeFd` and `modifyFd` of src/engine/engine.cpp, which plugins call to watch
-- their own descriptors.
pub mod Adding
pub mod Modifying
pub mod Tests
use plugins_engine.Prelude.{ℕ, Bool, true, false, ◌==◌, if◌then◌else◌}
use plugins_engine.Events.Epoll.{Epoll}
use plugins_engine.Events.Event.{
  Event, epoll_in, epoll_out, epoll_err, set_read_callback, set_write_callback, set_error_callback,
}
use plugins_engine.Events.EventCtrl.{
  Ctrl, MaskChange, reading, writing, error_event, update, make_event, add_event, modify_event,
  delete_event_fd, update_event,
}

module _ {E : Epoll} {C R : Type 0} where
  -- A `set…Callback` of the event `id`.
  unfoldable pub set_callback : (Event C → Event C) → ℕ → Ctrl E C R → Ctrl E C R
  set_callback set id c = record c { store = update c.store id (set (c.store id)) }

  -- One of the three tests of `addFd`: where `events` is the flag, set the callback and enable it.
  pub when_events : Bool → (Event C → Event C) → MaskChange → ℕ → Ctrl E C R → Ctrl E C R
  when_events true set change id c = update_event change id (set_callback set id c)
  when_events false set change id c = c

  pub prepare_event : ℕ → C → ℕ → Ctrl E C R → Ctrl E C R
  prepare_event events handler id c =
      when_events (events == epoll_err) (set_error_callback handler) (error_event true) id (
        when_events (events == epoll_out) (set_write_callback handler) (writing true) id
          (when_events (events == epoll_in) (set_read_callback handler) (reading true) id c))

  pub add_fd : ℕ → ℕ → C → Ctrl E C R → Ctrl E C R
  add_fd fd events handler c =
      let (id, made) = make_event fd c in add_event id (prepare_event events handler id made)

  unfoldable pub remove_fd : ℕ → Ctrl E C R → Ctrl E C R
  remove_fd fd c = delete_event_fd fd c

  pub modify_fd : ℕ → ℕ → Ctrl E C R → Ctrl E C R
  modify_fd fd events c =
      let (id, made) = make_event fd c in
      if events == epoll_in
      then update_event (reading true) id made
      else if events == epoll_out
      then update_event (writing true) id made
      else if events == epoll_err
      then update_event (error_event true) id made
      else modify_event id made
