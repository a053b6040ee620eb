-- ===== src/Events/EventCtrl.antt =====
-- src/event/eventCtrl.cpp with src/event/epoll.cpp: the registry of events, and the calls of
-- src/event/event.cpp that go through the loop to it. Events are shared objects: they lie in a
-- store, under the number that a `shared_ptr` or a pointer to them stands for.
pub mod Registry
pub mod Adding
pub mod Removal
pub mod Dispatching
pub mod Keeping
pub mod TableKernel
pub mod Tests
use plugins_engine.Prelude.{
  ℕ, ◌+◌, Bool, true, false, Option, none, some, List, [], ◌∷◌, length, ◌==◌, if◌then◌else◌,
  ℕ_discrete,
}
use plugins_engine.Prelude.Int.{ℤ}
use plugins_engine.Prelude.Assoc.{lookup, insert, erase}
use plugins_engine.Events.Epoll.{Epoll, CtlOp, ctl_add, ctl_mod, ctl_del}
use plugins_engine.Events.Event.{Event}
use plugins_engine.Events.Event

-- The pool maps a descriptor to a `shared_ptr<Event>`, which may be null. `rest` is whatever else the
-- callbacks read and write.
pub record Ctrl (E : Epoll) (C R : Type 0) : Type 0 where
  pub kernel : E.State
  pub event_pool : List (ℕ × Option ℕ)
  pub store : ℕ → Event C
  pub next_event : ℕ
  pub rest : R

abbrev pub update {ℓ} : {A : Type ℓ} → (ℕ → A) → ℕ → A → ℕ → A
update f i v j = if j == i then v else f j

-- The members of `Event` that end in `update()`.
pub data MaskChange : Type 0 where
  reading writing error_event : Bool → MaskChange
  nothing : MaskChange

unfoldable pub change_mask : {C : Type 0} → MaskChange → Event C → Event C
change_mask (reading is_enable) e = Event.enable_reading is_enable e
change_mask (writing is_enable) e = Event.enable_writing is_enable e
change_mask (error_event is_enable) e = Event.enable_error_event is_enable e
change_mask nothing e = Event.disable_all e

module _ {E : Epoll} {C R : Type 0} where
  -- `make_shared<Event>(loop, fd)`: the new event and its number.
  unfoldable pub make_event : ℕ → Ctrl E C R → ℕ × Ctrl E C R
  make_event fd c = (
    c.next_event,
    record c {
      store = update c.store c.next_event (Event.create fd);
      next_event = c.next_event + 1;
    },
  )

  -- `Epoll::epollCtrl`.
  pub epoll_ctrl : CtlOp → ℕ → ℕ → Ctrl E C R → Bool × Ctrl E C R
  epoll_ctrl op fd events c =
      let (done, k) = E.ctl op fd events c.kernel in (done, record c { kernel = k })

  -- `Epoll::addEvent`, `modifyEvent` and the two `removeEvent`; the results are not looked at.
  pub epoll_add_event : ℕ → Ctrl E C R → Ctrl E C R
  epoll_add_event id c = (epoll_ctrl ctl_add (c.store id).event_fd (c.store id).events c).1

  pub epoll_modify_event : ℕ → Ctrl E C R → Ctrl E C R
  epoll_modify_event id c = (epoll_ctrl ctl_mod (c.store id).event_fd (c.store id).events c).1

  pub epoll_remove_event : ℕ → Ctrl E C R → Ctrl E C R
  epoll_remove_event id c = (epoll_ctrl ctl_del (c.store id).event_fd (c.store id).events c).1

  pub epoll_remove_fd : ℕ → Ctrl E C R → Ctrl E C R
  epoll_remove_fd fd c = (epoll_ctrl ctl_del fd 0 c).1

  -- `EventCtrl::addEvent`.
  pub add_event : ℕ → Ctrl E C R → Ctrl E C R
  add_event id c =
      epoll_add_event id
        (record c { event_pool = insert ℕ_discrete (c.store id).event_fd (some id) c.event_pool })

  -- `EventCtrl::deleteEvent(event)`.
  pub delete_event : ℕ → Ctrl E C R → Ctrl E C R
  delete_event id c =
      let d = epoll_remove_event id c in
      record d { event_pool = erase ℕ_discrete (d.store id).event_fd d.event_pool }

  -- `EventCtrl::modifyEvent(event)`.
  unfoldable pub modify_event : ℕ → Ctrl E C R → Ctrl E C R
  modify_event id c = elim (lookup ℕ_discrete (c.store id).event_fd c.event_pool) [
    | none ↦ c
    | some entry ↦ epoll_modify_event id c
  ]

  -- What `modifyEvent(fd)` does by the iterator that it finds.
  modify_found : Option (Option ℕ) → Ctrl E C R → Ctrl E C R
  modify_found none c = c
  modify_found (some none) c = c
  modify_found (some (some id)) c = epoll_modify_event id c

  -- `EventCtrl::modifyEvent(fd)`.
  pub modify_event_fd : ℕ → Ctrl E C R → Ctrl E C R
  modify_event_fd fd c = modify_found (lookup ℕ_discrete fd c.event_pool) c

  erase_fd : ℕ → Ctrl E C R → Ctrl E C R
  erase_fd fd c = record c { event_pool = erase ℕ_discrete fd c.event_pool }

  delete_found : Option (Option ℕ) → ℕ → Ctrl E C R → Ctrl E C R
  delete_found none fd c = c
  delete_found (some entry) fd c = erase_fd fd (epoll_remove_fd fd c)

  -- `EventCtrl::deleteEvent(fd)`.
  pub delete_event_fd : ℕ → Ctrl E C R → Ctrl E C R
  delete_event_fd fd c = delete_found (lookup ℕ_discrete fd c.event_pool) fd c

  -- A call of `enableReading`, `enableWriting`, `enableErrorEvent` or `disableAll` changes the mask,
  -- and `Event::update` then has the loop modify the event registered for the descriptor.
  pub update_event : MaskChange → ℕ → Ctrl E C R → Ctrl E C R
  update_event change id c =
      modify_event_fd (c.store id).event_fd
        (record c { store = update c.store id (change_mask change (c.store id)) })

  -- `Event::removeFromLoop`.
  unfoldable pub remove_from_loop : ℕ → Ctrl E C R → Ctrl E C R
  remove_from_loop id c = delete_event_fd (c.store id).event_fd c

  remove_all : List (ℕ × Option ℕ) → Ctrl E C R → Ctrl E C R
  remove_all [] c = c
  remove_all ((fd, entry) ∷ pool) c = remove_all pool (epoll_remove_fd fd c)

  -- `EventCtrl::~EventCtrl`.
  pub destroy : Ctrl E C R → Ctrl E C R
  destroy c = record (remove_all c.event_pool c) { event_pool = [] }

-- `waitAndRunHandler`; `run` is the effect of a callback.
module _ {E : Epoll} {C R : Type 0} (run : C → Ctrl E C R → Ctrl E C R) where
  pub run_entry : Option (Option ℕ) → ℕ → ℕ → Ctrl E C R → Ctrl E C R
  run_entry (some (some id)) fd events c = Event.handle (λ d. d.store id) run events c
  run_entry none fd events c = delete_event_fd fd c
  run_entry (some none) fd events c = delete_event_fd fd c

  -- One reported event: `eventPool[fd]` makes a null entry where there is none.
  pub run_active : ℕ × ℕ → Ctrl E C R → Ctrl E C R
  run_active (fd, events) c =
      run_entry (lookup ℕ_discrete fd c.event_pool) fd events
        (record c { event_pool = insert ℕ_discrete fd none c.event_pool })

  pub run_all_active : List (ℕ × ℕ) → Ctrl E C R → Ctrl E C R
  run_all_active [] c = c
  run_all_active (event ∷ active_events) c = run_all_active active_events (run_active event c)

  pub run_reported : Option (List (ℕ × ℕ)) → Ctrl E C R → Ctrl E C R
  run_reported none c = c
  run_reported (some active_events) c = run_all_active active_events c

  pub wait_and_run_handler : ℤ → Ctrl E C R → Ctrl E C R
  wait_and_run_handler time_ms c =
      let (reported, k) = E.wait (length c.event_pool) time_ms c.kernel in
      run_reported reported (record c { kernel = k })
