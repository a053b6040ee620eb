-- ===== src/Events/EventCtrl/Keeping.antt =====
-- What `waitAndRunHandler` of src/event/eventCtrl.cpp does with the rest of the state, which only the
-- callbacks touch.
use plugins_engine.Prelude.{ℕ, Option, none, some, List, [], ◌∷◌, ℕ_discrete, length}
use plugins_engine.Prelude.Int.{ℤ}
use plugins_engine.Prelude.Assoc.{insert, lookup}
use plugins_engine.Events.Epoll.{Epoll}
use plugins_engine.Events.Event.Dispatch.{handle_keeps}
use plugins_engine.Events.EventCtrl.{
  Ctrl, epoll_ctrl, epoll_remove_fd, erase_fd, delete_found, delete_event_fd, run_entry, run_active,
  run_all_active, run_reported, wait_and_run_handler,
}

module _ {ℓ} {E : Epoll} {C R : Type 0} (P : R → Type ℓ) (run : C → Ctrl E C R → Ctrl E C R)
    (keeps : (cb : C) (d : Ctrl E C R) → P d.rest → P (run cb d).rest) where
  delete_found_keeps :
      (found : Option (Option ℕ)) (fd : ℕ) (c : Ctrl E C R)
      → P c.rest
      → P (delete_found found fd c).rest
  unfolding delete_found erase_fd epoll_remove_fd epoll_ctrl
  delete_found_keeps none fd c h = h
  delete_found_keeps (some entry) fd c h = h

  run_entry_keeps :
      (found : Option (Option ℕ)) (fd events : ℕ) (c : Ctrl E C R)
      → P c.rest
      → P (run_entry run found fd events c).rest
  unfolding run_entry delete_event_fd
  run_entry_keeps (some (some id)) fd events c h =
      handle_keeps (λ (d : Ctrl E C R). P d.rest) (λ d. d.store id) run keeps events c h
  run_entry_keeps none fd events c h = delete_found_keeps (lookup ℕ_discrete fd c.event_pool) fd c h
  run_entry_keeps (some none) fd events c h =
      delete_found_keeps (lookup ℕ_discrete fd c.event_pool) fd c h

  run_all_active_keeps :
      (active_events : List (ℕ × ℕ)) (c : Ctrl E C R)
      → P c.rest
      → P (run_all_active run active_events c).rest
  unfolding run_all_active run_active
  run_all_active_keeps [] c h = h
  run_all_active_keeps ((fd, events) ∷ active_events) c h = run_all_active_keeps active_events _ (
      run_entry_keeps (lookup ℕ_discrete fd c.event_pool) fd events
        (record c { event_pool = insert ℕ_discrete fd none c.event_pool }) h)

  run_reported_keeps :
      (reported : Option (List (ℕ × ℕ))) (c : Ctrl E C R)
      → P c.rest
      → P (run_reported run reported c).rest
  unfolding run_reported
  run_reported_keeps none c h = h
  run_reported_keeps (some active_events) c h = run_all_active_keeps active_events c h

  -- A property of the rest that each callback keeps is kept by one turn.
  pub wait_and_run_handler_keeps :
      (time_ms : ℤ) (c : Ctrl E C R) → P c.rest → P (wait_and_run_handler run time_ms c).rest
  unfolding wait_and_run_handler
  wait_and_run_handler_keeps time_ms c h =
      run_reported_keeps (E.wait (length c.event_pool) time_ms c.kernel).0 _ h
