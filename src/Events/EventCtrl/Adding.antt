-- ===== src/Events/EventCtrl/Adding.antt =====
-- What `addEvent` of src/event/eventCtrl.cpp leaves alone.
use plugins_engine.Prelude.{ℕ, ◌≡◌, ◌≢◌, refl, ◌∙◌, Option, none, some, ℕ_discrete}
use mathlib.Core.Logic.{if_neg}
use plugins_engine.Prelude.Assoc.{lookup, lookup-insert}
use plugins_engine.Events.Epoll.{Epoll}
use plugins_engine.Events.EventCtrl.{
  Ctrl, MaskChange, epoll_ctrl, epoll_add_event, epoll_modify_event, add_event, modify_found,
  modify_event_fd, update_event,
}
use plugins_engine.Events.EventCtrl.Registry.{entry}

module _ {E : Epoll} {C R : Type 0} where
  -- `addEvent` leaves the entries of other descriptors.
  pub add_event_other :
      (c : Ctrl E C R) (id fd : ℕ)
      → (c.store id).event_fd ≢ fd
      → entry (add_event id c) fd ≡ entry c fd
  unfolding add_event epoll_add_event epoll_ctrl
  add_event_other c id fd ne =
      lookup-insert ℕ_discrete (c.store id).event_fd fd (some id) c.event_pool
      ∙ if_neg (ℕ_discrete (c.store id).event_fd fd) ne _ _

  pub add_event_fields :
      (c : Ctrl E C R) (id : ℕ)
      → ((add_event id c).store ≡ c.store) × ((add_event id c).next_event ≡ c.next_event)
  unfolding add_event epoll_add_event epoll_ctrl
  add_event_fields c id = (refl, refl)

  pub rest-add_event : (c : Ctrl E C R) (id : ℕ) → (add_event id c).rest ≡ c.rest
  unfolding add_event epoll_add_event epoll_ctrl
  rest-add_event c id = refl

  rest-modify_found : (o : Option (Option ℕ)) (c : Ctrl E C R) → (modify_found o c).rest ≡ c.rest
  unfolding modify_found epoll_modify_event epoll_ctrl
  rest-modify_found none c = refl
  rest-modify_found (some none) c = refl
  rest-modify_found (some (some id)) c = refl

  pub rest-update_event :
      (c : Ctrl E C R) (change : MaskChange) (id : ℕ) → (update_event change id c).rest ≡ c.rest
  unfolding update_event modify_event_fd
  rest-update_event c change id =
      rest-modify_found (lookup ℕ_discrete (c.store id).event_fd c.event_pool) _
