-- ===== src/Engine/OnFirstUse/Registering.antt =====
-- What the constructors of the services that src/engine/engine.cpp makes, and the calls of its
-- descriptor monitor, do to the registry of the loop.
use plugins_engine.Prelude.{ℕ, ◌≡◌, ◌≢◌, refl, sym, ap, ◌∙◌, true, none, some, arith, ==_refl}
use plugins_engine.Events.Epoll.{Epoll, IsReliable}
use plugins_engine.Events.Event.{Event, set_read_callback, enable_reading, with_flag}
use plugins_engine.Events.Event
use plugins_engine.Events.EventCtrl.{Ctrl, reading, change_mask, make_event, update_event}
use plugins_engine.Events.EventCtrl.Registry.{
  entry, Synced, update_event-Synced, update_event_fields,
}
use plugins_engine.Events.EventCtrl.Removal.{
  delete_event_fd-Synced, delete_event_fd_other, delete_event_fd_fields,
}
use plugins_engine.Engine.FdMonitor.{set_callback, add_fd, remove_fd}
use plugins_engine.Engine.FdMonitor.Adding.{add_fd-Synced, add_fd_keeps}
use plugins_engine.Engine.OnFirstUse.{enable_and_set, set_and_enable}
use plugins_engine.Engine.OnFirstUse.Extending.{
  Any, Extends, Watches, set_callback-Synced, added_event, Added, add_made, enabled,
}

module _ {E : Epoll} {C R : Type 0} where
  module _ (c : Ctrl E C R) (fd : ℕ) where
    -- The constructor of `EventFD` registers its descriptor for reading, with its own handler, and
    -- leaves the rest of the registry as it was.
    pub enable_and_set-Watches :
        (handler : C)
        → IsReliable E
        → Synced c
        → entry c fd ≡ none
        → Extends Any c (enable_and_set handler fd c)
          × Watches (enable_and_set handler fd c) fd c.next_event 3 handler
    unfolding enable_and_set make_event set_callback added_event set_read_callback change_mask
        enable_reading with_flag Event.create
    enable_and_set-Watches handler rel v free =
        let a : Added c fd = add_made c fd rel v free in
        let d : Ctrl E C R = update_event (reading true) c.next_event (added_event c fd) in
        let fields = update_event_fields (added_event c fd) (reading true) c.next_event in
        enabled c fd (set_callback (set_read_callback handler) c.next_event d)
          (set_read_callback handler (d.store c.next_event)) 3 handler a
          (set_callback-Synced (set_read_callback handler) d c.next_event (λ e. (refl, refl))
            (update_event-Synced (added_event c fd) (reading true) c.next_event rel a.synced))
          fields.0 fields.2 (λ id other. rw other (ap (λ f. f id) fields.1 ∙ rw other refl))
          (rw (==_refl c.next_event) refl)
          (ap (λ f. (f c.next_event).events) fields.1 ∙ rw (==_refl c.next_event, a.event) refl)
          refl

    -- So do those of `TimerQueue` and `SignalMonitor`.
    pub set_and_enable-Watches :
        (handler : C)
        → IsReliable E
        → Synced c
        → entry c fd ≡ none
        → Extends Any c (set_and_enable handler fd c)
          × Watches (set_and_enable handler fd c) fd c.next_event 3 handler
    unfolding set_and_enable make_event set_callback added_event set_read_callback change_mask
        enable_reading with_flag Event.create
    set_and_enable-Watches handler rel v free =
        let a : Added c fd = add_made c fd rel v free in
        let d : Ctrl E C R =
          set_callback (set_read_callback handler) c.next_event (added_event c fd) in
        let fields = update_event_fields d (reading true) c.next_event in
        enabled c fd (update_event (reading true) c.next_event d)
          (change_mask (reading true) (d.store c.next_event)) 3 handler a
          (update_event-Synced d (reading true) c.next_event rel (
            set_callback-Synced (set_read_callback handler) (added_event c fd) c.next_event
              (λ e. (refl, refl)) a.synced))
          fields.0 fields.2 (λ id other. ap (λ f. f id) fields.1 ∙ rw other refl)
          (ap (λ f. f c.next_event) fields.1 ∙ rw (==_refl c.next_event) refl)
          (rw (==_refl c.next_event, a.event) refl) (rw (==_refl c.next_event) refl)

    -- `addFd` of a plugin leaves the other entries, and the events made before, as they were.
    pub add_fd-Extends :
        (events : ℕ) (handler : C)
        → IsReliable E
        → Synced c
        → entry c fd ≡ none
        → Extends Any c (add_fd fd events handler c)
    add_fd-Extends events handler rel v free =
        let kept = add_fd_keeps c fd events handler rel v in
        record {
          synced = (add_fd-Synced c fd events handler rel v free).0;
          entries = λ other id any e.
              let differ : fd ≢ other = λ p.
                let taken : none ≡ some (some id) = sym free ∙ ap (entry c) p ∙ e in cc taken in
              kept.0 other differ ∙ e;
          events = kept.1;
          next = omega (arith, kept.2);
        }

    -- `removeFd` leaves the entries of the other descriptors.
    pub remove_fd-Extends :
        IsReliable E → Synced c → Extends (λ other. other ≢ fd) c (remove_fd fd c)
    unfolding remove_fd
    remove_fd-Extends rel v =
        let fields = delete_event_fd_fields c fd in
        record {
          synced = (delete_event_fd-Synced c fd rel v).0;
          entries = λ other id ne e. delete_event_fd_other c fd other (λ p. ne (sym p)) ∙ e;
          events = λ id lt. ap (λ f. f id) fields.0;
          next = omega (arith, fields.1);
        }
