-- ===== src/Engine/OnFirstUse/Extending.antt =====
-- What changes of a loop's registry leave alone, and what it is to watch a descriptor: a new event that
-- is made, added and changed by src/event/event.cpp and src/event/eventCtrl.cpp.
use plugins_engine.Prelude.{
  ℕ, ◌+◌, ◌<◌, ◌≤◌, ◌≡◌, ◌≢◌, refl, sym, ap, ◌∙◌, subst, false, Option, none, some, ◌==◌, arith,
  ==_refl, ==_iff, Bool-cases, inl, inr,
}
use plugins_engine.Events.Epoll.{Epoll, IsReliable}
use plugins_engine.Events.Event.{Event, set_read_callback, enable_reading, with_flag}
use plugins_engine.Events.Event
use plugins_engine.Events.EventCtrl.{Ctrl, update, make_event, add_event}
use plugins_engine.Events.EventCtrl.Registry.{entry, interest, Agrees, Synced, add_event-Synced}
use plugins_engine.Events.EventCtrl.Adding.{add_event_other, add_event_fields}
use plugins_engine.Engine.FdMonitor.{set_callback}
use plugins_engine.Engine.FdMonitor.Modifying.{make_event-Synced}

abbrev pub Any : ℕ → Type 0
Any fd = Unit {0}

-- What holds of each `set…Callback`.
abbrev pub SetsCallback : {C : Type 0} → (Event C → Event C) → Type 0
SetsCallback {C} set = (e : Event C) → ((set e).event_fd ≡ e.event_fd) × ((set e).events ≡ e.events)

module _ {E : Epoll} {C R : Type 0} where
  -- The registry stays in step with the kernel, the events made before stay as they were, and so do
  -- the entries of the descriptors that are `Kept`.
  pub record Extends (Kept : ℕ → Type 0) (c d : Ctrl E C R) : Type 0 where
    pub synced : Synced d
    pub entries : (fd id : ℕ) → Kept fd → entry c fd ≡ some (some id) → entry d fd ≡ some (some id)
    pub events : (id : ℕ) → id < c.next_event → d.store id ≡ c.store id
    pub next : c.next_event ≤ d.next_event

  -- The event `id` is registered for `fd` with this read callback, and the kernel watches `fd` for
  -- just this mask.
  pub record Watches (c : Ctrl E C R) (fd id mask_value : ℕ) (handler : C) : Type 0 where
    pub registered : entry c fd ≡ some (some id)
    pub exists : id < c.next_event
    pub mask : (c.store id).events ≡ mask_value
    pub callback : (c.store id).read_callback ≡ some handler

  pub Extends-Watches :
      (Kept : ℕ → Type 0) (c d : Ctrl E C R) (fd id mask_value : ℕ) (handler : C)
      → Extends Kept c d
      → Kept fd
      → Watches c fd id mask_value handler
      → Watches d fd id mask_value handler
  Extends-Watches Kept c d fd id mask_value handler x kept w =
      let same : d.store id ≡ c.store id = x.events id w.exists in
      record {
        registered = x.entries fd id kept w.registered;
        exists = omega (arith, x.next, w.exists);
        mask = ap (λ e. e.events) same ∙ w.mask;
        callback = ap (λ e. e.read_callback) same ∙ w.callback;
      }

  pub Watches-interest :
      (c : Ctrl E C R) (fd id mask_value : ℕ) (handler : C)
      → Synced c
      → Watches c fd id mask_value handler
      → interest c fd ≡ some mask_value
  Watches-interest c fd id mask_value handler v w =
      let (lt, name, agreed) =
        subst (λ o. Agrees c.next_event c.store fd o (interest c fd)) w.registered (v fd) in
      agreed ∙ ap some w.mask

  set_callback-Agrees :
      (set : Event C → Event C) (c : Ctrl E C R) (id fd : ℕ) (o : Option (Option ℕ))
      (mask : Option ℕ)
      → SetsCallback set
      → Agrees c.next_event c.store fd o mask
      → Agrees c.next_event (update c.store id (set (c.store id))) fd o mask
  set_callback-Agrees set c id fd none mask keeps v = v
  set_callback-Agrees set c id fd (some none) mask keeps v = v
  set_callback-Agrees set c id fd (some (some j)) mask keeps (lt, name, agreed) =
      elim (Bool-cases (j == id)) [
        | inl p ↦
            let same : id ≡ j = sym ((==_iff j id).0 p) in
            rw p (
              lt,
              (keeps (c.store id)).0 ∙ rw same name,
              agreed
                  ∙ ap (λ k. some (c.store k).events) (sym same)
                  ∙ ap some (sym (keeps (c.store id)).1),
            )
        | inr p ↦ rw p (lt, name, agreed)
      ]

  -- Setting a callback touches no mask.
  pub set_callback-Synced :
      (set : Event C → Event C) (c : Ctrl E C R) (id : ℕ)
      → SetsCallback set
      → Synced c
      → Synced (set_callback set id c)
  unfolding set_callback
  set_callback-Synced set c id keeps v fd =
      set_callback-Agrees set c id fd (entry c fd) (interest c fd) keeps (v fd)

  module _ (c : Ctrl E C R) (fd : ℕ) where
    unfoldable pub added_event : Ctrl E C R
    added_event = add_event c.next_event (make_event fd c).1

    -- Behind `addEvent` of the event made.
    pub record Added : Type 0 where
      pub synced : Synced added_event
      pub entries :
          (other id : ℕ) → entry c other ≡ some (some id) → entry added_event other ≡ some (some id)
      pub others : (other : ℕ) → fd ≢ other → entry added_event other ≡ entry c other
      pub here : entry added_event fd ≡ some (some c.next_event)
      pub events : (id : ℕ) → id < c.next_event → added_event.store id ≡ c.store id
      pub event : added_event.store c.next_event ≡ Event.create fd
      pub next : added_event.next_event ≡ c.next_event + 1

    pub add_made : IsReliable E → Synced c → entry c fd ≡ none → Added
    unfolding added_event make_event
    add_made rel v free = record {
      synced = done.0;
      entries = λ other id e. add_event_other made c.next_event other (other_fd other id e) ∙ e;
      others = λ other ne. add_event_other made c.next_event other (λ p. ne (sym named ∙ p));
      here = rw named at (done.1);
      events = λ id lt.
          let old : (id == c.next_event) ≡ false = ground arith in
          ap (λ f. f id) (add_event_fields made c.next_event).0 ∙ rw old refl;
      event =
          ap (λ f. f c.next_event) (add_event_fields made c.next_event).0
          ∙ rw (==_refl c.next_event) refl;
      next = (add_event_fields made c.next_event).1;
    }
      where
        made : Ctrl E C R
        made = (make_event fd c).1

        named : (made.store c.next_event).event_fd ≡ fd
        named = rw (==_refl c.next_event) (unfold Event.create in refl)

        done :
            Synced (add_event c.next_event made)
            × (entry (add_event c.next_event made) (made.store c.next_event).event_fd
                ≡ some (some c.next_event))
            × (interest (add_event c.next_event made) (made.store c.next_event).event_fd
                ≡ some (made.store c.next_event).events)
        done =
            add_event-Synced made c.next_event rel (make_event-Synced c fd v) (omega arith)
              (rw named free)

        other_fd :
            (other id : ℕ)
            → entry c other ≡ some (some id)
            → (made.store c.next_event).event_fd ≢ other
        other_fd other id e p =
            let taken : none ≡ some (some id) = sym free ∙ ap (entry c) (sym named ∙ p) ∙ e in
            cc taken

    -- Behind any changes of its event that end in such an event.
    pub enabled :
        (d : Ctrl E C R) (e : Event C) (mask_value : ℕ) (handler : C)
        → Added
        → Synced d
        → d.event_pool ≡ added_event.event_pool
        → d.next_event ≡ added_event.next_event
        → ((id : ℕ) → (id == c.next_event) ≡ false → d.store id ≡ added_event.store id)
        → d.store c.next_event ≡ e
        → e.events ≡ mask_value
        → e.read_callback ≡ some handler
        → Extends Any c d × Watches d fd c.next_event mask_value handler
    enabled d e mask_value handler a v pool next others store mask callback = (
      record {
        synced = v;
        entries = λ other id kept old. rw pool (a.entries other id old);
        events = λ id lt.
            let other : (id == c.next_event) ≡ false = ground arith in
            others id other ∙ a.events id lt;
        next = omega (arith, next, a.next);
      },
      record {
        registered = rw pool a.here;
        exists = omega (arith, next, a.next);
        mask = ap (λ f. f.events) store ∙ mask;
        callback = ap (λ f. f.read_callback) store ∙ callback;
      },
    )
