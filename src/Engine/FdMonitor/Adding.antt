-- ===== src/Engine/FdMonitor/Adding.antt =====
-- What `Engine::addFd` and `removeFd` of src/engine/engine.cpp register.
use plugins_engine.Prelude.{
  ℕ, ◌+◌, ◌<◌, ◌≡◌, ◌≢◌, refl, sym, ap, ◌∙◌, ℕ_discrete, Bool, true, false, Option, none, some,
  ◌==◌, if◌then◌else◌, arith, Bool-cases, ==_iff, ==_refl, inl, inr,
}
use plugins_engine.Prelude.Assoc.{lookup}
use plugins_engine.Events.Epoll.{Epoll, IsReliable}
use plugins_engine.Events.Event.{
  Event, epoll_in, epoll_out, epoll_err, set_read_callback, set_write_callback, set_error_callback,
  with_flag, enable_reading, enable_writing, enable_error_event,
}
use plugins_engine.Events.Event
use plugins_engine.Events.EventCtrl.{
  Ctrl, MaskChange, reading, writing, error_event, update, make_event, add_event, update_event,
  change_mask,
}
use plugins_engine.Events.EventCtrl.Registry.{
  entry, interest, Agrees, Synced, changed, add_event-Synced, update_event-Synced,
  update_event_fields,
}
use plugins_engine.Events.EventCtrl.Adding.{add_event_other, add_event_fields}
use plugins_engine.Engine.FdMonitor.{set_callback, when_events, prepare_event, add_fd}
use plugins_engine.Engine.FdMonitor.Modifying.{make_event-Synced}

-- The event after the test, if `hit` is its outcome.
abbrev pub stepped : {C : Type 0} → Bool → (Event C → Event C) → MaskChange → Event C → Event C
stepped true set change e = change_mask change (set e)
stepped false set change e = e

-- The event that `addFd` builds: by its flag one callback and one bit group, or neither.
abbrev pub built : {C : Type 0} → C → ℕ → ℕ → Event C
built handler fd events =
    stepped (events == epoll_err) (set_error_callback handler) (error_event true) (
      stepped (events == epoll_out) (set_write_callback handler) (writing true)
        (stepped (events == epoll_in) (set_read_callback handler) (reading true) (Event.create fd)))

-- The mask that `addFd` registers: nothing but for a single flag.
abbrev pub expected_mask : ℕ → ℕ
expected_mask events =
    if events == epoll_in
    then 3
    else if events == epoll_out
    then 4
    else if events == epoll_err
    then 8
    else 0

built_fields :
    {C : Type 0} (handler : C) (fd events : ℕ)
    → ((built handler fd events).event_fd ≡ fd)
      × ((built handler fd events).events ≡ expected_mask events)
unfolding change_mask set_read_callback set_write_callback set_error_callback enable_reading
    enable_writing enable_error_event with_flag Event.create
built_fields handler fd events = ground arith

module _ {E : Epoll} {C R : Type 0} where
  -- An event that no entry has may change without the registry falling out of step.
  abbrev IsLoose : Ctrl E C R → ℕ → Type 0
  IsLoose c id = (fd : ℕ) → entry c fd ≢ some (some id)

  loose_Agrees :
      (c : Ctrl E C R) (id : ℕ) (e : Event C) (fd : ℕ) (o : Option (Option ℕ)) (mask : Option ℕ)
      → o ≢ some (some id)
      → Agrees c.next_event c.store fd o mask
      → Agrees c.next_event (update c.store id e) fd o mask
  loose_Agrees c id e fd none mask ne v = v
  loose_Agrees c id e fd (some none) mask ne v = v
  loose_Agrees c id e fd (some (some j)) mask ne (lt, name, agreed) = elim (Bool-cases (j == id)) [
    | inl p ↦ absurd (ne (ap (λ k. some (some k)) ((==_iff j id).0 p)))
    | inr p ↦ rw p (lt, name, agreed)
  ]

  -- What a preparation step keeps, and the event that it leaves.
  record Prepared (c : Ctrl E C R) (id : ℕ) (d : Ctrl E C R) (e : Event C) : Type 0 where
    synced : Synced d
    entries : d.event_pool ≡ c.event_pool
    next : d.next_event ≡ c.next_event
    result : d.store id ≡ e
    others : (j : ℕ) → (j == id) ≡ false → d.store j ≡ c.store j

  when_events-Prepared :
      (c d : Ctrl E C R) (id : ℕ) (e : Event C) (hit : Bool) (set : Event C → Event C)
      (change : MaskChange)
      → IsReliable E
      → IsLoose c id
      → Prepared c id d e
      → Prepared c id (when_events hit set change id d) (stepped hit set change e)
  unfolding when_events set_callback
  when_events-Prepared c d id e false set change rel loose p = p
  when_events-Prepared c d id e true set change rel loose p = record {
    synced = update_event-Synced d' change id rel with_callback;
    entries = fields.0 ∙ p.entries;
    next = fields.2 ∙ p.next;
    result = ap (λ f. f id) fields.1 ∙ rw (==_refl id, p.result) refl;
    others = λ j other. ap (λ f. f j) fields.1 ∙ rw other (p.others j other);
  }
    where
      d' : Ctrl E C R
      d' = set_callback set id d

      fields :
          ((update_event change id d').event_pool ≡ d.event_pool)
          × ((update_event change id d').store ≡ changed d' change id)
          × ((update_event change id d').next_event ≡ d.next_event)
      fields = update_event_fields d' change id

      with_callback : Synced d'
      with_callback fd =
          loose_Agrees d id (set (d.store id)) fd (entry d fd) (interest d fd)
            (rw p.entries (loose fd)) (p.synced fd)

  prepare_event-Prepared :
      (c : Ctrl E C R) (fd events : ℕ) (handler : C)
      → IsReliable E
      → Synced c
      → Prepared
          (make_event fd c).1
          c.next_event
          (prepare_event events handler c.next_event (make_event fd c).1)
          (built handler fd events)
  unfolding prepare_event make_event
  prepare_event-Prepared c fd events handler rel v = step _ _ (events == epoll_err) _ _ (
      step _ _ (events == epoll_out) _ _ (
        step _ _ (events == epoll_in) (set_read_callback handler) (reading true) (record {
          synced = make_event-Synced c fd v;
          entries = refl;
          next = refl;
          result = rw (==_refl c.next_event) refl;
          others = λ j other. refl;
        })))
    where
      made : Ctrl E C R
      made = (make_event fd c).1

      not_there :
          (o : Option (Option ℕ)) (other : ℕ)
          → Agrees c.next_event c.store other o (interest c other)
          → o ≢ some (some c.next_event)
      not_there none other w e = cc e
      not_there (some none) other w e = w
      not_there (some (some j)) other w e = ground arith

      step :
          (d : Ctrl E C R) (e : Event C) (hit : Bool) (set : Event C → Event C)
          (change : MaskChange)
          → Prepared made c.next_event d e
          → Prepared made c.next_event
              (when_events hit set change c.next_event d)
              (stepped hit set change e)
      step d e hit set change p =
          when_events-Prepared made d c.next_event e hit set change rel
            (λ other. not_there (entry c other) other (v other)) p

  -- `addFd` of a descriptor that is not registered registers a new event for it, with the mask of
  -- its flag if `events` is EVENT_IN, EVENT_OUT or EVENT_ERR alone, and with an empty mask for any
  -- other `events`; the registry and the kernel stay in step.
  pub add_fd-Synced :
      (c : Ctrl E C R) (fd events : ℕ) (handler : C)
      → IsReliable E
      → Synced c
      → entry c fd ≡ none
      → Synced (add_fd fd events handler c)
        × (entry (add_fd fd events handler c) fd ≡ some (some c.next_event))
        × (interest (add_fd fd events handler c) fd ≡ some (expected_mask events))
  unfolding add_fd make_event
  add_fd-Synced c fd events handler rel v free =
      (done.0, rw named at (done.1), rw named at (done.2) ∙ ap some masked)
    where
      d : Ctrl E C R
      d = prepare_event events handler c.next_event (make_event fd c).1

      p : Prepared (make_event fd c).1 c.next_event d (built handler fd events)
      p = prepare_event-Prepared c fd events handler rel v

      named : (d.store c.next_event).event_fd ≡ fd
      named = ap (λ e. e.event_fd) p.result ∙ (built_fields handler fd events).0

      masked : (d.store c.next_event).events ≡ expected_mask events
      masked = ap (λ e. e.events) p.result ∙ (built_fields handler fd events).1

      done :
          Synced (add_event c.next_event d)
          × (entry (add_event c.next_event d) (d.store c.next_event).event_fd
              ≡ some (some c.next_event))
          × (interest (add_event c.next_event d) (d.store c.next_event).event_fd
              ≡ some (d.store c.next_event).events)
      done =
          add_event-Synced d c.next_event rel p.synced (omega (arith, p.next))
            (rw (named, p.entries) free)

  -- It leaves the other entries and events as they were.
  pub add_fd_keeps :
      (c : Ctrl E C R) (fd events : ℕ) (handler : C)
      → IsReliable E
      → Synced c
      → ((other : ℕ) → fd ≢ other → entry (add_fd fd events handler c) other ≡ entry c other)
        × ((id : ℕ) → id < c.next_event → (add_fd fd events handler c).store id ≡ c.store id)
        × ((add_fd fd events handler c).next_event ≡ c.next_event + 1)
  unfolding add_fd make_event
  add_fd_keeps c fd events handler rel v = (
    λ other ne.
        add_event_other d c.next_event other (λ p. ne (sym named ∙ p))
        ∙ ap (lookup ℕ_discrete other) p.entries,
    λ id lt.
        let old : (id == c.next_event) ≡ false = ground arith in
        ap (λ f. f id) kept.0 ∙ p.others id old ∙ rw old refl,
    kept.1 ∙ p.next,
  )
    where
      d : Ctrl E C R
      d = prepare_event events handler c.next_event (make_event fd c).1

      p : Prepared (make_event fd c).1 c.next_event d (built handler fd events)
      p = prepare_event-Prepared c fd events handler rel v

      named : (d.store c.next_event).event_fd ≡ fd
      named = ap (λ e. e.event_fd) p.result ∙ (built_fields handler fd events).0

      kept :
          ((add_event c.next_event d).store ≡ d.store)
          × ((add_event c.next_event d).next_event ≡ d.next_event)
      kept = add_event_fields d c.next_event
