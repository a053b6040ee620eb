-- ===== src/Net/TcpConnect/Registration/Lifetime.antt =====
-- The descriptor of a connection of src/net/tcp/tcpConnect.cpp is watched while the connection lives.
use plugins_engine.Prelude.{
  ℕ, ◌≡◌, ◌≢◌, refl, ap, ◌∙◌, true, false, none, some, ◌==◌, ==_refl, List, [], ◌∷◌, ℕ_discrete,
}
use plugins_engine.Prelude.Assoc.{lookup}
use plugins_engine.Events.Epoll.{Epoll, IsReliable}
use plugins_engine.Events.Event.{
  Event, set_read_callback, set_write_callback, set_error_callback, set_close_callback,
  enable_reading, enable_error_event, with_flag,
}
use plugins_engine.Events.Event
use plugins_engine.Events.EventCtrl.{
  Ctrl, MaskChange, reading, error_event, nothing, change_mask, make_event, update_event,
  remove_from_loop,
}
use plugins_engine.Events.EventCtrl.Registry.{
  entry, interest, Synced, event_fd-change_mask, event_fd-changed, update_event-Synced,
  update_event_fields,
}
use plugins_engine.Events.EventCtrl.Removal.{delete_event_fd-Synced, delete_event_fd_other}
use plugins_engine.Engine.FdMonitor.{set_callback}
use plugins_engine.Engine.OnFirstUse.Extending.{
  Any, Extends, Watches, Watches-interest, set_callback-Synced, added_event, Added, add_made,
  enabled,
}
use plugins_engine.Net.TcpConnect.Registration.{
  Bound, set_callbacks, construct, enable_connected, destruct, mask_changes,
}

-- The event of a connection that is established.
abbrev pub connected_event : {C : Type 0} → Bound C → ℕ → Event C
connected_event bound fd = record {
  event_fd = fd;
  events = 11;
  read_callback = some (bound.read_event);
  write_callback = some (bound.write_event);
  error_callback = some (bound.error_event);
  close_callback = some (bound.close_event);
}

module _ {E : Epoll} {C R : Type 0} where
  -- Setting the four callbacks touches nothing else.
  record CallbacksSet (bound : Bound C) (id : ℕ) (c d : Ctrl E C R) : Type 0 where
    synced : Synced d
    entries : d.event_pool ≡ c.event_pool
    next : d.next_event ≡ c.next_event
    others : (j : ℕ) → (j == id) ≡ false → d.store j ≡ c.store j
    here : d.store id ≡ record (c.store id) {
      read_callback = some (bound.read_event);
      write_callback = some (bound.write_event);
      error_callback = some (bound.error_event);
      close_callback = some (bound.close_event);
    }

  set_callbacks-CallbacksSet :
      (bound : Bound C) (id : ℕ) (c : Ctrl E C R)
      → Synced c
      → CallbacksSet bound id c (set_callbacks bound id c)
  unfolding set_callbacks set_callback set_read_callback set_write_callback set_error_callback
      set_close_callback
  set_callbacks-CallbacksSet bound id c v = record {
    synced =
        let reads : Ctrl E C R = set_callback (set_read_callback bound.read_event) id c in
        let writes : Ctrl E C R = set_callback (set_write_callback bound.write_event) id reads in
        let errors : Ctrl E C R = set_callback (set_error_callback bound.error_event) id writes in
        let v1 : Synced reads =
          set_callback-Synced (set_read_callback bound.read_event) c id (λ e. (refl, refl)) v in
        let v2 : Synced writes =
          set_callback-Synced (set_write_callback bound.write_event) reads id (λ e. (refl, refl))
            v1 in
        let v3 : Synced errors =
          set_callback-Synced (set_error_callback bound.error_event) writes id (λ e. (refl, refl))
            v2 in
        set_callback-Synced (set_close_callback bound.close_event) errors id (λ e. (refl, refl)) v3;
    entries = refl;
    next = refl;
    others = λ j other. rw other refl;
    here = rw (==_refl id) refl;
  }

  -- An established connection has its descriptor registered, with its own event; the other entries
  -- and the events made before are left as they were.
  established :
      (bound : Bound C) (fd : ℕ) (c : Ctrl E C R)
      → IsReliable E
      → Synced c
      → entry c fd ≡ none
      → Extends Any c (enable_connected c.next_event (construct bound fd c).1)
        × Watches
            (enable_connected c.next_event (construct bound fd c).1)
            fd
            c.next_event
            11
            bound.read_event
        × ((enable_connected c.next_event (construct bound fd c).1).store c.next_event
            ≡ connected_event bound fd)
        × ((other : ℕ)
            → fd ≢ other
            → entry (enable_connected c.next_event (construct bound fd c).1) other ≡ entry c other)
  unfolding enable_connected construct make_event added_event change_mask enable_reading
      enable_error_event with_flag Event.create
  established bound fd c rel v free =
      let a : Added c fd = add_made c fd rel v free in
      let id : ℕ = c.next_event in
      let made : Ctrl E C R = (construct bound fd c).1 in
      let set : CallbacksSet bound id (added_event c fd) made =
        set_callbacks-CallbacksSet bound id (added_event c fd) a.synced in
      let read : Ctrl E C R = update_event (reading true) id made in
      let first = update_event_fields made (reading true) id in
      let second = update_event_fields read (error_event true) id in
      let built : Event C = record (connected_event bound fd) { events = 0 } in
      let zero : made.store id ≡ built =
        set.here
        ∙ ap {A = Event C} {B = Event C}
            (λ e. record e {
              read_callback = some (bound.read_event);
              write_callback = some (bound.write_event);
              error_callback = some (bound.error_event);
              close_callback = some (bound.close_event);
            })
            a.event in
      let one : read.store id ≡ change_mask (reading true) built =
        ap (λ f. f id) first.1 ∙ rw (==_refl id) (ap (change_mask (reading true)) zero) in
      let event : (enable_connected id made).store id ≡ connected_event bound fd =
        ap (λ f. f id) second.1 ∙ rw (==_refl id) (ap (change_mask (error_event true)) one) in
      let (x, w) =
        enabled c fd (enable_connected id made) (connected_event bound fd) 11 bound.read_event a
          (update_event-Synced read (error_event true) id rel
            (update_event-Synced made (reading true) id rel set.synced))
          (second.0 ∙ first.0 ∙ set.entries) (second.2 ∙ first.2 ∙ set.next)
          (λ j other.
            ap (λ f. f j) second.1
            ∙ rw other (ap (λ f. f j) first.1 ∙ rw other (set.others j other)))
          event refl refl in
      (
        x,
        w,
        event,
        λ other ne.
            ap (lookup ℕ_discrete other) (second.0 ∙ first.0 ∙ set.entries) ∙ a.others other ne,
      )

  -- What the destructor leaves: nothing of the connection, and the other entries as they were in `c`.
  pub record Gone (fd : ℕ) (c d : Ctrl E C R) : Type 0 where
    pub synced : Synced d
    pub unregistered : entry d fd ≡ none
    pub unwatched : interest d fd ≡ none
    pub entries : (other : ℕ) → fd ≢ other → entry d other ≡ entry c other

  destruct-Gone :
      (c : Ctrl E C R) (id fd : ℕ)
      → IsReliable E
      → Synced c
      → (c.store id).event_fd ≡ fd
      → Gone fd c (destruct id c)
  unfolding destruct remove_from_loop
  destruct-Gone c id fd rel v named =
      let quiet : Ctrl E C R = update_event nothing id c in
      let fields = update_event_fields c nothing id in
      let v' : Synced quiet = update_event-Synced c nothing id rel v in
      let same : (quiet.store id).event_fd ≡ fd =
        ap (λ f. (f id).event_fd) fields.1
        ∙ rw (==_refl id) (event_fd-change_mask nothing (c.store id) ∙ named) in
      let (synced, unregistered, unwatched) = delete_event_fd-Synced quiet fd rel v' in
      rw same (record {
        synced = synced;
        unregistered = unregistered;
        unwatched = unwatched;
        entries = λ other ne.
            delete_event_fd_other quiet fd other ne ∙ ap (lookup ℕ_discrete other) fields.0;
      })

  -- The changes of the mask in between.
  record Changed (id : ℕ) (c d : Ctrl E C R) : Type 0 where
    synced : Synced d
    named : (d.store id).event_fd ≡ (c.store id).event_fd
    entries : d.event_pool ≡ c.event_pool

  mask_changes-Changed :
      (changes : List MaskChange) (id : ℕ) (c : Ctrl E C R)
      → IsReliable E
      → Synced c
      → Changed id c (mask_changes changes id c)
  unfolding mask_changes
  mask_changes-Changed [] id c rel v = record { synced = v; named = refl; entries = refl }
  mask_changes-Changed (change ∷ changes) id c rel v =
      let d : Ctrl E C R = update_event change id c in
      let fields = update_event_fields c change id in
      let rest : Changed id d (mask_changes changes id d) =
        mask_changes-Changed changes id d rel (update_event-Synced c change id rel v) in
      record {
        synced = rest.synced;
        named = rest.named ∙ ap (λ f. (f id).event_fd) fields.1 ∙ event_fd-changed c change id id;
        entries = rest.entries ∙ fields.0;
      }

  -- In the life of a connection on a socket whose descriptor is not registered before: behind the
  -- constructor and `connectedHandle` the descriptor is registered with the connection's own event,
  -- which has its four handlers, and the kernel watches it for input and errors; and behind the
  -- destructor, whatever changes of the mask came in between, nothing of it is registered or watched,
  -- before the socket is closed. The registry and the kernel are in step, and the entries of the other
  -- descriptors are left as they were.
  pub destruct-construct :
      (bound : Bound C) (fd : ℕ) (changes : List MaskChange) (c : Ctrl E C R)
      → IsReliable E
      → Synced c
      → entry c fd ≡ none
      → (let id = (construct bound fd c).0 in
          let live = enable_connected id (construct bound fd c).1 in
          Extends Any c live
          × (entry live fd ≡ some (some id))
          × (live.store id ≡ connected_event bound fd)
          × (interest live fd ≡ some 11)
          × Gone fd c (destruct id (mask_changes changes id live)))
  unfolding construct make_event
  destruct-construct bound fd changes c rel v free =
      let id : ℕ = c.next_event in
      let live : Ctrl E C R = enable_connected id (construct bound fd c).1 in
      let (x, w, event, others) = established bound fd c rel v free in
      let m : Changed id live (mask_changes changes id live) =
        mask_changes-Changed changes id live rel x.synced in
      let gone : Gone fd (mask_changes changes id live)
          (destruct id (mask_changes changes id live)) =
        destruct-Gone (mask_changes changes id live) id fd rel m.synced
          (m.named ∙ ap (λ e. e.event_fd) event) in
      (
        x,
        w.registered,
        event,
        Watches-interest live fd id 11 bound.read_event x.synced w,
        record {
          synced = gone.synced;
          unregistered = gone.unregistered;
          unwatched = gone.unwatched;
          entries = λ other ne.
              gone.entries other ne ∙ ap (lookup ℕ_discrete other) m.entries ∙ others other ne;
        },
      )
