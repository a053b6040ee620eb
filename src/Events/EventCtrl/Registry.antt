-- ===== src/Events/EventCtrl/Registry.antt =====
-- The registry of src/event/eventCtrl.cpp and the kernel agree.
use plugins_engine.Prelude.{
  ℕ, ◌<◌, ◌≡◌, ◌≢◌, refl, sym, ap, ◌∙◌, Option, none, some, ℕ_discrete, arith, ◌==◌, subst,
  Bool-cases, ==_iff, ==_refl, inl, inr,
}
use mathlib.Core.Logic.{if_neg}
use plugins_engine.Prelude.Assoc.{lookup, lookup-insert}
use plugins_engine.Events.Epoll.{Epoll, IsReliable, ctl_add, ctl_mod}
use plugins_engine.Events.Event.{
  Event, enable_reading, enable_writing, enable_error_event, disable_all,
}
use plugins_engine.Events.EventCtrl.{
  Ctrl, MaskChange, reading, writing, error_event, nothing, change_mask, update, epoll_ctrl,
  epoll_add_event, epoll_modify_event, add_event, modify_found, modify_event_fd, update_event,
}

-- What holds of a descriptor, by its entry, and by the mask that the kernel has for it: an entry's
-- event exists, is for this descriptor, and the kernel waits for exactly its mask; with no entry it
-- waits for nothing; no entry is null.
abbrev pub Agrees : {C : Type 0} → ℕ → (ℕ → Event C) → ℕ → Option (Option ℕ) → Option ℕ → Type 0
Agrees next store fd none mask = mask ≡ none
Agrees next store fd (some none) mask = ⊥
Agrees next store fd (some (some id)) mask =
    (id < next) × ((store id).event_fd ≡ fd) × (mask ≡ some (store id).events)

pub event_fd-change_mask :
    {C : Type 0} (change : MaskChange) (e : Event C) → (change_mask change e).event_fd ≡ e.event_fd
unfolding change_mask enable_reading enable_writing enable_error_event disable_all
event_fd-change_mask (reading b) e = refl
event_fd-change_mask (writing b) e = refl
event_fd-change_mask (error_event b) e = refl
event_fd-change_mask nothing e = refl

module _ {E : Epoll} {C R : Type 0} where
  abbrev pub entry : Ctrl E C R → ℕ → Option (Option ℕ)
  entry c fd = lookup ℕ_discrete fd c.event_pool

  abbrev pub interest : Ctrl E C R → ℕ → Option ℕ
  interest c fd = E.interest c.kernel fd

  abbrev pub Synced : Ctrl E C R → Type 0
  Synced c = (fd : ℕ) → Agrees c.next_event c.store fd (entry c fd) (interest c fd)

  -- `addEvent` of an event whose descriptor is not registered registers it, in the pool and with the
  -- kernel, and keeps the two in step.
  pub add_event-Synced :
      (c : Ctrl E C R) (id : ℕ)
      → IsReliable E
      → Synced c
      → id < c.next_event
      → entry c (c.store id).event_fd ≡ none
      → Synced (add_event id c)
        × (entry (add_event id c) (c.store id).event_fd ≡ some (some id))
        × (interest (add_event id c) (c.store id).event_fd ≡ some (c.store id).events)
  unfolding add_event epoll_add_event epoll_ctrl
  add_event-Synced c id rel v lt e = (synced, here, there)
    where
      fd : ℕ
      fd = (c.store id).event_fd

      mask : ℕ
      mask = (c.store id).events

      free : interest c fd ≡ none
      free = subst (λ o. Agrees c.next_event c.store fd o (interest c fd)) e (v fd)

      here : entry (add_event id c) fd ≡ some (some id)
      here = lookup-insert ℕ_discrete fd fd (some id) c.event_pool ∙ ground (arith, e)

      there : interest (add_event id c) fd ≡ some mask
      there = E.ctl_success ctl_add fd mask c.kernel (rel.adds fd mask c.kernel free)

      synced : Synced (add_event id c)
      synced other = elim (ℕ_discrete fd other) [
        | yes p ↦
            subst
              (λ x.
                Agrees c.next_event c.store x (entry (add_event id c) x)
                  (interest (add_event id c) x))
              p (rw (here, there) (lt, refl, refl))
        | no p ↦
            rw
              (
                lookup-insert ℕ_discrete fd other (some id) c.event_pool,
                if_neg (ℕ_discrete fd other) p,
                E.ctl_other ctl_add fd mask other c.kernel (λ q. p (sym q)),
              )
              (v other)
      ]

  -- The store after a change of the event `id`.
  abbrev pub changed : Ctrl E C R → MaskChange → ℕ → ℕ → Event C
  changed c change id = update c.store id (change_mask change (c.store id))

  pub event_fd-changed :
      (c : Ctrl E C R) (change : MaskChange) (id j : ℕ)
      → (changed c change id j).event_fd ≡ (c.store j).event_fd
  event_fd-changed c change id j = elim (Bool-cases (j == id)) [
    | inl p ↦
        let q : j ≡ id = (==_iff j id).0 p in
        rw p (event_fd-change_mask change (c.store id) ∙ ap (λ k. (c.store k).event_fd) (sym q))
    | inr p ↦ rw p
  ]

  -- A descriptor other than that of the changed event agrees as before.
  changed-Agrees :
      (c : Ctrl E C R) (change : MaskChange) (id other : ℕ) (o : Option (Option ℕ))
      (mask : Option ℕ)
      → other ≢ (c.store id).event_fd
      → Agrees c.next_event c.store other o mask
      → Agrees c.next_event (changed c change id) other o mask
  changed-Agrees c change id other none mask ne v = v
  changed-Agrees c change id other (some none) mask ne v = v
  changed-Agrees c change id other (some (some j)) mask ne (lt, name, agreed) =
      elim (Bool-cases (j == id)) [
        | inl p ↦ absurd (ne (sym name ∙ ap (λ k. (c.store k).event_fd) ((==_iff j id).0 p)))
        | inr p ↦ rw p (lt, name, agreed)
      ]

  -- The kernel's part of `epoll.modifyEvent` for a registered descriptor.
  pub epoll_modify_event_here :
      (c : Ctrl E C R) (id fd : ℕ)
      → IsReliable E
      → (c.store id).event_fd ≡ fd
      → (old : ℕ) → interest c fd ≡ some old
      → interest (epoll_modify_event id c) fd ≡ some (c.store id).events
  unfolding epoll_modify_event epoll_ctrl
  epoll_modify_event_here c id fd rel name old there = rw name (
      E.ctl_success ctl_mod fd (c.store id).events c.kernel
        (rel.modifies fd (c.store id).events old c.kernel there))

  epoll_modify_event_other :
      (c : Ctrl E C R) (id other : ℕ)
      → other ≢ (c.store id).event_fd
      → interest (epoll_modify_event id c) other ≡ interest c other
  unfolding epoll_modify_event epoll_ctrl
  epoll_modify_event_other c id other ne =
      E.ctl_other ctl_mod (c.store id).event_fd (c.store id).events other c.kernel ne

  module _ (c : Ctrl E C R) (change : MaskChange) (id : ℕ) where
    abbrev pub fd_of : ℕ
    fd_of = (c.store id).event_fd

    abbrev changed_ctrl : Ctrl E C R
    changed_ctrl = record c { store = changed c change id }

    -- At the descriptor of the changed event.
    modify_found_here :
        (o : Option (Option ℕ))
        → IsReliable E
        → Agrees c.next_event c.store fd_of o (interest c fd_of)
        → Agrees c.next_event
            (changed c change id)
            fd_of
            o
            (interest (modify_found o changed_ctrl) fd_of)
    unfolding modify_found
    modify_found_here none rel v = v
    modify_found_here (some none) rel v = v
    modify_found_here (some (some j)) rel (lt, name, agreed) =
        let name' : (changed c change id j).event_fd ≡ fd_of =
          event_fd-changed c change id j ∙ name in
        (
          lt,
          name',
          epoll_modify_event_here changed_ctrl j fd_of rel name' (c.store j).events agreed,
        )

    modify_found_other :
        (o : Option (Option ℕ)) (other : ℕ) (mask : Option ℕ)
        → Agrees c.next_event c.store fd_of o mask
        → other ≢ fd_of
        → interest (modify_found o changed_ctrl) other ≡ interest c other
    unfolding modify_found
    modify_found_other none other mask v ne = refl
    modify_found_other (some none) other mask v ne = refl
    modify_found_other (some (some j)) other mask (lt, name, agreed) ne =
        epoll_modify_event_other changed_ctrl j other
          (λ p. ne (p ∙ event_fd-changed c change id j ∙ name))

    event_pool-modify_found :
        (o : Option (Option ℕ)) (d : Ctrl E C R) → (modify_found o d).event_pool ≡ d.event_pool
    unfolding modify_found epoll_modify_event epoll_ctrl
    event_pool-modify_found none d = refl
    event_pool-modify_found (some none) d = refl
    event_pool-modify_found (some (some j)) d = refl

    store-modify_found :
        (o : Option (Option ℕ)) (d : Ctrl E C R)
        → ((modify_found o d).store ≡ d.store) × ((modify_found o d).next_event ≡ d.next_event)
    unfolding modify_found epoll_modify_event epoll_ctrl
    store-modify_found none d = (refl, refl)
    store-modify_found (some none) d = (refl, refl)
    store-modify_found (some (some j)) d = (refl, refl)

    -- Each `enable…` and `disableAll`, of an event registered or not, keeps the registry and the
    -- kernel in step.
    pub update_event-Synced : IsReliable E → Synced c → Synced (update_event change id c)
    unfolding update_event modify_event_fd
    update_event-Synced rel v other =
        let o : Option (Option ℕ) = entry c fd_of in
        rw
          (
            event_pool-modify_found o changed_ctrl,
            (store-modify_found o changed_ctrl).0,
            (store-modify_found o changed_ctrl).1,
          )
          (elim (ℕ_discrete fd_of other) [
            | yes p ↦
                subst
                  (λ x.
                    Agrees c.next_event (changed c change id) x (entry c x)
                      (interest (modify_found o changed_ctrl) x))
                  p (modify_found_here o rel (v fd_of))
            | no p ↦
                let ne : other ≢ fd_of = λ q. p (sym q) in
                rw (modify_found_other o other (interest c fd_of) (v fd_of) ne)
                  (changed-Agrees c change id other (entry c other) (interest c other) ne (v other))
          ])

    -- The kernel hears of the new mask of a registered event, and the entries stay.
    pub update_event-interest :
        IsReliable E
        → Synced c
        → entry c fd_of ≡ some (some id)
        → (interest (update_event change id c) fd_of
            ≡ some (change_mask change (c.store id)).events)
          × ((update_event change id c).event_pool ≡ c.event_pool)
    unfolding update_event modify_event_fd
    update_event-interest rel v e =
        let here : Agrees c.next_event (changed c change id) fd_of (some (some id))
            (interest (modify_found (some (some id)) changed_ctrl) fd_of) =
          modify_found_here (some (some id)) rel
            (subst (λ o. Agrees c.next_event c.store fd_of o (interest c fd_of)) e (v fd_of)) in
        rw e (here.2 ∙ rw (==_refl id) refl, event_pool-modify_found (some (some id)) changed_ctrl)

    -- What a change of a mask does outside the kernel.
    pub update_event_fields :
        ((update_event change id c).event_pool ≡ c.event_pool)
        × ((update_event change id c).store ≡ changed c change id)
        × ((update_event change id c).next_event ≡ c.next_event)
    unfolding update_event modify_event_fd
    update_event_fields = (
      event_pool-modify_found (entry c fd_of) changed_ctrl,
      (store-modify_found (entry c fd_of) changed_ctrl).0,
      (store-modify_found (entry c fd_of) changed_ctrl).1,
    )
