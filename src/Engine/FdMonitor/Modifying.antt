-- ===== src/Engine/FdMonitor/Modifying.antt =====
-- What `Engine::modifyFd` of src/engine/engine.cpp does to the masks that the kernel holds.
use plugins_engine.Prelude.{
  ℕ, ◌+◌, ◌<◌, ◌≡◌, ◌≢◌, refl, sym, ap, ◌∙◌, subst, ◌⊎◌, inl, inr, true, false, ◌||◌, if◌then◌else◌,
  Bool-cases, ==_iff, Option, none, some, ◌==◌, arith, ==_refl, ℕ_discrete,
}
use plugins_engine.Prelude.Assoc.{lookup}
use plugins_engine.Events.Epoll.{Epoll, IsReliable}
use plugins_engine.Events.Event.{Event, epoll_in, epoll_out, epoll_err}
use plugins_engine.Events.Event
use plugins_engine.Events.EventCtrl.{
  Ctrl, MaskChange, reading, writing, error_event, update, make_event, modify_event, update_event,
}
use plugins_engine.Events.EventCtrl.Registry.{
  entry, interest, Agrees, Synced, changed, update_event-Synced, update_event_fields,
  epoll_modify_event_here,
}
use plugins_engine.Engine.FdMonitor.{modify_fd}

-- The flags that `modifyFd` compares with.
abbrev pub IsSingle : ℕ → Type 0
IsSingle events = (events ≡ epoll_in) ⊎ (events ≡ epoll_out) ⊎ (events ≡ epoll_err)

module _ {E : Epoll} {C R : Type 0} where
  -- A new event takes a number that no entry has.
  fresh_Agrees :
      (c : Ctrl E C R) (e : Event C) (fd : ℕ) (o : Option (Option ℕ)) (mask : Option ℕ)
      → Agrees c.next_event c.store fd o mask
      → Agrees (c.next_event + 1) (update c.store c.next_event e) fd o mask
  fresh_Agrees c e fd none mask v = v
  fresh_Agrees c e fd (some none) mask v = v
  fresh_Agrees c e fd (some (some j)) mask (lt, name, agreed) =
      let old : (j == c.next_event) ≡ false = ground arith in
      (omega arith, rw old name, rw old agreed)

  pub make_event-Synced : (c : Ctrl E C R) (fd : ℕ) → Synced c → Synced (make_event fd c).1
  unfolding make_event
  make_event-Synced c fd v other =
      fresh_Agrees c (Event.create fd) other (entry c other) (interest c other) (v other)

  -- Two states with the same entries, whose registered events have the same masks, have the same
  -- masks in the kernel.
  same_mask :
      (c : Ctrl E C R) (next : ℕ) (store : ℕ → Event C) (fd : ℕ) (o : Option (Option ℕ))
      (m n : Option ℕ)
      → ((j : ℕ) → j < c.next_event → store j ≡ c.store j)
      → Agrees c.next_event c.store fd o m
      → Agrees next store fd o n
      → n ≡ m
  same_mask c next store fd none m n old v w = w ∙ sym v
  same_mask c next store fd (some none) m n old v w = absurd v
  same_mask c next store fd (some (some j)) m n old (lt, name, agreed) (lt', name', agreed') =
      agreed' ∙ ap (λ e. some e.events) (old j lt) ∙ sym agreed

  module _ (c : Ctrl E C R) (fd : ℕ) (change : MaskChange) where
    made : Ctrl E C R
    made = (make_event fd c).1

    -- A change of the mask of the event just made, which is not registered.
    update_made :
        IsReliable E
        → Synced c
        → (other : ℕ) → interest (update_event change c.next_event made) other ≡ interest c other
    unfolding make_event made
    update_made rel v other =
        let fields = update_event_fields made change c.next_event in
        let w : Synced (update_event change c.next_event made) =
          update_event-Synced made change c.next_event rel (make_event-Synced c fd v) in
        same_mask c (c.next_event + 1) (changed made change c.next_event) other (entry c other)
          (interest c other) _ old (v other) (rw (fields.0, fields.1, fields.2) at (w other))
      where
        old : (j : ℕ) → j < c.next_event → changed made change c.next_event j ≡ c.store j
        old j lt = let e : (j == c.next_event) ≡ false = ground arith in rw e refl

  -- `modifyFd(fd, EVENT_IN)`, and so with EVENT_OUT and EVENT_ERR, changes no mask at all: it enables
  -- the flag of a new event, while the loop passes on the mask of the event registered before.
  pub modify_fd_keeps :
      (c : Ctrl E C R) (fd events : ℕ)
      → IsReliable E
      → Synced c
      → IsSingle events
      → (other : ℕ) → interest (modify_fd fd events c) other ≡ interest c other
  unfolding modify_fd make_event
  modify_fd_keeps c fd events rel v (inl e) other =
      rw e (unfold made make_event in update_made c fd (reading true) rel v other)
  modify_fd_keeps c fd events rel v (inr (inl e)) other =
      rw e (unfold made make_event in update_made c fd (writing true) rel v other)
  modify_fd_keeps c fd events rel v (inr (inr e)) other =
      rw e (unfold made make_event in update_made c fd (error_event true) rel v other)

  entry_mask :
      (c : Ctrl E C R) (fd id : ℕ)
      → Synced c
      → entry c fd ≡ some (some id)
      → interest c fd ≡ some (c.store id).events
  entry_mask c fd id v e =
      (subst (λ o. Agrees c.next_event c.store fd o (interest c fd)) e (v fd)).2

  -- `modifyEvent` of the event just made, for a descriptor that is registered.
  modify_made :
      (c : Ctrl E C R) (fd id : ℕ)
      → IsReliable E
      → Synced c
      → entry c fd ≡ some (some id)
      → interest (modify_event (make_event fd c).0 (make_event fd c).1) fd ≡ some 0
  unfolding make_event modify_event Event.create
  modify_made c fd id rel v e =
      rw (found, modify_event)
        (epoll_modify_event_here made' c.next_event fd rel name (c.store id).events
            (entry_mask c fd id v e)
          ∙ rw (==_refl c.next_event) refl)
    where
      made' : Ctrl E C R
      made' = (make_event fd c).1

      name : (made'.store c.next_event).event_fd ≡ fd
      name = rw (==_refl c.next_event) refl

      found : lookup ℕ_discrete (made'.store c.next_event).event_fd c.event_pool ≡ some (some id)
      found = rw name e

  -- With any other mask, two flags together or 0, `modifyFd` makes the kernel wait for nothing on a
  -- registered descriptor: the new event's mask is empty.
  pub modify_fd_clears :
      (c : Ctrl E C R) (fd events id : ℕ)
      → IsReliable E
      → Synced c
      → events ≢ epoll_in
      → events ≢ epoll_out
      → events ≢ epoll_err
      → entry c fd ≡ some (some id)
      → interest (modify_fd fd events c) fd ≡ some 0
  unfolding modify_fd
  modify_fd_clears c fd events id rel v not_in not_out not_err e =
      rw (differ epoll_in not_in, differ epoll_out not_out, differ epoll_err not_err)
        (modify_made c fd id rel v e)
    where
      differ : (flag : ℕ) → events ≢ flag → (events == flag) ≡ false
      differ flag ne = ground arith

  -- `modifyFd` of a registered descriptor never has the kernel wait for what it is asked for: with
  -- one of EVENT_IN, EVENT_OUT and EVENT_ERR alone the kernel keeps the mask of the event registered
  -- before, whatever it is, since the flag is enabled on a new event while the loop passes on the
  -- registered one; with any other value, two flags together or 0, it waits for nothing, since the
  -- mask of the new event is empty.
  pub modify_fd_lem :
      (c : Ctrl E C R) (fd events id : ℕ)
      → IsReliable E
      → Synced c
      → entry c fd ≡ some (some id)
      → interest (modify_fd fd events c) fd ≡ (
          if events == epoll_in || (events == epoll_out || events == epoll_err)
          then some (c.store id).events
          else some 0)
  modify_fd_lem c fd events id rel v e =
      let is : (flag : ℕ) → (events == flag) ≡ true → events ≡ flag =
        λ flag p. (==_iff events flag).0 p in
      let isnt : (flag : ℕ) → (events == flag) ≡ false → events ≢ flag =
        λ flag p q. ground (arith, p, q) in
      let keeps : IsSingle events → interest (modify_fd fd events c) fd ≡ some (c.store id).events =
        λ single. modify_fd_keeps c fd events rel v single fd ∙ entry_mask c fd id v e in
      elim (Bool-cases (events == epoll_in)) [
        | inl p ↦ rw p (keeps (inl (is epoll_in p)))
        | inr not_in ↦ elim (Bool-cases (events == epoll_out)) [
          | inl p ↦ rw (not_in, p) (keeps (inr (inl (is epoll_out p))))
          | inr not_out ↦ elim (Bool-cases (events == epoll_err)) [
            | inl p ↦ rw (not_in, not_out, p) (keeps (inr (inr (is epoll_err p))))
            | inr not_err ↦
                rw (not_in, not_out, not_err)
                  (modify_fd_clears c fd events id rel v (isnt epoll_in not_in)
                    (isnt epoll_out not_out) (isnt epoll_err not_err) e)
          ]
        ]
      ]
