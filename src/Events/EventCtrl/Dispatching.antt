-- ===== src/Events/EventCtrl/Dispatching.antt =====
-- `waitAndRunHandler` of src/event/eventCtrl.cpp.
use plugins_engine.Prelude.{
  ℕ, ◌≡◌, refl, sym, ◌∙◌, subst, Option, none, some, List, [], ◌∷◌, ℕ_discrete, arith, length,
  Bool-cases, inl, inr,
}
use mathlib.Core.Logic.{if_neg}
use plugins_engine.Prelude.Int.{ℤ}
use plugins_engine.Prelude.Assoc.{insert, lookup-insert, lookup-erase, insert_present}
use plugins_engine.Events.Epoll.{Epoll, ctl_del}
use plugins_engine.Prelude.Bits.{masked}
use plugins_engine.Events.Event.{handle, when_masked, call}
use plugins_engine.Events.Event.Dispatch.{handle_keeps}
use plugins_engine.Events.EventCtrl.{
  Ctrl, epoll_ctrl, epoll_remove_fd, erase_fd, delete_found, delete_event_fd, run_entry, run_active,
  run_all_active, run_reported, wait_and_run_handler,
}
use plugins_engine.Events.EventCtrl.Registry.{entry, interest, Agrees, Synced}

module _ {E : Epoll} {C R : Type 0} (run : C → Ctrl E C R → Ctrl E C R) where
  -- The kernel forgets a descriptor that it waits for nothing on, whatever DEL returns.
  forgotten_stays :
      (c : Ctrl E C R) (fd : ℕ) → interest c fd ≡ none → interest (epoll_remove_fd fd c) fd ≡ none
  unfolding epoll_remove_fd epoll_ctrl
  forgotten_stays c fd h = elim (Bool-cases (E.ctl ctl_del fd 0 c.kernel).0) [
    | inl done ↦ E.ctl_success ctl_del fd 0 c.kernel done
    | inr failed ↦ E.ctl_failure ctl_del fd 0 fd c.kernel failed ∙ h
  ]

  -- An event reported for a descriptor that is not registered, such as one that an earlier callback
  -- of the same batch removed, runs no callback: nothing but the kernel's state may change, no entry
  -- is left behind, and the registry and the kernel stay in step.
  pub run_active_absent :
      (c : Ctrl E C R) (fd events : ℕ)
      → Synced c
      → entry c fd ≡ none
      → Synced (run_active run (fd, events) c)
        × (entry (run_active run (fd, events) c) fd ≡ none)
        × ((run_active run (fd, events) c).store ≡ c.store)
        × ((run_active run (fd, events) c).rest ≡ c.rest)
  unfolding run_active run_entry delete_event_fd delete_found erase_fd epoll_remove_fd epoll_ctrl
  run_active_absent c fd events v e = rw (e, null) (synced, gone, refl, refl)
    where
      -- With the null entry that `eventPool[fd]` makes.
      nulled : Ctrl E C R
      nulled = record c { event_pool = insert ℕ_discrete fd none c.event_pool }

      null : entry nulled fd ≡ some none
      null = lookup-insert ℕ_discrete fd fd none c.event_pool ∙ ground (arith, e)

      after : Ctrl E C R
      after = erase_fd fd (epoll_remove_fd fd nulled)

      gone : entry after fd ≡ none
      gone = lookup-erase ℕ_discrete fd fd (insert ℕ_discrete fd none c.event_pool) ∙ ground arith

      free : interest c fd ≡ none
      free = subst (λ o. Agrees c.next_event c.store fd o (interest c fd)) e (v fd)

      synced : Synced after
      synced other = elim (ℕ_discrete fd other) [
        | yes p ↦
            subst (λ x. Agrees c.next_event c.store x (entry after x) (interest after x)) p
              (rw gone (forgotten_stays nulled fd free))
        | no p ↦
            rw
              (
                lookup-erase ℕ_discrete fd other (insert ℕ_discrete fd none c.event_pool),
                if_neg (ℕ_discrete fd other) p,
                lookup-insert ℕ_discrete fd other none c.event_pool,
                if_neg (ℕ_discrete fd other) p,
                E.ctl_other ctl_del fd 0 other c.kernel (λ q. p (sym q)),
              )
              (v other)
      ]

  registered_active :
      (c : Ctrl E C R) (fd events id : ℕ)
      → entry c fd ≡ some (some id)
      → run_active run (fd, events) c ≡ run_entry run (some (some id)) fd events c
  unfolding run_active
  registered_active c fd events id e =
      rw (e, insert_present ℕ_discrete fd none (some id) c.event_pool e)

  -- By the entry of the descriptor.
  by_entry-Synced :
      (c : Ctrl E C R) (fd events : ℕ) (o : Option (Option ℕ))
      → ((cb : C) (d : Ctrl E C R) → Synced d → Synced (run cb d))
      → Synced c
      → entry c fd ≡ o
      → Synced (run_active run (fd, events) c)
  by_entry-Synced c fd events none keeps v e = (run_active_absent c fd events v e).0
  by_entry-Synced c fd events (some none) keeps v e =
      absurd (subst (λ o. Agrees c.next_event c.store fd o (interest c fd)) e (v fd))
  by_entry-Synced c fd events (some (some id)) keeps v e =
      let same : run_active run (fd, events) c ≡ run_entry run (some (some id)) fd events c =
        registered_active c fd events id e in
      rw same (unfold run_entry in handle_keeps Synced (λ d. d.store id) run keeps events c v)

  run_all_active-Synced :
      (active_events : List (ℕ × ℕ)) (c : Ctrl E C R)
      → ((cb : C) (d : Ctrl E C R) → Synced d → Synced (run cb d))
      → Synced c
      → Synced (run_all_active run active_events c)
  unfolding run_all_active
  run_all_active-Synced [] c keeps v = v
  run_all_active-Synced ((fd, events) ∷ active_events) c keeps v =
      run_all_active-Synced active_events (run_active run (fd, events) c) keeps
        (by_entry-Synced c fd events (entry c fd) keeps v refl)

  run_reported-Synced :
      (reported : Option (List (ℕ × ℕ))) (c : Ctrl E C R)
      → ((cb : C) (d : Ctrl E C R) → Synced d → Synced (run cb d))
      → Synced c
      → Synced (run_reported run reported c)
  unfolding run_reported
  run_reported-Synced none c keeps v = v
  run_reported-Synced (some active_events) c keeps v = run_all_active-Synced active_events c keeps v

  -- One turn of the loop keeps the registry and the kernel in step, whatever the kernel reports and
  -- whatever callbacks run, if each callback does.
  pub wait_and_run_handler-Synced :
      (time_ms : ℤ) (c : Ctrl E C R)
      → ((cb : C) (d : Ctrl E C R) → Synced d → Synced (run cb d))
      → Synced c
      → Synced (wait_and_run_handler run time_ms c)
  unfolding wait_and_run_handler
  wait_and_run_handler-Synced time_ms c keeps v =
      run_reported-Synced (E.wait (length c.event_pool) time_ms c.kernel).0 _ keeps
        (λ fd. rw (E.wait_keeps (length c.event_pool) time_ms c.kernel fd) (v fd))

  -- A turn in which the kernel reports input on one registered descriptor alone calls the read
  -- callback of its event, and nothing else.
  pub input_alone :
      (time_ms : ℤ) (c : Ctrl E C R) (fd id : ℕ) (cb : C)
      → entry c fd ≡ some (some id)
      → (c.store id).read_callback ≡ some cb
      → (E.wait (length c.event_pool) time_ms c.kernel).0 ≡ some ((fd, 1) ∷ [])
      → wait_and_run_handler run time_ms c
        ≡ run cb (record c { kernel = (E.wait (length c.event_pool) time_ms c.kernel).1 })
  unfolding wait_and_run_handler run_reported run_all_active run_entry handle masked when_masked
      call
  input_alone time_ms c fd id cb e reads reported =
      let d : Ctrl E C R = record c {
        kernel = (E.wait (length c.event_pool) time_ms c.kernel).1;
      } in
      rw reported (registered_active d fd 1 id e ∙ rw reads refl)
