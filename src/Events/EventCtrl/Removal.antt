-- ===== src/Events/EventCtrl/Removal.antt =====
-- `deleteEvent(fd)` of src/event/eventCtrl.cpp.
use plugins_engine.Prelude.{
  ℕ, ◌≡◌, ◌≢◌, refl, sym, ◌∙◌, subst, Option, none, some, ℕ_discrete, arith,
}
use mathlib.Core.Logic.{if_neg}
use plugins_engine.Prelude.Assoc.{lookup-erase}
use plugins_engine.Events.Epoll.{Epoll, IsReliable, ctl_del}
use plugins_engine.Events.EventCtrl.{
  Ctrl, epoll_ctrl, epoll_remove_fd, erase_fd, delete_found, delete_event_fd,
}
use plugins_engine.Events.EventCtrl.Registry.{entry, interest, Agrees, Synced}

module _ {E : Epoll} {C R : Type 0} (c : Ctrl E C R) (fd : ℕ) where
  -- By the entry that is found.
  abbrev Deleted : Option (Option ℕ) → Type 0
  Deleted o =
      Synced (delete_found o fd c)
      × (entry (delete_found o fd c) fd ≡ none)
      × (interest (delete_found o fd c) fd ≡ none)

  delete_found-Deleted :
      (o : Option (Option ℕ)) → IsReliable E → Synced c → entry c fd ≡ o → Deleted o
  unfolding delete_found erase_fd epoll_remove_fd epoll_ctrl
  delete_found-Deleted none rel v e =
      (v, e, subst (λ o. Agrees c.next_event c.store fd o (interest c fd)) e (v fd))
  delete_found-Deleted (some none) rel v e =
      absurd (subst (λ o. Agrees c.next_event c.store fd o (interest c fd)) e (v fd))
  delete_found-Deleted (some (some id)) rel v e = (synced, gone, forgotten)
    where
      after : Ctrl E C R
      after = delete_found (some (some id)) fd c

      was : Agrees c.next_event c.store fd (some (some id)) (interest c fd)
      was = subst (λ o. Agrees c.next_event c.store fd o (interest c fd)) e (v fd)

      gone : entry after fd ≡ none
      gone = lookup-erase ℕ_discrete fd fd c.event_pool ∙ ground arith

      forgotten : interest after fd ≡ none
      forgotten =
          E.ctl_success ctl_del fd 0 c.kernel (rel.deletes fd 0 (c.store id).events c.kernel was.2)

      synced : Synced after
      synced other = elim (ℕ_discrete fd other) [
        | yes p ↦
            subst (λ x. Agrees c.next_event c.store x (entry after x) (interest after x)) p
              (rw (gone) forgotten)
        | no p ↦
            rw
              (
                lookup-erase ℕ_discrete fd other c.event_pool,
                if_neg (ℕ_discrete fd other) p,
                E.ctl_other ctl_del fd 0 other c.kernel (λ q. p (sym q)),
              )
              (v other)
      ]

  -- `deleteEvent(fd)`, of a registered descriptor or not, leaves no entry for it and nothing that the
  -- kernel waits for, and keeps the registry and the kernel in step.
  pub delete_event_fd-Synced :
      IsReliable E
      → Synced c
      → Synced (delete_event_fd fd c)
        × (entry (delete_event_fd fd c) fd ≡ none)
        × (interest (delete_event_fd fd c) fd ≡ none)
  unfolding delete_event_fd
  delete_event_fd-Synced rel v = delete_found-Deleted (entry c fd) rel v refl

  delete_found_other :
      (o : Option (Option ℕ)) (other : ℕ)
      → fd ≢ other
      → entry (delete_found o fd c) other ≡ entry c other
  unfolding delete_found erase_fd epoll_remove_fd epoll_ctrl
  delete_found_other none other ne = refl
  delete_found_other (some found) other ne =
      lookup-erase ℕ_discrete fd other c.event_pool ∙ if_neg (ℕ_discrete fd other) ne _ _

  -- It leaves the entries of other descriptors,
  pub delete_event_fd_other :
      (other : ℕ) → fd ≢ other → entry (delete_event_fd fd c) other ≡ entry c other
  unfolding delete_event_fd
  delete_event_fd_other other ne = delete_found_other (entry c fd) other ne

  delete_found_fields :
      (o : Option (Option ℕ))
      → ((delete_found o fd c).store ≡ c.store) × ((delete_found o fd c).next_event ≡ c.next_event)
  unfolding delete_found erase_fd epoll_remove_fd epoll_ctrl
  delete_found_fields none = (refl, refl)
  delete_found_fields (some found) = (refl, refl)

  -- and the events.
  pub delete_event_fd_fields :
      ((delete_event_fd fd c).store ≡ c.store) × ((delete_event_fd fd c).next_event ≡ c.next_event)
  unfolding delete_event_fd
  delete_event_fd_fields = delete_found_fields (entry c fd)
