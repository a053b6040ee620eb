-- ===== src/Engine/FdMonitor/Tests.antt =====
-- The descriptor monitor at a concrete registry.
use plugins_engine.Prelude.{◌≡◌, refl, none, some, ◌==◌, ◌||◌, if◌then◌else◌, ℕ_discrete}
use plugins_engine.Prelude.Assoc.{lookup}
use plugins_engine.Events.Event.{epoll_in, epoll_out, epoll_err}
use plugins_engine.Events.EventCtrl.Registry.{entry, interest, Synced}
use plugins_engine.Events.EventCtrl.TableKernel.{
  table_kernel-IsReliable, one_event, one_event-Synced,
}
use plugins_engine.Engine.FdMonitor.{add_fd, modify_fd}
use plugins_engine.Engine.FdMonitor.Adding.{expected_mask, add_fd-Synced}
use plugins_engine.Engine.FdMonitor.Modifying.{modify_fd_lem}

free_entry : entry one_event 9 ≡ none
unfolding lookup ℕ_discrete
free_entry = refl

used_entry : entry one_event 5 ≡ some (some 0)
unfolding lookup ℕ_discrete
used_entry = refl

add_fd-Synced_example :
    Synced (add_fd 9 4 2 one_event)
    × (entry (add_fd 9 4 2 one_event) 9 ≡ some (some 2))
    × (interest (add_fd 9 4 2 one_event) 9 ≡ some (expected_mask 4))
add_fd-Synced_example =
    add_fd-Synced one_event 9 4 2 table_kernel-IsReliable one_event-Synced free_entry

-- A descriptor that waits for input, asked to wait for output.
modify_fd_lem_example :
    interest (modify_fd 5 4 one_event) 5
    ≡ (if (4 == epoll_in) || ((4 == epoll_out) || (4 == epoll_err)) then some 3 else some 0)
modify_fd_lem_example =
    modify_fd_lem one_event 5 4 0 table_kernel-IsReliable one_event-Synced used_entry
