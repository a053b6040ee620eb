-- ===== src/Net/TcpConnect/Registration.antt =====
-- What src/net/tcp/tcpConnect.cpp has the loop do: the constructor of TcpConnect, `connectedHandle`
-- and the destructor, over the registry of the loop.
pub mod Lifetime
pub mod Tests
use plugins_engine.Prelude.{ℕ, true, List, [], ◌∷◌}
use plugins_engine.Events.Epoll.{Epoll}
use plugins_engine.Events.Event.{
  set_read_callback, set_write_callback, set_error_callback, set_close_callback,
}
use plugins_engine.Events.EventCtrl.{
  Ctrl, MaskChange, reading, error_event, nothing, make_event, add_event, update_event,
  remove_from_loop,
}
use plugins_engine.Engine.FdMonitor.{set_callback}

-- The member functions that the constructor binds.
pub record Bound (C : Type 0) : Type 0 where
  pub read_event : C
  pub write_event : C
  pub error_event : C
  pub close_event : C

module _ {E : Epoll} {C R : Type 0} where
  set_callbacks : Bound C → ℕ → Ctrl E C R → Ctrl E C R
  set_callbacks bound id c = set_callback (set_close_callback bound.close_event) id (
      set_callback (set_error_callback bound.error_event) id (
        set_callback (set_write_callback bound.write_event) id
          (set_callback (set_read_callback bound.read_event) id c)))

  -- `TcpConnect::TcpConnect` for the socket `fd`: the number of its event.
  pub construct : Bound C → ℕ → Ctrl E C R → ℕ × Ctrl E C R
  construct bound fd c =
      let (id, made) = make_event fd c in (id, set_callbacks bound id (add_event id made))

  -- What `connectedHandle` does to the event.
  pub enable_connected : ℕ → Ctrl E C R → Ctrl E C R
  enable_connected id c = update_event (error_event true) id (update_event (reading true) id c)

  -- `TcpConnect::~TcpConnect`; the socket is closed behind it, with the other members.
  pub destruct : ℕ → Ctrl E C R → Ctrl E C R
  destruct id c = remove_from_loop id (update_event nothing id c)

  -- Changes of the mask in the life of the connection, as `write` and `writeEvent` make them.
  pub mask_changes : List MaskChange → ℕ → Ctrl E C R → Ctrl E C R
  mask_changes [] id c = c
  mask_changes (change ∷ changes) id c = mask_changes changes id (update_event change id c)
