-- ===== src/Engine/OnFirstUse.antt =====
-- The services of src/engine/engine.cpp, class Engine, which are made when they are first asked for:
-- the queue of callbacks, the timers and the signals. Each registers a descriptor of its own with the
-- loop of the engine. The calls of the kernel that make the descriptors are taken to succeed; what
-- descriptor they give is an argument.
pub mod Extending
pub mod Registering
pub mod Serving
pub mod Ready
pub mod Posting
pub mod Tests
use plugins_engine.Prelude.{ℕ, Bool, ◌≡◌, ◌≢◌, ◌+◌, true, Option, none, some, List, [], ◌∷◌}
use plugins_engine.Events.Epoll.{Epoll}
use plugins_engine.Events.Event.{Event, set_read_callback}
use plugins_engine.Events.Event
use plugins_engine.Events.EventCtrl.{Ctrl, reading, make_event, add_event, update_event}
use plugins_engine.Events.EventCtrl.Registry.{entry}
use plugins_engine.Events.EventFd.{EventFd, post_impl, write_value}
use plugins_engine.Events.EventFd
use plugins_engine.Timers.TimerQueue.{TimerQueue, new_queue}
use plugins_engine.SignalMonitor.{SignalMonitor, SigSet}
use plugins_engine.SignalMonitor
use plugins_engine.Engine.FdMonitor.{set_callback, add_fd, remove_fd}

-- The member functions that the services bind as read callbacks; `C` is the type of callbacks of
-- events.
pub record Handlers (C : Type 0) : Type 0 where
  pub handle_events : C
  pub timer_handle : C
  pub handle_signal : C

-- A service: its descriptor, the number of its event, and its other members.
pub record Service (S : Type 0) : Type 0 where
  pub descriptor : ℕ
  pub event : ℕ
  pub members : S

-- `F` is the type of the callbacks and handlers that the services are given.
pub record Engine (E : Epoll) (C F R : Type 0) : Type 0 where
  pub loop : Ctrl E C R
  pub callback_queue : Option (Service (EventFd F))
  pub timer_queue : Option (Service (TimerQueue F))
  pub signal_monitor : Option (Service (SignalMonitor F))

module _ {E : Epoll} {C R : Type 0} where
  -- The registry that a new loop has, over a new epoll descriptor.
  pub new_loop : E.State → R → Ctrl E C R
  new_loop kernel rest = record {
    kernel = kernel;
    event_pool = [];
    store = λ id. Event.create 0;
    next_event = 0;
    rest = rest;
  }

  -- The constructor of `EventFD`, whose event is the one made.
  pub enable_and_set : C → ℕ → Ctrl E C R → Ctrl E C R
  enable_and_set handler fd c =
      let (id, made) = make_event fd c in
      set_callback (set_read_callback handler) id
        (update_event (reading true) id (add_event id made))

  -- The constructors of `TimerQueue` and `SignalMonitor`.
  pub set_and_enable : C → ℕ → Ctrl E C R → Ctrl E C R
  set_and_enable handler fd c =
      let (id, made) = make_event fd c in
      update_event (reading true) id
        (set_callback (set_read_callback handler) id (add_event id made))

module _ {F : Type 0} where
  -- `EventFD::post`, where no other thread is in it; an empty `std::function` is `none`.
  pub post : Option F → EventFd F → EventFd F
  post none s = s
  post (some callback) s = write_value s.writing (post_impl (some callback) s)

  pub post_to : Option F → Option (Service (EventFd F)) → Option (Service (EventFd F))
  post_to callback none = none
  post_to callback (some service) =
      some (record service { members = post callback service.members })

module _ {E : Epoll} {C F R : Type 0} where
  -- `Engine::Engine`.
  pub new_engine : E.State → R → Engine E C F R
  new_engine kernel rest = record {
    loop = new_loop kernel rest;
    callback_queue = none;
    timer_queue = none;
    signal_monitor = none;
  }

-- The descriptor is not that of a service.
abbrev pub Avoids : {S : Type 0} → ℕ → Option (Service S) → Type 0
Avoids fd none = Unit {0}
Avoids fd (some service) = service.descriptor ≢ fd

abbrev pub IsForeign : {E : Epoll} {C F R : Type 0} → ℕ → Engine E C F R → Type 0
IsForeign fd e = Avoids fd e.callback_queue × Avoids fd e.timer_queue × Avoids fd e.signal_monitor

module _ {E : Epoll} {C F R : Type 0} (is_signal : ℕ → Bool) (handlers : Handlers C) where
  make_callback_queue : Option (Service (EventFd F)) → ℕ → Engine E C F R → Engine E C F R
  make_callback_queue (some service) fd e = e
  make_callback_queue none fd e = record e {
    loop = enable_and_set handlers.handle_events fd e.loop;
    callback_queue =
        some (record { descriptor = fd; event = e.loop.next_event; members = EventFd.create });
  }

  -- `getEventCallbackQueue`.
  pub get_event_callback_queue : ℕ → Engine E C F R → Engine E C F R
  get_event_callback_queue fd e = make_callback_queue e.callback_queue fd e

  make_timer_queue : Option (Service (TimerQueue F)) → ℕ → Engine E C F R → Engine E C F R
  make_timer_queue (some service) fd e = e
  make_timer_queue none fd e = record e {
    loop = set_and_enable handlers.timer_handle fd e.loop;
    timer_queue = some (record { descriptor = fd; event = e.loop.next_event; members = new_queue });
  }

  -- `getTimerService`.
  pub get_timer_service : ℕ → Engine E C F R → Engine E C F R
  get_timer_service fd e = make_timer_queue e.timer_queue fd e

  make_signal_monitor :
      Option (Service (SignalMonitor F)) → SigSet → ℕ → Engine E C F R → Engine E C F R
  make_signal_monitor (some service) blocked fd e = e
  make_signal_monitor none blocked fd e = record e {
    loop = set_and_enable handlers.handle_signal fd e.loop;
    signal_monitor = some (record {
      descriptor = fd;
      event = e.loop.next_event;
      members = SignalMonitor.create is_signal blocked;
    });
  }

  -- `getSignalMonitor`, in a thread that blocks the signals `blocked`.
  pub get_signal_monitor : SigSet → ℕ → Engine E C F R → Engine E C F R
  get_signal_monitor blocked fd e = make_signal_monitor e.signal_monitor blocked fd e

  -- `postCallback`.
  pub post_callback : Option F → ℕ → Engine E C F R → Engine E C F R
  post_callback callback fd e =
      let with_queue = get_event_callback_queue fd e in
      record with_queue { callback_queue = post_to callback with_queue.callback_queue }

  -- `ComAPI::create` and `ComAPIEventLoop::create`.
  pub create : E.State → R → ℕ → Engine E C F R
  create kernel rest fd = get_event_callback_queue fd (new_engine kernel rest)

  -- What the plugins of an engine may ask of it. The kernel never gives a descriptor that is open,
  -- and the registry holds only open ones; a plugin adds a descriptor that it has not added before,
  -- and removes none but its own.
  pub data Step (e : Engine E C F R) : Engine E C F R → Type 0 where
    posts :
        (callback : Option F) (fd : ℕ)
        → entry e.loop fd ≡ none
        → Step e (post_callback callback fd e)
    asks_timers : (fd : ℕ) → entry e.loop fd ≡ none → Step e (get_timer_service fd e)
    asks_signals :
        (blocked : SigSet) (fd : ℕ)
        → entry e.loop fd ≡ none
        → Step e (get_signal_monitor blocked fd e)
    adds :
        (fd events : ℕ) (handler : C)
        → entry e.loop fd ≡ none
        → Step e (record e { loop = add_fd fd events handler e.loop })
    removes : (fd : ℕ) → IsForeign fd e → Step e (record e { loop = remove_fd fd e.loop })

  pub data Steps (e : Engine E C F R) : Engine E C F R → Type 0 where
    start : Steps e e
    next : (f g : Engine E C F R) → Steps e f → Step f g → Steps e g
