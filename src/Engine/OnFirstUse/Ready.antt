-- ===== src/Engine/OnFirstUse/Ready.antt =====
-- The services of src/engine/engine.cpp are made once, and their descriptors stay registered.
use plugins_engine.Prelude.{ℕ, Bool, ◌≡◌, ◌≢◌, refl, Option, none, some}
use plugins_engine.Prelude.Assoc.{lookup}
use plugins_engine.Events.Epoll.{Epoll, IsReliable}
use plugins_engine.Events.EventCtrl.Registry.{entry}
use plugins_engine.Events.EventFd.{EventFd}
use plugins_engine.SignalMonitor.{SigSet, SignalMonitor}
use plugins_engine.Timers.TimerQueue.{TimerQueue}
use plugins_engine.Engine.OnFirstUse.{
  Handlers, Service, Engine, make_callback_queue, get_event_callback_queue, make_timer_queue,
  get_timer_service, make_signal_monitor, get_signal_monitor, post_callback, new_loop, new_engine,
  create, Step, posts, asks_timers, asks_signals, adds, removes, Steps, start, next,
}
use plugins_engine.Engine.OnFirstUse.Extending.{Watches-interest}
use plugins_engine.Engine.OnFirstUse.Registering.{
  enable_and_set-Watches, set_and_enable-Watches, add_fd-Extends, remove_fd-Extends,
}
use plugins_engine.Engine.OnFirstUse.Serving.{
  IsReady, Keeps, Stays-refl, Stays-trans, Avoids-IsKept, Extends-IsReady, Any-IsReady, Keeps-refl,
  Keeps-trans, post_to-Stays, post_to-IsServed,
}

module _ {E : Epoll} {C F R : Type 0} (is_signal : ℕ → Bool) (handlers : Handlers C) where
  module _ (e : Engine E C F R) (fd : ℕ) (rel : IsReliable E) (r : IsReady handlers e)
      (free : entry e.loop fd ≡ none) where
    make_callback_queue-IsReady :
        (o : Option (Service (EventFd F)))
        → e.callback_queue ≡ o
        → IsReady handlers (make_callback_queue is_signal handlers o fd e)
          × Keeps handlers e (make_callback_queue is_signal handlers o fd e)
    unfolding make_callback_queue
    make_callback_queue-IsReady (some service) h = (r, Keeps-refl handlers e)
    make_callback_queue-IsReady none h =
        let (x, w) = enable_and_set-Watches e.loop fd handlers.handle_events rel r.synced free in
        let others = Any-IsReady handlers e _ x r in
        (
          record {
            synced = x.synced;
            callback_queue = (w, Watches-interest _ fd _ 3 handlers.handle_events x.synced w);
            timer_queue = others.timer_queue;
            signal_monitor = others.signal_monitor;
          },
          record {
            callback_queue = rw h tt;
            timer_queue = Stays-refl e.timer_queue;
            signal_monitor = Stays-refl e.signal_monitor;
          },
        )

    make_timer_queue-IsReady :
        (o : Option (Service (TimerQueue F)))
        → e.timer_queue ≡ o
        → IsReady handlers (make_timer_queue is_signal handlers o fd e)
          × Keeps handlers e (make_timer_queue is_signal handlers o fd e)
    unfolding make_timer_queue
    make_timer_queue-IsReady (some service) h = (r, Keeps-refl handlers e)
    make_timer_queue-IsReady none h =
        let (x, w) = set_and_enable-Watches e.loop fd handlers.timer_handle rel r.synced free in
        let others = Any-IsReady handlers e _ x r in
        (
          record {
            synced = x.synced;
            callback_queue = others.callback_queue;
            timer_queue = (w, Watches-interest _ fd _ 3 handlers.timer_handle x.synced w);
            signal_monitor = others.signal_monitor;
          },
          record {
            callback_queue = Stays-refl e.callback_queue;
            timer_queue = rw h tt;
            signal_monitor = Stays-refl e.signal_monitor;
          },
        )

    make_signal_monitor-IsReady :
        (blocked : SigSet) (o : Option (Service (SignalMonitor F)))
        → e.signal_monitor ≡ o
        → IsReady handlers (make_signal_monitor is_signal handlers o blocked fd e)
          × Keeps handlers e (make_signal_monitor is_signal handlers o blocked fd e)
    unfolding make_signal_monitor
    make_signal_monitor-IsReady blocked (some service) h = (r, Keeps-refl handlers e)
    make_signal_monitor-IsReady blocked none h =
        let (x, w) = set_and_enable-Watches e.loop fd handlers.handle_signal rel r.synced free in
        let others = Any-IsReady handlers e _ x r in
        (
          record {
            synced = x.synced;
            callback_queue = others.callback_queue;
            timer_queue = others.timer_queue;
            signal_monitor = (w, Watches-interest _ fd _ 3 handlers.handle_signal x.synced w);
          },
          record {
            callback_queue = Stays-refl e.callback_queue;
            timer_queue = Stays-refl e.timer_queue;
            signal_monitor = rw h tt;
          },
        )

  Step-IsReady :
      (e f : Engine E C F R)
      → IsReliable E
      → IsReady handlers e
      → Step is_signal handlers e f
      → IsReady handlers f × Keeps handlers e f
  unfolding post_callback get_event_callback_queue get_timer_service get_signal_monitor
  Step-IsReady e f rel r (posts callback fd free) =
      let (s, k) = make_callback_queue-IsReady e fd rel r free e.callback_queue refl in
      let made = make_callback_queue is_signal handlers e.callback_queue fd e in
      (
        record {
          synced = s.synced;
          callback_queue =
              post_to-IsServed made.loop handlers.handle_events callback made.callback_queue
                s.callback_queue;
          timer_queue = s.timer_queue;
          signal_monitor = s.signal_monitor;
        },
        record {
          callback_queue =
              Stays-trans e.callback_queue made.callback_queue _ k.callback_queue
                (post_to-Stays callback made.callback_queue);
          timer_queue = k.timer_queue;
          signal_monitor = k.signal_monitor;
        },
      )
  Step-IsReady e f rel r (asks_timers fd free) =
      make_timer_queue-IsReady e fd rel r free e.timer_queue refl
  Step-IsReady e f rel r (asks_signals blocked fd free) =
      make_signal_monitor-IsReady e fd rel r free blocked e.signal_monitor refl
  Step-IsReady e f rel r (adds fd events handler free) =
      let x = add_fd-Extends e.loop fd events handler rel r.synced free in
      (
        Any-IsReady handlers e _ x r,
        record {
          callback_queue = Stays-refl e.callback_queue;
          timer_queue = Stays-refl e.timer_queue;
          signal_monitor = Stays-refl e.signal_monitor;
        },
      )
  Step-IsReady e f rel r (removes fd (queue, timers, signals)) =
      let x = remove_fd-Extends e.loop fd rel r.synced in
      (
        Extends-IsReady handlers (λ other. other ≢ fd) e _ x
            (Avoids-IsKept fd e.callback_queue queue) (Avoids-IsKept fd e.timer_queue timers)
            (Avoids-IsKept fd e.signal_monitor signals) r,
        record {
          callback_queue = Stays-refl e.callback_queue;
          timer_queue = Stays-refl e.timer_queue;
          signal_monitor = Stays-refl e.signal_monitor;
        },
      )

  -- The engine makes each service at most once, and serves it from then on: whatever callbacks are
  -- posted, services asked for and descriptors added and removed by plugins, in whatever order, a
  -- service that was made stays the one that it is, its event stays registered for its descriptor
  -- with its own handler, the kernel watches the descriptor for input, and the registry stays in step
  -- with the kernel. The kernel has the resources for what it is asked.
  pub Steps-IsReady :
      (e f : Engine E C F R)
      → IsReliable E
      → IsReady handlers e
      → Steps is_signal handlers e f
      → IsReady handlers f × Keeps handlers e f
  Steps-IsReady e f rel r start = (r, Keeps-refl handlers e)
  Steps-IsReady e g rel r (next f _ steps step) =
      let (s, k) = Steps-IsReady e f rel r steps in
      let (t, l) = Step-IsReady f g rel s step in (t, Keeps-trans handlers e f g k l)

  -- So it is with an engine that `create` makes, where nothing is registered with the new epoll
  -- descriptor before.
  pub create-IsReady :
      (kernel : E.State) (rest : R) (fd : ℕ)
      → IsReliable E
      → ((other : ℕ) → E.interest kernel other ≡ none)
      → IsReady {F = F} handlers (create {E = E} is_signal handlers kernel rest fd)
  unfolding create get_event_callback_queue new_engine new_loop lookup
  create-IsReady kernel rest fd rel nothing =
      (make_callback_queue-IsReady (new_engine kernel rest) fd rel
        (record { synced = nothing; callback_queue = tt; timer_queue = tt; signal_monitor = tt })
        refl none refl).0
