-- ===== src/Engine/OnFirstUse/Serving.antt =====
-- What it is for the services of src/engine/engine.cpp to be served and to stay.
use plugins_engine.Prelude.{ℕ, ◌≡◌, ◌≢◌, refl, ◌∙◌, Option, none, some}
use plugins_engine.Events.Epoll.{Epoll}
use plugins_engine.Events.EventCtrl.{Ctrl}
use plugins_engine.Events.EventCtrl.Registry.{interest, Synced}
use plugins_engine.Events.EventFd.{EventFd}
use plugins_engine.Engine.OnFirstUse.{Handlers, Service, Engine, post_to, Avoids}
use plugins_engine.Engine.OnFirstUse.Extending.{
  Any, Extends, Watches, Extends-Watches, Watches-interest,
}

module _ {S : Type 0} where
  -- A service that was made is the same one later.
  abbrev pub Stays : Option (Service S) → Option (Service S) → Type 0
  Stays none later = Unit {0}
  Stays (some service) none = ⊥
  Stays (some service) (some later) =
      (later.descriptor ≡ service.descriptor) × (later.event ≡ service.event)

  pub Stays-refl : (o : Option (Service S)) → Stays o o
  Stays-refl none = tt
  Stays-refl (some service) = (refl, refl)

  pub Stays-trans : (o p q : Option (Service S)) → Stays o p → Stays p q → Stays o q
  Stays-trans none p q s t = tt
  Stays-trans (some service) none q s t = absurd s
  Stays-trans (some service) (some later) none s t = absurd t
  Stays-trans (some service) (some later) (some last) (d, n) (d', n') = (d' ∙ d, n' ∙ n)

  abbrev IsKept : (ℕ → Type 0) → Option (Service S) → Type 0
  IsKept Kept none = Unit {0}
  IsKept Kept (some service) = Kept service.descriptor

  pub Any-IsKept : (o : Option (Service S)) → IsKept Any o
  Any-IsKept none = tt
  Any-IsKept (some service) = tt

  pub Avoids-IsKept : (fd : ℕ) (o : Option (Service S)) → Avoids fd o → IsKept (λ x. x ≢ fd) o
  Avoids-IsKept fd none a = tt
  Avoids-IsKept fd (some service) a = a

module _ {E : Epoll} {C R S : Type 0} where
  -- A service that was made has its event registered, with its own handler, and the kernel watches
  -- its descriptor for input.
  abbrev pub IsServed : Ctrl E C R → C → Option (Service S) → Type 0
  IsServed c handler none = Unit {0}
  IsServed c handler (some service) =
      Watches c service.descriptor service.event 3 handler
      × (interest c service.descriptor ≡ some 3)

  pub Extends-IsServed :
      (Kept : ℕ → Type 0) (c d : Ctrl E C R) (handler : C) (o : Option (Service S))
      → Extends Kept c d
      → IsKept Kept o
      → IsServed c handler o
      → IsServed d handler o
  Extends-IsServed Kept c d handler none x kept s = tt
  Extends-IsServed Kept c d handler (some service) x kept (w, watched) =
      let later : Watches d service.descriptor service.event 3 handler =
        Extends-Watches Kept c d service.descriptor service.event 3 handler x kept w in
      (later, Watches-interest d service.descriptor service.event 3 handler x.synced later)

module _ {E : Epoll} {C F R : Type 0} (handlers : Handlers C) where
  -- The registry and the kernel are in step, and every service that was made is served.
  pub record IsReady (e : Engine E C F R) : Type 0 where
    pub synced : Synced e.loop
    pub callback_queue : IsServed e.loop handlers.handle_events e.callback_queue
    pub timer_queue : IsServed e.loop handlers.timer_handle e.timer_queue
    pub signal_monitor : IsServed e.loop handlers.handle_signal e.signal_monitor

  -- Every service of `e` is the same in `f`.
  pub record Keeps (e f : Engine E C F R) : Type 0 where
    pub callback_queue : Stays e.callback_queue f.callback_queue
    pub timer_queue : Stays e.timer_queue f.timer_queue
    pub signal_monitor : Stays e.signal_monitor f.signal_monitor

  -- Where the loop alone changes.
  pub Extends-IsReady :
      (Kept : ℕ → Type 0) (e : Engine E C F R) (d : Ctrl E C R)
      → Extends Kept e.loop d
      → IsKept Kept e.callback_queue
      → IsKept Kept e.timer_queue
      → IsKept Kept e.signal_monitor
      → IsReady e
      → IsReady (record e { loop = d })
  Extends-IsReady Kept e d x queue timers signals r = record {
    synced = x.synced;
    callback_queue = Extends-IsServed Kept e.loop d _ e.callback_queue x queue r.callback_queue;
    timer_queue = Extends-IsServed Kept e.loop d _ e.timer_queue x timers r.timer_queue;
    signal_monitor = Extends-IsServed Kept e.loop d _ e.signal_monitor x signals r.signal_monitor;
  }

  pub Any-IsReady :
      (e : Engine E C F R) (d : Ctrl E C R)
      → Extends Any e.loop d
      → IsReady e
      → IsReady (record e { loop = d })
  Any-IsReady e d x r =
      Extends-IsReady Any e d x (Any-IsKept e.callback_queue) (Any-IsKept e.timer_queue)
        (Any-IsKept e.signal_monitor) r

  pub Keeps-refl : (e : Engine E C F R) → Keeps e e
  Keeps-refl e = record {
    callback_queue = Stays-refl e.callback_queue;
    timer_queue = Stays-refl e.timer_queue;
    signal_monitor = Stays-refl e.signal_monitor;
  }

  pub Keeps-trans : (e f g : Engine E C F R) → Keeps e f → Keeps f g → Keeps e g
  Keeps-trans e f g k l = record {
    callback_queue = Stays-trans e.callback_queue _ _ k.callback_queue l.callback_queue;
    timer_queue = Stays-trans e.timer_queue _ _ k.timer_queue l.timer_queue;
    signal_monitor = Stays-trans e.signal_monitor _ _ k.signal_monitor l.signal_monitor;
  }

module _ {F : Type 0} where
  pub post_to-Stays :
      (callback : Option F) (o : Option (Service (EventFd F))) → Stays o (post_to callback o)
  unfolding post_to
  post_to-Stays callback none = tt
  post_to-Stays callback (some service) = (refl, refl)

module _ {E : Epoll} {C F R : Type 0} where
  pub post_to-IsServed :
      (c : Ctrl E C R) (handler : C) (callback : Option F) (o : Option (Service (EventFd F)))
      → IsServed c handler o
      → IsServed c handler (post_to callback o)
  unfolding post_to
  post_to-IsServed c handler callback none s = s
  post_to-IsServed c handler callback (some service) s = s
