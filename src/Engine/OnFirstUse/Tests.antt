-- ===== src/Engine/OnFirstUse/Tests.antt =====
-- An engine over the table of masks.
use plugins_engine.Prelude.{
  ℕ, Bool, true, ◌≡◌, refl, Option, none, some, if◌then◌else◌, ◌==◌, List, [], ◌∷◌, ◌++◌,
  ℕ_discrete, arith,
}
use plugins_engine.Prelude.Assoc.{lookup}
use plugins_engine.Prelude.Int.{pos}
use plugins_engine.Events.Epoll.{Epoll, IsReliable}
use plugins_engine.Events.Event
use plugins_engine.Events.EventCtrl.{wait_and_run_handler}
use plugins_engine.Events.EventFd
use plugins_engine.Events.EventCtrl.Registry.{entry, Synced}
use plugins_engine.Events.EventCtrl.TableKernel.{
  Table, table_ctl, table_kernel, table_kernel-IsReliable, one_event, one_event-Synced,
}
use plugins_engine.Engine.FdMonitor.{remove_fd}
use plugins_engine.Engine.OnFirstUse.{
  Handlers, Engine, IsForeign, create, make_timer_queue, get_timer_service, Steps, start, next,
  asks_timers, removes,
}
use plugins_engine.Engine.OnFirstUse.Posting.{
  QueueLoop, post_all, PostsOnly, run_handler, posted_to, wait_and_run_handler-post_all,
}
use plugins_engine.Engine.OnFirstUse.Serving.{IsReady, Keeps}
use plugins_engine.Engine.OnFirstUse.Ready.{Steps-IsReady, create-IsReady}

abbrev all_signals : ℕ → Bool
all_signals n = true

abbrev handlers : Handlers ℕ
handlers = record { handle_events = 1; timer_handle = 2; handle_signal = 3 }

abbrev Machine : Type 0
Machine = Engine table_kernel ℕ ℕ (List ℕ)

-- A plugin watches descriptor 5, and no service is made.
abbrev without_services : Machine
without_services = record {
  loop = one_event;
  callback_queue = none;
  timer_queue = none;
  signal_monitor = none;
}

without_services-IsReady : IsReady handlers without_services
without_services-IsReady = record {
  synced = one_event-Synced;
  callback_queue = tt;
  timer_queue = tt;
  signal_monitor = tt;
}

-- The timers are asked for while the kernel gives descriptor 7, and the plugin removes its own.
abbrev with_timers : Machine
with_timers = get_timer_service all_signals handlers 7 without_services

abbrev removed : Machine
removed = record with_timers { loop = remove_fd 5 with_timers.loop }

free_seven : entry one_event 7 ≡ none
unfolding lookup ℕ_discrete
free_seven = refl

IsForeign-five : IsForeign 5 with_timers
unfolding get_timer_service make_timer_queue
IsForeign-five = (tt, (λ p. absurd (omega (arith, p))), tt)

removed_Steps : Steps all_signals handlers without_services removed
removed_Steps =
    next with_timers removed (next without_services with_timers start (asks_timers 7 free_seven))
      (removes 5 IsForeign-five)

Steps-IsReady_example : IsReady handlers removed × Keeps handlers without_services removed
Steps-IsReady_example =
    Steps-IsReady all_signals handlers without_services removed table_kernel-IsReliable
      without_services-IsReady removed_Steps

created-IsReady :
    IsReady {F = ℕ} handlers
      (create {E = table_kernel} {R = List ℕ} all_signals handlers (λ fd. none) [] 4)
created-IsReady =
    create-IsReady all_signals handlers (λ fd. none) [] 4 table_kernel-IsReliable (λ other. refl)

-- A kernel that reports input on descriptor 9 alone.
abbrev nine_kernel : Epoll
nine_kernel = record {
  State = Table;
  interest = λ s fd. s fd;
  ctl = table_ctl;
  wait = λ room timeout s. (some ((9, 1) ∷ []), s);
  ctl_success = table_kernel.ctl_success;
  ctl_failure = table_kernel.ctl_failure;
  ctl_other = table_kernel.ctl_other;
  ctl_exists = table_kernel.ctl_exists;
  wait_keeps = λ room timeout s fd. refl;
}

nine_kernel-IsReliable : IsReliable nine_kernel
nine_kernel-IsReliable = record {
  adds = table_kernel-IsReliable.adds;
  modifies = table_kernel-IsReliable.modifies;
  deletes = table_kernel-IsReliable.deletes;
}

abbrev Queue : Type 0
Queue = QueueLoop nine_kernel ℕ ℕ

abbrev empty_loop : Queue
empty_loop = record {
  kernel = λ fd. none;
  event_pool = [];
  store = λ id. Event.create 0;
  next_event = 0;
  rest = EventFd.create;
}

empty_loop-Synced : Synced empty_loop
unfolding lookup
empty_loop-Synced fd = refl

free_nine : entry empty_loop 9 ≡ none
unfolding lookup
free_nine = refl

-- Callback 7 posts callback 9, and no other posts anything.
abbrev posts : ℕ → List (Option ℕ)
posts callback = if callback == 7 then some 9 ∷ [] else []

abbrev run_callback : ℕ → Queue → Queue
run_callback callback c = record c { rest = post_all (posts callback) c.rest }

run_callback-PostsOnly : PostsOnly run_callback posts
run_callback-PostsOnly callback c = refl

abbrev no_other : ℕ → Queue → Queue
no_other x c = c

wait_and_run_handler-post_all_example :
    let after =
      wait_and_run_handler
        (run_handler run_callback no_other)
        (pos 100)
        (posted_to 9 (some 7 ∷ none ∷ some 8 ∷ []) empty_loop) in
    (after.rest.executed ≡ empty_loop.rest.executed ++ (empty_loop.rest.callbacks ++ (7 ∷ 8 ∷ [])))
    × (after.rest.callbacks ≡ 9 ∷ [])
    × (after.rest.counter ≡ 1)
unfolding EventFd.create
wait_and_run_handler-post_all_example =
    wait_and_run_handler-post_all run_callback posts no_other 9 (some 7 ∷ none ∷ some 8 ∷ [])
      (pos 100) empty_loop run_callback-PostsOnly nine_kernel-IsReliable empty_loop-Synced free_nine
      refl
