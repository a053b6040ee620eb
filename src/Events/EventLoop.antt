-- ===== src/Events/EventLoop.antt =====
-- src/event/eventLoop.cpp, class EventLoop: the turns of the loop, the functions that other threads
-- hand over to it, and its end. What the mutex guards is one step.
pub mod Turns
pub mod Keeping
pub mod Tests
use plugins_engine.Prelude.{ℕ, Bool, true, false, List, [], ◌∷◌, ◌++◌, if◌then◌else◌}
use plugins_engine.Prelude.Int.{ℤ, pos}
use plugins_engine.Events.Epoll.{Epoll}
use plugins_engine.Events.EventCtrl.{Ctrl, wait_and_run_handler}

-- `PollTimeMs`.
abbrev pub poll_time_ms : ℤ
poll_time_ms = pos 3000

-- The loop's own members beside its EventCtrl. `called` are the functions executed so far, and
-- `other` is what they and the callbacks of events work on.
pub record Members (F X : Type 0) : Type 0 where
  pub running : Bool
  pub functions : List F
  pub called : List F
  pub other : X

-- What `EventLoop::EventLoop` sets.
pub create : {F X : Type 0} → X → Members F X
create other = record { running = true; functions = []; called = []; other = other }

abbrev pub Loop : Epoll → Type 0 → Type 0 → Type 0 → Type 0
Loop E C F X = Ctrl E C (Members F X)

-- What another thread does while the loop waits.
pub data Request (F : Type 0) : Type 0 where
  runs : F → Request F
  stops : Request F

module _ {E : Epoll} {C F X : Type 0} where
  unfoldable pub add_fun_in_loop : F → Loop E C F X → Loop E C F X
  add_fun_in_loop f l = record l {
    rest = record (l.rest) { functions = l.rest.functions ++ (f ∷ []) };
  }

  unfoldable pub stop : Loop E C F X → Loop E C F X
  stop l = record l { rest = record (l.rest) { running = false } }

-- `run_event` and `run_function` are the effects of a callback and of a function, in the loop's own
-- thread.
module _ {E : Epoll} {C F X : Type 0} (run_event : C → Loop E C F X → Loop E C F X)
    (run_function : F → Loop E C F X → Loop E C F X) where
  unfoldable pub call_function : F → Loop E C F X → Loop E C F X
  call_function f l =
      run_function f (record l { rest = record (l.rest) { called = l.rest.called ++ (f ∷ []) } })

  pub run_in_loop : Bool → F → Loop E C F X → Loop E C F X
  run_in_loop in_this_thread f l = if in_this_thread then call_function f l else add_fun_in_loop f l

  pub call_functions : List F → Loop E C F X → Loop E C F X
  call_functions [] l = l
  call_functions (f ∷ functions) l = call_functions functions (call_function f l)

  pub run_all_function_in_loop : Loop E C F X → Loop E C F X
  run_all_function_in_loop l =
      let done = call_functions l.rest.functions l in
      record done { rest = record (done.rest) { functions = [] } }

  pub handle_event : ℤ → Loop E C F X → Loop E C F X
  handle_event time_ms l = wait_and_run_handler run_event time_ms l

  pub request : Request F → Loop E C F X → Loop E C F X
  request (runs f) l = run_in_loop false f l
  request stops l = stop l

  pub requests : List (Request F) → Loop E C F X → Loop E C F X
  requests [] l = l
  requests (r ∷ rs) l = requests rs (request r l)

  -- One turn of `run`, in which the other threads make these requests while it waits.
  pub turn : List (Request F) → Loop E C F X → Loop E C F X
  turn rs l = run_all_function_in_loop (handle_event poll_time_ms (requests rs l))

  -- `run`, for as many turns at most as there are lists of requests.
  pub run : List (List (Request F)) → Loop E C F X → Loop E C F X
  run [] l = l
  run (rs ∷ turns) l = let further = run turns (turn rs l) in if l.rest.running then further else l
