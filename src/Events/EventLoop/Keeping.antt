-- ===== src/Events/EventLoop/Keeping.antt =====
-- What the turns of src/event/eventLoop.cpp keep, if the callbacks and the functions do.
use plugins_engine.Prelude.{List, [], ◌∷◌, Bool-cases, inl, inr}
use plugins_engine.Events.Epoll.{Epoll}
use plugins_engine.Events.EventCtrl.Keeping.{wait_and_run_handler_keeps}
use plugins_engine.Events.EventLoop.{
  Members, Loop, Request, runs, stops, add_fun_in_loop, stop, call_function, run_in_loop,
  call_functions, run_all_function_in_loop, handle_event, request, requests, turn, run,
}
use plugins_engine.Events.EventLoop.Turns.{run_running, run_stopped}

-- A property of the functions executed and of what they work on.
module _ {ℓ} {E : Epoll} {C F X : Type 0} (P : List F → X → Type ℓ)
    (run_event : C → Loop E C F X → Loop E C F X) (run_function : F → Loop E C F X → Loop E C F X)
    (event_keeps : (cb : C) (l : Loop E C F X)
      → P l.rest.called l.rest.other
      → P (run_event cb l).rest.called (run_event cb l).rest.other)
    (function_keeps : (f : F) (l : Loop E C F X)
      → P l.rest.called l.rest.other
      → P
          (call_function run_event run_function f l).rest.called
          (call_function run_event run_function f l).rest.other) where
  abbrev pub Kept : Loop E C F X → Type ℓ
  Kept l = P l.rest.called l.rest.other

  requests_keep :
      (rs : List (Request F)) (l : Loop E C F X)
      → Kept l
      → Kept (requests run_event run_function rs l)
  unfolding requests request run_in_loop add_fun_in_loop stop
  requests_keep [] l h = h
  requests_keep (runs f ∷ rs) l h = requests_keep rs (add_fun_in_loop f l) h
  requests_keep (stops ∷ rs) l h = requests_keep rs (stop l) h

  call_functions_keep :
      (fs : List F) (l : Loop E C F X) → Kept l → Kept (call_functions run_event run_function fs l)
  unfolding call_functions
  call_functions_keep [] l h = h
  call_functions_keep (f ∷ fs) l h = call_functions_keep fs _ (function_keeps f l h)

  turn_keeps :
      (rs : List (Request F)) (l : Loop E C F X) → Kept l → Kept (turn run_event run_function rs l)
  unfolding turn handle_event run_all_function_in_loop
  turn_keeps rs l h = call_functions_keep _ _ (
      wait_and_run_handler_keeps (λ (m : Members F X). P m.called m.other) run_event event_keeps _ _
        (requests_keep rs l h))

  pub run_keeps :
      (turns : List (List (Request F))) (l : Loop E C F X)
      → Kept l
      → Kept (run run_event run_function turns l)
  run_keeps [] l h = unfold run in h
  run_keeps (rs ∷ turns) l h = elim (Bool-cases l.rest.running) [
    | inl running ↦
        rw (run_running run_event run_function rs turns l running)
          (run_keeps turns _ (turn_keeps rs l h))
    | inr stopped ↦ rw (run_stopped run_event run_function rs turns l stopped) h
  ]
