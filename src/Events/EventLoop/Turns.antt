-- ===== src/Events/EventLoop/Turns.antt =====
-- What src/event/eventLoop.cpp executes, in what order, and when it ends.
use plugins_engine.Prelude.{
  ℕ, suc, ◌≤◌, ◌≡◌, refl, sym, ap, ◌∙◌, true, false, List, [], ◌∷◌, ◌++◌, take, if◌then◌else◌,
  length, Bool-cases, inl, inr, ◌⊎◌, arith, append_assoc, append-nil,
}
use plugins_engine.Events.Epoll.{Epoll}
use plugins_engine.Events.EventCtrl.Keeping.{wait_and_run_handler_keeps}
use plugins_engine.Events.EventLoop.{
  Members, Loop, Request, runs, stops, add_fun_in_loop, stop, call_function, run_in_loop,
  call_functions, run_all_function_in_loop, handle_event, request, requests, turn, run,
}

-- The functions that requests hand over.
abbrev pub handed_over : {F : Type 0} → List (Request F) → List F
handed_over [] = []
handed_over (runs f ∷ rs) = f ∷ handed_over rs
handed_over (stops ∷ rs) = handed_over rs

abbrev pub all_handed_over : {F : Type 0} → List (List (Request F)) → List F
all_handed_over [] = []
all_handed_over (rs ∷ turns) = handed_over rs ++ all_handed_over turns

-- One of the requests is to stop.
abbrev pub Stops : {F : Type 0} → List (Request F) → Type 0
Stops [] = ⊥
Stops (runs f ∷ rs) = Stops rs
Stops (stops ∷ rs) = Unit

-- The members hold these functions, executed and waiting.
abbrev pub Has : {F X : Type 0} → List F → List F → Members F X → Type 0
Has called functions m = (m.called ≡ called) × (m.functions ≡ functions)

module _ {E : Epoll} {C F X : Type 0} where
  -- A run takes all the turns that it was given, unless the loop has been stopped.
  abbrev pub Ended : List (List (Request F)) → ℕ → Loop E C F X → Type 0
  Ended turns taken l = (taken ≡ length turns) ⊎ (l.rest.running ≡ false)

  Ended-suc :
      (rs : List (Request F)) (turns : List (List (Request F))) (taken : ℕ) (l : Loop E C F X)
      → Ended turns taken l
      → Ended (rs ∷ turns) (suc taken) l
  Ended-suc rs turns taken l (inl all) = inl (omega arith)
  Ended-suc rs turns taken l (inr stopped) = inr stopped

module _ {E : Epoll} {C F X : Type 0} (run_event : C → Loop E C F X → Loop E C F X)
    (run_function : F → Loop E C F X → Loop E C F X) where
  pub run_running :
      (rs : List (Request F)) (turns : List (List (Request F))) (l : Loop E C F X)
      → l.rest.running ≡ true
      → run run_event run_function (rs ∷ turns) l
        ≡ run run_event run_function turns (turn run_event run_function rs l)
  unfolding run
  run_running rs turns l running =
      ap (λ b. if b then run run_event run_function turns (turn run_event run_function rs l) else l)
        running

  pub run_stopped :
      (rs : List (Request F)) (turns : List (List (Request F))) (l : Loop E C F X)
      → l.rest.running ≡ false
      → run run_event run_function (rs ∷ turns) l ≡ l
  unfolding run
  run_stopped rs turns l stopped =
      ap (λ b. if b then run run_event run_function turns (turn run_event run_function rs l) else l)
        stopped

module _ {E : Epoll} {C F X : Type 0} (run_event : C → Loop E C F X → Loop E C F X)
    (run_function : F → Loop E C F X → Loop E C F X)
    (event_keeps : (cb : C) (l : Loop E C F X) (called functions : List F)
      → Has called functions l.rest
      → Has called functions (run_event cb l).rest)
    (function_keeps : (f : F) (l : Loop E C F X) (called functions : List F)
      → Has called functions l.rest
      → Has called functions (run_function f l).rest) where
  requests-Has :
      (rs : List (Request F)) (l : Loop E C F X) (called functions : List F)
      → Has called functions l.rest
      → Has called (functions ++ handed_over rs) (requests run_event run_function rs l).rest
  unfolding requests request run_in_loop add_fun_in_loop stop
  requests-Has [] l called functions h = rw (append-nil functions) h
  requests-Has (runs f ∷ rs) l called functions (c, w) =
      rw (sym (append_assoc functions (f ∷ []) (handed_over rs))) (
        requests-Has rs (add_fun_in_loop f l) called (functions ++ (f ∷ []))
          (c, ap (λ t. t ++ (f ∷ [])) w))
  requests-Has (stops ∷ rs) l called functions h = requests-Has rs (stop l) called functions h

  call_functions-Has :
      (fs : List F) (l : Loop E C F X) (called functions : List F)
      → Has called functions l.rest
      → Has (called ++ fs) functions (call_functions run_event run_function fs l).rest
  unfolding call_functions call_function
  call_functions-Has [] l called functions h = rw (append-nil called) h
  call_functions-Has (f ∷ fs) l called functions (c, w) =
      rw (sym (append_assoc called (f ∷ []) fs)) (
        call_functions-Has fs _ (called ++ (f ∷ [])) functions
          (function_keeps f _ (called ++ (f ∷ [])) functions (ap (λ t. t ++ (f ∷ [])) c, w)))

  run_all_function_in_loop-Has :
      (l : Loop E C F X) (called functions : List F)
      → Has called functions l.rest
      → Has (called ++ functions) [] (run_all_function_in_loop run_event run_function l).rest
  unfolding run_all_function_in_loop
  run_all_function_in_loop-Has l called functions (c, w) = (
    (call_functions-Has l.rest.functions l called l.rest.functions (c, refl)).0
        ∙ ap (λ t. called ++ t) w,
    refl,
  )

  turn-Has :
      (rs : List (Request F)) (l : Loop E C F X) (called functions : List F)
      → Has called functions l.rest
      → Has (called ++ (functions ++ handed_over rs)) [] (turn run_event run_function rs l).rest
  unfolding turn handle_event
  turn-Has rs l called functions h =
      run_all_function_in_loop-Has _ called (functions ++ handed_over rs) (
        wait_and_run_handler_keeps (Has called (functions ++ handed_over rs)) run_event
          (λ cb d. event_keeps cb d called (functions ++ handed_over rs)) _ _
          (requests-Has rs l called functions h))

  idle-run :
      (turns : List (List (Request F))) (l : Loop E C F X) (called : List F)
      → Has called [] l.rest
      → (taken : ℕ) × (taken ≤ length turns)
        × Ended turns taken (run run_event run_function turns l)
        × Has
            (called ++ all_handed_over (take taken turns))
            []
            (run run_event run_function turns l).rest
  idle-run [] l called h = unfold run in (0, omega arith, inl refl, rw (append-nil called) h)
  idle-run (rs ∷ turns) l called h = elim (Bool-cases l.rest.running) [
    | inr stopped ↦
        rw (run_stopped run_event run_function rs turns l stopped)
          (0, omega arith, inr stopped, rw (append-nil called) h)
    | inl running ↦
        let (taken, bound, ended, has) =
          idle-run turns (turn run_event run_function rs l) (called ++ handed_over rs)
            (turn-Has rs l called [] h) in
        rw (run_running run_event run_function rs turns l running) (
          suc taken,
          omega arith,
          Ended-suc rs turns taken
              (run run_event run_function turns (turn run_event run_function rs l)) ended,
          rw (sym (append_assoc called (handed_over rs) (all_handed_over (take taken turns)))) has,
        )
  ]

  -- Where the callbacks of events and the functions leave the loop's two lists of functions alone, a
  -- running loop executes first the functions that wait already, and then each function that other
  -- threads hand over, exactly once and in that order: after the run no function waits. The run takes
  -- all the turns it is given, unless the loop is stopped.
  pub run-CallsAll :
      (rs : List (Request F)) (turns : List (List (Request F))) (l : Loop E C F X)
      → l.rest.running ≡ true
      → (taken : ℕ) × (taken ≤ length turns)
        × Ended turns taken (run run_event run_function (rs ∷ turns) l)
        × Has
            (l.rest.called
              ++ (l.rest.functions ++ (handed_over rs ++ all_handed_over (take taken turns))))
            []
            (run run_event run_function (rs ∷ turns) l).rest
  run-CallsAll rs turns l running =
      let (taken, bound, ended, has) =
        idle-run turns (turn run_event run_function rs l) _
          (turn-Has rs l l.rest.called l.rest.functions (refl, refl)) in
      rw (run_running run_event run_function rs turns l running) (
        taken,
        bound,
        ended,
        rw
            (
              sym (
                  append_assoc l.rest.functions (handed_over rs)
                    (all_handed_over (take taken turns))),
              sym (
                  append_assoc l.rest.called (l.rest.functions ++ handed_over rs)
                    (all_handed_over (take taken turns))),
            )
            has,
      )

-- Where no callback sets `running`.
module _ {E : Epoll} {C F X : Type 0} (run_event : C → Loop E C F X → Loop E C F X)
    (run_function : F → Loop E C F X → Loop E C F X)
    (event_keeps : (cb : C) (l : Loop E C F X)
      → l.rest.running ≡ false
      → (run_event cb l).rest.running ≡ false)
    (function_keeps : (f : F) (l : Loop E C F X)
      → l.rest.running ≡ false
      → (run_function f l).rest.running ≡ false) where
  requests_keep_stopped :
      (rs : List (Request F)) (l : Loop E C F X)
      → l.rest.running ≡ false
      → (requests run_event run_function rs l).rest.running ≡ false
  unfolding requests request run_in_loop add_fun_in_loop stop
  requests_keep_stopped [] l h = h
  requests_keep_stopped (runs f ∷ rs) l h = requests_keep_stopped rs (add_fun_in_loop f l) h
  requests_keep_stopped (stops ∷ rs) l h = requests_keep_stopped rs (stop l) refl

  requests_stop :
      (rs : List (Request F)) (l : Loop E C F X)
      → Stops rs
      → (requests run_event run_function rs l).rest.running ≡ false
  unfolding requests request run_in_loop stop
  requests_stop [] l h = absurd h
  requests_stop (runs f ∷ rs) l h = requests_stop rs (add_fun_in_loop f l) h
  requests_stop (stops ∷ rs) l h = requests_keep_stopped rs (stop l) refl

  functions_keep_stopped :
      (fs : List F) (l : Loop E C F X)
      → l.rest.running ≡ false
      → (call_functions run_event run_function fs l).rest.running ≡ false
  unfolding call_functions call_function
  functions_keep_stopped [] l h = h
  functions_keep_stopped (f ∷ fs) l h = functions_keep_stopped fs _ (function_keeps f _ h)

  turn-Stops :
      (rs : List (Request F)) (l : Loop E C F X)
      → Stops rs
      → (turn run_event run_function rs l).rest.running ≡ false
  unfolding turn handle_event run_all_function_in_loop
  turn-Stops rs l h = functions_keep_stopped _ _ (
      wait_and_run_handler_keeps (λ (m : Members F X). m.running ≡ false) run_event event_keeps _ _
        (requests_stop rs l h))

  stopped-run :
      (turns : List (List (Request F))) (l : Loop E C F X)
      → l.rest.running ≡ false
      → run run_event run_function turns l ≡ l
  stopped-run [] l h = unfold run in refl
  stopped-run (rs ∷ turns) l h = run_stopped run_event run_function rs turns l h

  -- Where no callback sets `running` again, a loop that another thread stops ends at the latest with
  -- the turn in which it is stopped, whatever turns lie before: none of the later turns is taken.
  pub run-stop :
      (before : List (List (Request F))) (rs : List (Request F)) (after : List (List (Request F)))
      (l : Loop E C F X)
      → Stops rs
      → run run_event run_function (before ++ (rs ∷ after)) l
        ≡ run run_event run_function (before ++ (rs ∷ [])) l
  run-stop [] rs after l h = elim (Bool-cases l.rest.running) [
    | inl running ↦
        rw
          (
            run_running run_event run_function rs after l running,
            run_running run_event run_function rs [] l running,
          )
          (stopped-run after (turn run_event run_function rs l) (turn-Stops rs l h)
            ∙ sym (stopped-run [] (turn run_event run_function rs l) (turn-Stops rs l h)))
    | inr stopped ↦
        run_stopped run_event run_function rs after l stopped
        ∙ sym (run_stopped run_event run_function rs [] l stopped)
  ]
  run-stop (b ∷ before) rs after l h = elim (Bool-cases l.rest.running) [
    | inl running ↦
        run_running run_event run_function b (before ++ (rs ∷ after)) l running
        ∙ run-stop before rs after (turn run_event run_function b l) h
        ∙ sym (run_running run_event run_function b (before ++ (rs ∷ [])) l running)
    | inr stopped ↦
        run_stopped run_event run_function b (before ++ (rs ∷ after)) l stopped
        ∙ sym (run_stopped run_event run_function b (before ++ (rs ∷ [])) l stopped)
  ]
