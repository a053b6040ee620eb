-- ===== src/Events/EventLoop/Tests.antt =====
-- A loop of src/event/eventLoop.cpp over a small kernel, and its theorems there.
use plugins_engine.Prelude.{ℕ, ◌≡◌, ◌≤◌, refl, true, false, List, [], ◌∷◌, take}
use plugins_engine.Events.EventCtrl.TableKernel.{table_kernel, one_event}
use plugins_engine.Events.EventLoop.{Loop, Request, runs, stops, run}
use plugins_engine.Events.EventLoop.Turns.{all_handed_over, Ended, Has, run-CallsAll, run-stop}

-- The loop that watches descriptor 5, with a function that waits already.
abbrev watching : Loop table_kernel ℕ ℕ (List ℕ)
watching = record {
  kernel = one_event.kernel;
  event_pool = one_event.event_pool;
  store = one_event.store;
  next_event = one_event.next_event;
  rest = record { running = true; functions = 7 ∷ []; called = []; other = [] };
}

-- A callback and a function that record themselves.
abbrev note : ℕ → Loop table_kernel ℕ ℕ (List ℕ) → Loop table_kernel ℕ ℕ (List ℕ)
note n l = record l { rest = record (l.rest) { other = n ∷ l.rest.other } }

note-Has :
    (n : ℕ) (l : Loop table_kernel ℕ ℕ (List ℕ)) (called functions : List ℕ)
    → Has called functions l.rest
    → Has called functions (note n l).rest
note-Has n l called functions h = h

note_keeps_stopped :
    (n : ℕ) (l : Loop table_kernel ℕ ℕ (List ℕ))
    → l.rest.running ≡ false
    → (note n l).rest.running ≡ false
note_keeps_stopped n l h = h

abbrev two_turns : List (List (Request ℕ))
two_turns = (runs 9 ∷ (stops ∷ [])) ∷ ((runs 4 ∷ []) ∷ [])

run-CallsAll_example :
    (taken : ℕ) × (taken ≤ 2)
    × Ended two_turns taken (run note note ((runs 8 ∷ []) ∷ two_turns) watching)
    × Has
        (7 ∷ (8 ∷ all_handed_over (take taken two_turns)))
        []
        (run note note ((runs 8 ∷ []) ∷ two_turns) watching).rest
run-CallsAll_example =
    run-CallsAll note note note-Has note-Has (runs 8 ∷ []) two_turns watching refl

run-stop_example :
    run note note ((runs 8 ∷ []) ∷ two_turns) watching
    ≡ run note note ((runs 8 ∷ []) ∷ ((runs 9 ∷ (stops ∷ [])) ∷ [])) watching
run-stop_example =
    run-stop note note note_keeps_stopped note_keeps_stopped ((runs 8 ∷ []) ∷ [])
      (runs 9 ∷ (stops ∷ [])) ((runs 4 ∷ []) ∷ []) watching tt
