-- ===== src/Threads/EventThread/Tests.antt =====
-- The two threads of src/thread/eventThread.cpp in one interleaving, and the theorems there.
use plugins_engine.Prelude.{◌≡◌, refl, Bool, true, false, none, some}
use plugins_engine.Threads.EventThread.{
  EventThread, create, start, test_started, publish, ask, ask_for, return_loop, notify_child,
  notify_caller, is_asleep, starts, enters, tests_again, publishes, asks, returns, wakes_caller,
  Steps, done, next, returned, notified, waiting,
}
use plugins_engine.Threads.EventThread.Handover.{then_steps, Steps-Returns}

-- The new thread sleeps before `start`; the other one asks before the loop is there.
abbrev asleep_state : EventThread
asleep_state = test_started create

abbrev started_state : EventThread
started_state = start asleep_state

abbrev asked_state : EventThread
asked_state = ask (test_started started_state)

asked : (spurious : Bool) → Steps 5 spurious create asked_state
unfolding create test_started start notify_child ask ask_for
asked spurious = next create asleep_state asked_state (enters create refl) (
    next asleep_state started_state asked_state (starts asleep_state is_asleep) (
      next started_state (test_started started_state) asked_state (tests_again started_state refl) (
        next (test_started started_state) asked_state asked_state
          (asks (test_started started_state) refl) (done asked_state))))

asked_started : asked_state.started ≡ true
unfolding create test_started start ask ask_for
asked_started = refl

Steps-Returns_example :
    (t : EventThread) × Steps 5 false asked_state t × (t.caller ≡ returned (some 5))
Steps-Returns_example = Steps-Returns 5 asked_state (asked false) asked_started

abbrev answered_state : EventThread
answered_state = return_loop (publish 5 asked_state)

answered : Steps 5 false create answered_state
unfolding create test_started start notify_child ask ask_for publish notify_caller return_loop
answered = then_steps 5 create asked_state answered_state (asked false) (
    next asked_state (publish 5 asked_state) answered_state (publishes asked_state refl) (
      next (publish 5 asked_state) answered_state answered_state
        (returns (publish 5 asked_state) refl) (done answered_state)))

answered_caller : answered_state.caller ≡ returned answered_state.loop
unfolding create test_started start notify_child ask ask_for publish notify_caller return_loop
answered_caller = refl

abbrev woken_state : EventThread
woken_state = record asked_state { caller = notified }

-- After a spurious wake-up `getEventLoopInThread` returns a null pointer.
spurious_null : Steps 5 true create (return_loop woken_state)
unfolding create test_started start notify_child ask ask_for
spurious_null = then_steps 5 create asked_state (return_loop woken_state) (asked true) (
    next asked_state woken_state (return_loop woken_state) (wakes_caller asked_state refl waits) (
      next woken_state (return_loop woken_state) (return_loop woken_state)
        (returns woken_state refl) (done (return_loop woken_state))))
  where
    waits : asked_state.caller ≡ waiting
    waits = refl

spurious_caller : (return_loop woken_state).caller ≡ returned none
unfolding create test_started start notify_child ask ask_for return_loop
spurious_caller = refl
