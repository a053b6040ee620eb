-- ===== src/Threads/EventThread.antt =====
-- src/thread/thread.cpp and src/thread/eventThread.cpp, classes Thread and EventLoopThread: the start of
-- a thread and the handing over of its loop to the thread that asks for it. What one mutex guards is
-- one step; the steps of the two threads interleave in any order.
pub mod Handover
pub mod Tests
use plugins_engine.Prelude.{ℕ, ◌≡◌, Bool, true, false, Option, none, some, if◌then◌else◌}

-- Where the new thread is: before `beginRun` has the mutex, in `condition.wait`, behind a wake-up, in
-- `run` before its block, or behind that block, in the loop. In the last two it holds the mutex of
-- Thread.
pub data Child : Type 0 where
  entering asleep woken in_run looping : Child

-- Where the thread is that calls `getEventLoopInThread`.
pub data Caller : Type 0 where
  elsewhere waiting notified : Caller
  returned : Option ℕ → Caller

pub record EventThread : Type 0 where
  pub started : Bool
  pub child : Child
  pub loop : Option ℕ
  pub caller : Caller

-- The constructors; `std::thread` runs `beginRun` at once.
pub create : EventThread
create = record { started = false; child = entering; loop = none; caller = elsewhere }

-- Who wakes up by `notify_one`.
pub notify_child : Child → Child
notify_child asleep = woken
notify_child entering = entering
notify_child woken = woken
notify_child in_run = in_run
notify_child looping = looping

pub notify_caller : Caller → Caller
notify_caller waiting = notified
notify_caller elsewhere = elsewhere
notify_caller notified = notified
notify_caller (returned loop) = returned loop

-- `start`.
pub start : EventThread → EventThread
start s = record s { started = true; child = notify_child s.child }

-- The test of the loop in `beginRun`.
pub test_started : EventThread → EventThread
test_started s = record s { child = if s.started then in_run else asleep }

-- The block of `run`, where the thread's loop lies at `loop`.
pub publish : ℕ → EventThread → EventThread
publish loop s = record s { loop = some loop; child = looping; caller = notify_caller s.caller }

-- The block of `getEventLoopInThread` up to the wait, and its `return`.
ask_for : Option ℕ → EventThread → EventThread
ask_for none s = record s { caller = waiting }
ask_for (some loop) s = record s { caller = returned (some loop) }

pub ask : EventThread → EventThread
ask s = ask_for s.loop s

pub return_loop : EventThread → EventThread
return_loop s = record s { caller = returned s.loop }

-- The new thread does not hold the mutex of Thread.
pub data Released : Child → Type 0 where
  is_entering : Released entering
  is_asleep : Released asleep
  is_woken : Released woken

-- What may happen next; a wake-up without a notification only if `spurious` holds.
pub data Step (event_loop : ℕ) (spurious : Bool) : EventThread → EventThread → Type 0 where
  starts : (s : EventThread) → Released s.child → Step event_loop spurious s (start s)
  enters : (s : EventThread) → s.child ≡ entering → Step event_loop spurious s (test_started s)
  tests_again : (s : EventThread) → s.child ≡ woken → Step event_loop spurious s (test_started s)
  publishes :
      (s : EventThread) → s.child ≡ in_run → Step event_loop spurious s (publish event_loop s)
  asks : (s : EventThread) → s.caller ≡ elsewhere → Step event_loop spurious s (ask s)
  returns : (s : EventThread) → s.caller ≡ notified → Step event_loop spurious s (return_loop s)
  wakes_child :
      (s : EventThread)
      → spurious ≡ true
      → s.child ≡ asleep
      → Step event_loop spurious s (record s { child = woken })
  wakes_caller :
      (s : EventThread)
      → spurious ≡ true
      → s.caller ≡ waiting
      → Step event_loop spurious s (record s { caller = notified })

pub data Steps (event_loop : ℕ) (spurious : Bool) : EventThread → EventThread → Type 0 where
  done : (s : EventThread) → Steps event_loop spurious s s
  next :
      (s t u : EventThread)
      → Step event_loop spurious s t
      → Steps event_loop spurious t u
      → Steps event_loop spurious s u
