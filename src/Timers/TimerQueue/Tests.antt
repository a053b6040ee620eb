-- ===== src/Timers/TimerQueue/Tests.antt =====
-- The queue of timers at concrete timers and readings, and its theorems there.
use plugins_engine.Prelude.{ℕ, ◌≡◌, refl, none, some, [], ◌∷◌, arith, inl, inr}
use plugins_engine.Prelude.Int.{pos}
use plugins_engine.Timers.Timer.{Timer, get_timeout_ms, get_timeout, carry, to_ms}
use plugins_engine.Timers.TimerQueue.{
  Clock, TimerQueue, new_queue, run_once_after, run_every_interval, fire_recurring, timer_handle,
}
use plugins_engine.Timers.TimerQueue.Sorted.{IsOrdered}
use plugins_engine.Timers.TimerQueue.Arming.{
  IsArmed, Steps, start, next, once_after, every_interval, Steps-IsArmed,
}
use plugins_engine.Timers.TimerQueue.Firing.{Handles, Within, timer_handle-Handles}
use plugins_engine.Timers.TimerQueue.Due.{Punctual, timer_handle-Punctual}
use plugins_engine.Timers.TimerQueue.Spinning.{fire_recurring_endless, IsMonotonic}

-- A clock that stands at 2 s.
abbrev clock : Clock
clock i = record { tv_sec = 2; tv_nsec = 0 }

-- Set at 1 s, to expire at 1.5 s, 3 s and 2 s.
abbrev early : Timer ℕ
early = record { interval_ms = 500; now = record { tv_sec = 1; tv_nsec = 0 }; callback = 1 }

abbrev late : Timer ℕ
late = record { interval_ms = 2000; now = record { tv_sec = 1; tv_nsec = 0 }; callback = 2 }

abbrev repeating : Timer ℕ
repeating = record { interval_ms = 1000; now = record { tv_sec = 1; tv_nsec = 0 }; callback = 3 }

abbrev queue : TimerQueue ℕ
queue = record {
  once_timers = (1500, early) ∷ (3000, late) ∷ [];
  recurring_timers = (2000, repeating) ∷ [];
  armed = none;
  fired = [];
  readings = 0;
}

queue-IsOrdered : IsOrdered queue
unfolding get_timeout_ms get_timeout carry to_ms
queue-IsOrdered = ((omega arith, refl, (omega arith, refl, tt)), (omega arith, refl, tt))

two_seconds : to_ms (clock 0) ≡ 2000
unfolding to_ms
two_seconds = refl

queue-Within : Within 2000 2000 clock 0 5
queue-Within j lo hi = (omega (arith, two_seconds), omega (arith, two_seconds))

-- A queue without timers, which gets one of each kind and then fires.
abbrev empty : TimerQueue ℕ
empty = new_queue

abbrev two_timers : TimerQueue ℕ
two_timers = run_every_interval clock 6 (pos 400) (run_once_after clock 4 (pos 700) empty)

two_timers_Steps : Steps clock empty two_timers
two_timers_Steps =
    next empty (run_once_after clock 4 (pos 700) empty) two_timers (once_after 4 (pos 700) empty) (
      next (run_once_after clock 4 (pos 700) empty) two_timers two_timers
        (every_interval 6 (pos 400) (run_once_after clock 4 (pos 700) empty)) (start two_timers))

Steps-IsArmed_example : IsArmed clock two_timers
Steps-IsArmed_example = Steps-IsArmed clock empty two_timers (inl (refl, refl)) two_timers_Steps

-- What the handler leaves of the queue.
handled : (r : TimerQueue ℕ) × (timer_handle clock 2 queue ≡ some r) × Handles 2000 2000 queue r
handled =
    timer_handle-Handles clock 2000 2000 queue queue-IsOrdered
      (inl (omega arith), (inr (omega arith), tt)) (inl (omega arith), tt) (omega arith, tt)
      queue-Within

timer_handle-Punctual_example : Punctual clock queue handled.0
timer_handle-Punctual_example =
    timer_handle-Punctual clock 2 queue handled.0 queue-IsOrdered handled.1

-- A timer set at 2 s to fire at once, again and again.
abbrev spinning : Timer ℕ
spinning = record { interval_ms = 0; now = record { tv_sec = 2; tv_nsec = 0 }; callback = 5 }

spinning_key : 2000 ≡ get_timeout_ms spinning
unfolding get_timeout_ms get_timeout carry to_ms
spinning_key = refl

clock-IsMonotonic : IsMonotonic clock
clock-IsMonotonic i j h = omega arith

fire_recurring_endless_example :
    fire_recurring clock 100 [] ((2000, spinning) ∷ (2000, repeating) ∷ []) queue ≡ none
fire_recurring_endless_example =
    fire_recurring_endless clock 100 2000 [] ((2000, spinning) ∷ (2000, repeating) ∷ []) queue
      clock-IsMonotonic (omega arith, spinning_key, (omega arith, queue-IsOrdered.1.1, tt))
      (inl (omega (arith, two_seconds), refl))
