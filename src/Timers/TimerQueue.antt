-- ===== src/Timers/TimerQueue.antt =====
-- src/timer/timerQueue.cpp, class TimerQueue: the two multimaps of timers, the handler of the timer
-- descriptor, and when the descriptor is set. The clock is a parameter, its readings in order. A
-- callback is taken not to set timers itself: it runs while the queue's mutex is held, for which
-- `runOnceAfter` and `runEveryInterval` would wait.
pub mod Sorted
pub mod Merging
pub mod Resetting
pub mod Arming
pub mod Firing
pub mod Spinning
pub mod Renewing
pub mod Due
pub mod Tests
use plugins_engine.Prelude.{
  ℕ, zero, suc, ◌+◌, ◌-◌, ◌%◌, ◌^◌, Bool, true, false, ◌&&◌, Option, none, some, List, [], ◌∷◌,
  ◌++◌, ltb, ◌==◌, if◌then◌else◌,
}
use plugins_engine.Prelude.Int.{ℤ, pos, negsuc}
use plugins_engine.Timers.Timer.{
  Timespec, Timer, create, to_ms, get_timeout_ms, get_time_interval, update,
}

-- The readings of `clock_gettime(CLOCK_MONOTONIC)`.
abbrev pub Clock : Type 0
Clock = ℕ → Timespec

-- `std::multimap<uint64_t, std::shared_ptr<Timer>>`, in the order of iteration.
abbrev pub Timers : Type 0 → Type 0
Timers C = List (ℕ × Timer C)

module _ {C : Type 0} where
  -- `insert` of a multimap: behind the entries with the same key.
  pub insert_timer : ℕ → Timer C → Timers C → Timers C
  insert_timer key timer [] = (key, timer) ∷ []
  insert_timer key timer ((k, t) ∷ timers) =
      if ltb key k then (key, timer) ∷ (k, t) ∷ timers else (k, t) ∷ insert_timer key timer timers

  pub count : ℕ → Timers C → ℕ
  count key [] = 0
  count key ((k, t) ∷ timers) = if k == key then count key timers + 1 else count key timers

-- `armed` is what the timer descriptor was last set to, `fired` the callbacks called so far, and
-- `readings` the number of readings of the clock so far.
pub record TimerQueue (C : Type 0) : Type 0 where
  pub once_timers : Timers C
  pub recurring_timers : Timers C
  pub armed : Option Timespec
  pub fired : List C
  pub readings : ℕ

-- What the constructor sets beside the descriptor and its event.
abbrev pub new_queue : {C : Type 0} → TimerQueue C
new_queue = record {
  once_timers = [];
  recurring_timers = [];
  armed = none;
  fired = [];
  readings = 0;
}

-- The conversion of `int interval` to `uint32_t`.
pub int_to_u32 : ℤ → ℕ
int_to_u32 (pos n) = n % 2 ^ 32
int_to_u32 (negsuc n) = 2 ^ 32 - 1 - n % 2 ^ 32

module _ {C : Type 0} where
  pub need_reset_timer : Timers C → Timer C → Bool
  need_reset_timer [] timer = true
  need_reset_timer ((k, t) ∷ timers) timer =
      if ltb k (get_timeout_ms timer)
      then false
      else if ltb 1 (count (get_timeout_ms timer) ((k, t) ∷ timers))
      then false
      else true

module _ {C : Type 0} (clock : Clock) where
  -- `resetTimer(timer)`; `timerfd_settime` is taken to succeed.
  pub reset_timer : Timer C → TimerQueue C → TimerQueue C
  reset_timer timer q = record q {
    armed = some (get_time_interval timer (clock q.readings));
    readings = q.readings + 1;
  }

  pub reset_if : Bool → Timer C → TimerQueue C → TimerQueue C
  reset_if true timer q = reset_timer timer q
  reset_if false timer q = q

  -- `resetTimer()`.
  pub reset_first : Timers C → Timers C → TimerQueue C → TimerQueue C
  reset_first [] [] q = q
  reset_first [] ((k, recurring) ∷ _) q = reset_timer recurring q
  reset_first ((k, once) ∷ _) [] q = reset_timer once q
  reset_first ((k, once) ∷ _) ((i, recurring) ∷ _) q =
      reset_timer (if ltb (get_timeout_ms recurring) (get_timeout_ms once) then recurring else once)
        q

  pub add_once_timer : C → ℕ → TimerQueue C → TimerQueue C
  add_once_timer callback interval q =
      let timer = create interval callback (clock q.readings) in
      let timers = insert_timer (get_timeout_ms timer) timer q.once_timers in
      reset_if (need_reset_timer timers timer && need_reset_timer q.recurring_timers timer) timer
        (record q { once_timers = timers; readings = q.readings + 1 })

  pub run_once_after : C → ℤ → TimerQueue C → TimerQueue C
  run_once_after handler interval q = add_once_timer handler (int_to_u32 interval) q

  pub add_recurring_timer : C → ℕ → TimerQueue C → TimerQueue C
  add_recurring_timer handler interval q =
      let timer = create interval handler (clock q.readings) in
      let timers = insert_timer (get_timeout_ms timer) timer q.recurring_timers in
      reset_if (need_reset_timer q.once_timers timer && need_reset_timer timers timer) timer
        (record q { recurring_timers = timers; readings = q.readings + 1 })

  pub run_every_interval : C → ℤ → TimerQueue C → TimerQueue C
  run_every_interval handler interval q = add_recurring_timer handler (int_to_u32 interval) q

  -- The first loop of `timerHandle`, at the timers from the iterator on.
  pub fire_once : Timers C → TimerQueue C → TimerQueue C
  fire_once [] q = record q { once_timers = [] }
  fire_once ((k, timer) ∷ timers) q =
      let next =
        fire_once timers
          (record q { fired = q.fired ++ (timer.callback ∷ []); readings = q.readings + 1 }) in
      if ltb (to_ms (clock q.readings)) k
      then record q { once_timers = (k, timer) ∷ timers; readings = q.readings + 1 }
      else next

  -- The second loop, at the timers before the iterator and those from it on; `none` where the fuel
  -- does not reach the end. The timer is inserted again before its old entry is erased, so the
  -- loop meets it again.
  pub fire_recurring : ℕ → Timers C → Timers C → TimerQueue C → Option (TimerQueue C)
  fire_recurring fuel before [] q = some (record q { recurring_timers = before })
  fire_recurring zero before ((k, timer) ∷ timers) q = none
  fire_recurring (suc fuel) before ((k, timer) ∷ timers) q =
      let again = update timer (clock (q.readings + 1)) in
      let key = get_timeout_ms again in
      let next = record q { fired = q.fired ++ (timer.callback ∷ []); readings = q.readings + 2 } in
      let earlier = fire_recurring fuel (insert_timer key again before) timers next in
      let later = fire_recurring fuel before (insert_timer key again timers) next in
      if ltb (to_ms (clock q.readings)) k
      then some (record q {
        recurring_timers = before ++ ((k, timer) ∷ timers);
        readings = q.readings + 1;
      })
      else if ltb key k
      then earlier
      else later

  pub finish_handle : Option (TimerQueue C) → Option (TimerQueue C)
  finish_handle none = none
  finish_handle (some q) = some (reset_first q.once_timers q.recurring_timers q)

  -- `timerHandle`.
  pub timer_handle : ℕ → TimerQueue C → Option (TimerQueue C)
  timer_handle fuel q =
      let after = fire_once q.once_timers q in
      finish_handle (fire_recurring fuel [] after.recurring_timers after)
