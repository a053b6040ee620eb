-- ===== src/Timers/Timer/Expiry.antt =====
-- The arithmetic of src/timer/timer.cpp.
use plugins_engine.Prelude.{
  ℕ, ◌+◌, ◌-◌, ◌*◌, ◌/◌, ◌%◌, ◌^◌, ◌<◌, ◌≡◌, ap, ◌∙◌, arith, to_u32, sub_u64,
}
use plugins_engine.Timers.Timer.{
  Timespec, Timer, carry, to_ms, interval_between, ms_to_timespec, get_timeout, get_timeout_ms,
  get_time_interval, update,
}

-- The time in nanoseconds.
abbrev pub nanoseconds : Timespec → ℕ
nanoseconds t = t.tv_sec * 1000000000 + t.tv_nsec

abbrev pub IsNormal : Timespec → Type 0
IsNormal t = t.tv_nsec < 1000000000

carry_lem : (t : Timespec) → IsNormal (carry t) × (nanoseconds (carry t) ≡ nanoseconds t)
unfolding carry
carry_lem t = ground arith

to_ms_lem : (t : Timespec) → to_ms t ≡ nanoseconds t / 1000000
unfolding to_ms
to_ms_lem t = omega arith

-- `getTimeout` is a normalised time, the interval of whole milliseconds behind the timer's own
-- time to the nanosecond, and `getTimeOutMSecond` is that time in milliseconds, rounded down.
pub get_timeout-IsNormal :
    {C : Type 0} (timer : Timer C)
    → IsNormal (get_timeout timer)
      × (nanoseconds (get_timeout timer) ≡ nanoseconds timer.now + timer.interval_ms * 1000000)
      × (get_timeout_ms timer ≡ nanoseconds timer.now / 1000000 + timer.interval_ms)
unfolding get_timeout get_timeout_ms
get_timeout-IsNormal timer = (carried.0, sum, omega (arith, sum, to_ms_lem (get_timeout timer)))
  where
    summed : Timespec
    summed = record {
      tv_sec = timer.now.tv_sec + timer.interval_ms / 1000;
      tv_nsec = timer.now.tv_nsec + to_u32 (timer.interval_ms % 1000 * 1000000);
    }

    carried : IsNormal (carry summed) × (nanoseconds (carry summed) ≡ nanoseconds summed)
    carried = carry_lem summed

    sum : nanoseconds (carry summed) ≡ nanoseconds timer.now + timer.interval_ms * 1000000
    sum = omega (arith, carried.1)

ms_to_timespec_lem :
    (n : ℕ) → IsNormal (ms_to_timespec n) × (nanoseconds (ms_to_timespec n) ≡ n * 1000000)
unfolding ms_to_timespec
ms_to_timespec_lem n = (omega arith, omega arith)

interval_between_left :
    (timeout now_ms left : ℕ)
    → left < 2 ^ 64
    → timeout ≡ now_ms + left
    → interval_between timeout now_ms ≡ 15 + (left - 15)
unfolding interval_between
interval_between_left timeout now_ms left small h = ground (arith, wrapped)
  where
    wrapped : sub_u64 timeout now_ms ≡ left
    wrapped = omega arith

interval_between_overdue :
    (timeout now_ms late : ℕ)
    → 0 < late
    → late + 15 < 2 ^ 64
    → now_ms < 2 ^ 64
    → now_ms ≡ timeout + late
    → interval_between timeout now_ms ≡ 2 ^ 64 - late
unfolding interval_between
interval_between_overdue timeout now_ms late some_late small bound h = ground (arith, wrapped)
  where
    wrapped : sub_u64 timeout now_ms ≡ 2 ^ 64 - late
    wrapped = omega arith

-- `getTimeInterval` of a timer that has not expired is a normalised time: the milliseconds that are
-- left, or 15 if they are fewer.
pub get_time_interval_left :
    {C : Type 0} (timer : Timer C) (t : Timespec) (left : ℕ)
    → left < 2 ^ 64
    → get_timeout_ms timer ≡ to_ms t + left
    → IsNormal (get_time_interval timer t)
      × (nanoseconds (get_time_interval timer t) ≡ (15 + (left - 15)) * 1000000)
unfolding get_time_interval
get_time_interval_left timer t left small h =
    let n = interval_between (get_timeout_ms timer) (to_ms t) in
    (
      (ms_to_timespec_lem n).0,
      (ms_to_timespec_lem n).1
          ∙ ap (λ k. k * 1000000)
              (interval_between_left (get_timeout_ms timer) (to_ms t) left small h),
    )

-- `getTimeInterval` of a timer that has expired before is a wait of 2^64 ms less the delay, about
-- 584 million years: the difference of the two unsigned times wraps.
pub get_time_interval_overdue :
    {C : Type 0} (timer : Timer C) (t : Timespec) (late : ℕ)
    → 0 < late
    → late + 15 < 2 ^ 64
    → to_ms t < 2 ^ 64
    → to_ms t ≡ get_timeout_ms timer + late
    → nanoseconds (get_time_interval timer t) ≡ (2 ^ 64 - late) * 1000000
unfolding get_time_interval
get_time_interval_overdue timer t late some_late small bound h =
    (ms_to_timespec_lem (interval_between (get_timeout_ms timer) (to_ms t))).1
    ∙ ap (λ k. k * 1000000)
        (interval_between_overdue (get_timeout_ms timer) (to_ms t) late some_late small bound h)

pub get_timeout_ms-update :
    {C : Type 0} (timer : Timer C) (t : Timespec)
    → get_timeout_ms (update timer t) ≡ to_ms t + timer.interval_ms
unfolding update
get_timeout_ms-update timer t =
    omega (arith, (get_timeout-IsNormal (record timer { now = t })).2, to_ms_lem t)
