-- ===== src/Timers/Timer.antt =====
-- src/timer/timer.cpp, class Timer: when a timer expires, and how long it is until then.
pub mod Expiry
pub mod Tests
use plugins_engine.Prelude.{ℕ, ◌+◌, ◌*◌, ◌/◌, ◌%◌, leb, if◌then◌else◌, to_u32, sub_u64}

-- `struct timespec` of the monotonic clock, which is never negative.
pub record Timespec : Type 0 where
  pub tv_sec : ℕ
  pub tv_nsec : ℕ

-- `C` is the type of callbacks.
pub record Timer (C : Type 0) : Type 0 where
  pub interval_ms : ℕ
  pub now : Timespec
  pub callback : C

-- `timeout` behind the sums.
unfoldable pub carry : Timespec → Timespec
carry t =
    if leb 1000000000 t.tv_nsec
    then record { tv_sec = t.tv_sec + t.tv_nsec / 1000000000; tv_nsec = t.tv_nsec % 1000000000 }
    else t

-- `getTimeOutMSecond` and `getNowTimeMSecond` of what they compute with.
unfoldable pub to_ms : Timespec → ℕ
to_ms t = t.tv_sec * 1000 + t.tv_nsec / 1000000

-- `getTimeInterval` for the two times.
pub interval_between : ℕ → ℕ → ℕ
interval_between timeout now_ms =
    let interval = sub_u64 timeout now_ms in if leb interval 15 then 15 else interval

pub ms_to_timespec : ℕ → Timespec
ms_to_timespec interval = record { tv_sec = interval / 1000; tv_nsec = interval % 1000 * 1000000 }

module _ {C : Type 0} where
  -- The constructor, at the reading `t` of the clock.
  pub create : ℕ → C → Timespec → Timer C
  create interval callback t = record { interval_ms = interval; now = t; callback = callback }

  unfoldable pub get_timeout : Timer C → Timespec
  get_timeout timer = carry (record {
    tv_sec = timer.now.tv_sec + timer.interval_ms / 1000;
    tv_nsec = timer.now.tv_nsec + to_u32 (timer.interval_ms % 1000 * 1000000);
  })

  unfoldable pub get_timeout_ms : Timer C → ℕ
  get_timeout_ms timer = to_ms (get_timeout timer)

  -- `getTimeInterval`, at the reading `t`.
  unfoldable pub get_time_interval : Timer C → Timespec → Timespec
  get_time_interval timer t = ms_to_timespec (interval_between (get_timeout_ms timer) (to_ms t))

  unfoldable pub update : Timer C → Timespec → Timer C
  update timer t = record timer { now = t }

  pub set_handle : Timer C → C → Timer C
  set_handle timer callback = record timer { callback = callback }
