-- ===== src/Timers/Timer/Tests.antt =====
-- Timers at concrete times.
use plugins_engine.Prelude.{ℕ, ◌+◌, ◌-◌, ◌*◌, ◌^◌, ◌<◌, ◌≡◌, refl, arith}
use plugins_engine.Timers.Timer.{
  Timespec, Timer, get_timeout, get_timeout_ms, get_time_interval, to_ms, carry,
}
use plugins_engine.Timers.Timer.Expiry.{nanoseconds, get_time_interval_overdue}

-- 1.9 s on the clock, and 1.25 s to wait.
abbrev timer : Timer ℕ
timer = record {
  interval_ms = 1250;
  now = record { tv_sec = 1; tv_nsec = 900000000 };
  callback = 0;
}

expires : get_timeout timer ≡ record { tv_sec = 3; tv_nsec = 150000000 }
unfolding get_timeout carry
expires = refl

abbrev at_two : Timespec
at_two = record { tv_sec = 2; tv_nsec = 0 }

abbrev at_four : Timespec
at_four = record { tv_sec = 4; tv_nsec = 0 }

left : get_timeout_ms timer ≡ to_ms at_two + 1150
unfolding get_timeout_ms get_timeout carry to_ms
left = refl

late : to_ms at_four ≡ get_timeout_ms timer + 850
unfolding get_timeout_ms get_timeout carry to_ms
late = refl

small : to_ms at_four < 2 ^ 64
unfolding to_ms
small = omega arith

get_time_interval_overdue_example :
    nanoseconds (get_time_interval timer at_four) ≡ (2 ^ 64 - 850) * 1000000
get_time_interval_overdue_example =
    get_time_interval_overdue timer at_four 850 (omega arith) (omega arith) small late
