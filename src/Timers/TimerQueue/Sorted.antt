-- ===== src/Timers/TimerQueue/Sorted.antt =====
-- The order of the multimaps of src/timer/timerQueue.cpp.
use plugins_engine.Prelude.{ℕ, ◌≤◌, ◌≡◌, [], ◌∷◌, arith, ltb, ltb→lt, Bool-cases, inl, inr}
use plugins_engine.Timers.Timer.{Timer, get_timeout_ms}
use plugins_engine.Timers.TimerQueue.{Timers, TimerQueue, insert_timer}

-- Each entry stands under the time at which its timer expires, in ascending order from `floor` on.
abbrev pub IsSorted : {C : Type 0} → ℕ → Timers C → Type 0
IsSorted floor [] = Unit {0}
IsSorted floor ((k, t) ∷ timers) = (floor ≤ k) × (k ≡ get_timeout_ms t) × IsSorted k timers

pub insert_timer-IsSorted :
    {C : Type 0} (floor key : ℕ) (timer : Timer C) (timers : Timers C)
    → IsSorted floor timers
    → floor ≤ key
    → key ≡ get_timeout_ms timer
    → IsSorted floor (insert_timer key timer timers)
unfolding insert_timer
insert_timer-IsSorted floor key timer [] s le e = (le, e, tt)
insert_timer-IsSorted floor key timer ((k, t) ∷ timers) (low, at, s) le e =
    elim (Bool-cases (ltb key k)) [
      | inl p ↦ rw p (le, e, (omega (arith, ltb→lt key k p), at, s))
      | inr p ↦ rw p (low, at, insert_timer-IsSorted k key timer timers s (ground (arith, p)) e)
    ]

abbrev pub IsOrdered : {C : Type 0} → TimerQueue C → Type 0
IsOrdered q = IsSorted 0 q.once_timers × IsSorted 0 q.recurring_timers
