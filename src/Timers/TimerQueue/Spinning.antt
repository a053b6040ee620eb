-- ===== src/Timers/TimerQueue/Spinning.antt =====
-- Recurring timers of src/timer/timerQueue.cpp with the interval 0.
use plugins_engine.Prelude.{
  ℕ, zero, suc, ◌+◌, ◌≤◌, ◌≡◌, refl, true, false, none, [], ◌∷◌, ◌++◌, arith, ltb, Bool-cases, ◌⊎◌,
  inl, inr,
}
use plugins_engine.Timers.Timer.{Timer, get_timeout_ms, to_ms, update}
use plugins_engine.Timers.Timer.Expiry.{get_timeout_ms-update}
use plugins_engine.Timers.TimerQueue.{Clock, Timers, TimerQueue, insert_timer, fire_recurring}
use plugins_engine.Timers.TimerQueue.Sorted.{IsSorted, insert_timer-IsSorted}

-- CLOCK_MONOTONIC never runs backwards.
abbrev pub IsMonotonic : Clock → Type 0
IsMonotonic clock = (i j : ℕ) → i ≤ j → to_ms (clock i) ≤ to_ms (clock j)

-- A timer with the interval 0 has expired at `now_ms`.
abbrev pub Spins : {C : Type 0} → ℕ → Timers C → Type 0
Spins now_ms [] = ⊥
Spins now_ms ((k, t) ∷ timers) = ((k ≤ now_ms) × (t.interval_ms ≡ 0)) ⊎ Spins now_ms timers

expired_head :
    {C : Type 0} (now_ms floor : ℕ) (timers : Timers C)
    → IsSorted floor timers
    → Spins now_ms timers
    → floor ≤ now_ms
expired_head now_ms floor [] s spins = elim spins [ ]
expired_head now_ms floor ((k, t) ∷ timers) (low, at, s) (inl (le, z)) = omega arith
expired_head now_ms floor ((k, t) ∷ timers) (low, at, s) (inr spins) =
    omega (arith, expired_head now_ms k timers s spins)

later-Spins :
    {C : Type 0} (now_ms later : ℕ) (timers : Timers C)
    → Spins now_ms timers
    → now_ms ≤ later
    → Spins later timers
later-Spins now_ms later [] spins h = elim spins [ ]
later-Spins now_ms later ((k, t) ∷ timers) (inl (le, z)) h = inl (omega arith, z)
later-Spins now_ms later ((k, t) ∷ timers) (inr spins) h =
    inr (later-Spins now_ms later timers spins h)

insert_timer_keeps :
    {C : Type 0} (now_ms key : ℕ) (timer : Timer C) (timers : Timers C)
    → Spins now_ms timers
    → Spins now_ms (insert_timer key timer timers)
unfolding insert_timer
insert_timer_keeps now_ms key timer [] spins = elim spins [ ]
insert_timer_keeps now_ms key timer ((k, t) ∷ timers) (inl h) = elim (Bool-cases (ltb key k)) [
  | inl p ↦ rw p (inr (inl h))
  | inr p ↦ rw p (inl h)
]
insert_timer_keeps now_ms key timer ((k, t) ∷ timers) (inr h) =
    let kept : Spins now_ms (insert_timer key timer timers) =
      insert_timer_keeps now_ms key timer timers h in
    elim (Bool-cases (ltb key k)) [ inl p ↦ rw p (inr (inr h)) | inr p ↦ rw p (inr kept) ]

insert_timer-Spins :
    {C : Type 0} (now_ms key : ℕ) (timer : Timer C) (timers : Timers C)
    → key ≤ now_ms
    → timer.interval_ms ≡ 0
    → Spins now_ms (insert_timer key timer timers)
unfolding insert_timer
insert_timer-Spins now_ms key timer [] le z = inl (le, z)
insert_timer-Spins now_ms key timer ((k, t) ∷ timers) le z = elim (Bool-cases (ltb key k)) [
  | inl p ↦ rw p (inl (le, z))
  | inr p ↦ rw p (inr (insert_timer-Spins now_ms key timer timers le z))
]

-- The second loop of `timerHandle` never ends, whatever the clock reads, once a recurring timer with
-- the interval 0 has expired: it is inserted again at a time that has come, and is met again.
pub fire_recurring_endless :
    {C : Type 0} (clock : Clock) (fuel floor : ℕ) (before timers : Timers C) (q : TimerQueue C)
    → IsMonotonic clock
    → IsSorted floor timers
    → Spins (to_ms (clock q.readings)) timers
    → fire_recurring clock fuel before timers q ≡ none
unfolding fire_recurring
fire_recurring_endless clock zero floor before [] q mono s spins = elim spins [ ]
fire_recurring_endless clock (suc fuel) floor before [] q mono s spins = elim spins [ ]
fire_recurring_endless clock zero floor before ((k, t) ∷ timers) q mono s spins = refl
fire_recurring_endless {C} clock (suc fuel) floor before ((k, t) ∷ timers) q mono (low, at, s)
      spins =
    elim (Bool-cases (ltb key k)) [
      | inl p ↦
          rw (runs, p)
            (fire_recurring_endless clock fuel k (insert_timer key again before) timers next mono s
              (elsewhere p spins))
      | inr p ↦
          rw (runs, p)
            (fire_recurring_endless clock fuel k before (insert_timer key again timers) next mono
              (insert_timer-IsSorted k key again timers s (ground arith) refl) (behind spins))
    ]
  where
    again : Timer C
    again = update t (clock (q.readings + 1))

    key : ℕ
    key = get_timeout_ms again

    next : TimerQueue C
    next = record q { fired = q.fired ++ (t.callback ∷ []); readings = q.readings + 2 }

    first : to_ms (clock q.readings) ≤ to_ms (clock (q.readings + 1))
    first = mono q.readings (q.readings + 1) (omega arith)

    second : to_ms (clock (q.readings + 1)) ≤ to_ms (clock (q.readings + 2))
    second = mono (q.readings + 1) (q.readings + 2) (omega arith)

    expires : key ≡ to_ms (clock (q.readings + 1)) + t.interval_ms
    expires = get_timeout_ms-update t (clock (q.readings + 1))

    head : k ≤ to_ms (clock q.readings)
    head = expired_head (to_ms (clock q.readings)) k ((k, t) ∷ timers) (omega arith, at, s) spins

    runs : ltb (to_ms (clock q.readings)) k ≡ false
    runs = ground (arith, head)

    elsewhere :
        ltb key k ≡ true
        → Spins (to_ms (clock q.readings)) ((k, t) ∷ timers)
        → Spins (to_ms (clock (q.readings + 2))) timers
    elsewhere p (inl h) = absurd (ground (arith, first, expires, head))
    elsewhere p (inr h) =
        later-Spins (to_ms (clock q.readings)) (to_ms (clock (q.readings + 2))) timers h
          (omega (arith, first, second))

    behind :
        Spins (to_ms (clock q.readings)) ((k, t) ∷ timers)
        → Spins (to_ms (clock (q.readings + 2))) (insert_timer key again timers)
    behind (inl (le, z)) =
        insert_timer-Spins (to_ms (clock (q.readings + 2))) key again timers
          (omega (arith, second, expires)) (unfold update in z)
    behind (inr h) = insert_timer_keeps (to_ms (clock (q.readings + 2))) key again timers (
        later-Spins (to_ms (clock q.readings)) (to_ms (clock (q.readings + 2))) timers h
          (omega (arith, first, second)))
