-- ===== src/Timers/TimerQueue/Arming.antt =====
-- The timer descriptor of src/timer/timerQueue.cpp is set for the timer that expires first.
use plugins_engine.Prelude.{
  ℕ, suc, ◌+◌, ◌≤◌, ◌≡◌, refl, sym, subst, Bool, true, false, ◌&&◌, Option, none, some, [], ◌∷◌,
  arith, ltb, Bool-cases, ◌⊎◌, inl, inr,
}
use plugins_engine.Prelude.Int.{ℤ}
use plugins_engine.Timers.Timer.{
  Timer, create, get_timeout_ms, get_time_interval, interval_between, ms_to_timespec, to_ms,
}
use plugins_engine.Timers.TimerQueue.{
  Clock, Timers, TimerQueue, int_to_u32, insert_timer, reset_timer, reset_if, reset_first,
  add_once_timer, run_once_after, add_recurring_timer, run_every_interval, fire_once,
  fire_recurring, finish_handle, timer_handle,
}
use plugins_engine.Timers.TimerQueue.Sorted.{IsSorted, IsOrdered, insert_timer-IsSorted}
use plugins_engine.Timers.TimerQueue.Merging.{
  sorted_from, Leaves, fire_once_sorted, fire_recurring-Leaves,
}
use plugins_engine.Timers.TimerQueue.Resetting.{
  IsEarliest, insert_timer-Begins, insert_later-Begins, reset_earliest, reset_inserted, kept_other,
  kept_inserted,
}

both_true : (a b : Bool) → (a && b) ≡ true → (a ≡ true) × (b ≡ true)
both_true true b e = (refl, e)
both_true false b e = absurd (ground (arith, e))

one_false : (a b : Bool) → (a && b) ≡ false → (a ≡ false) ⊎ (b ≡ false)
one_false true b e = inr e
one_false false b e = inl refl

-- There is no timer, or the descriptor was last set to the time from some reading of the clock to
-- the first expiry.
abbrev pub IsArmed : {C : Type 0} → Clock → TimerQueue C → Type 0
IsArmed clock q =
    ((q.once_timers ≡ []) × (q.recurring_timers ≡ []))
    ⊎ ((first : ℕ) × (i : ℕ) × IsEarliest first q.once_timers q.recurring_timers
        × (q.armed ≡ some (ms_to_timespec (interval_between first (to_ms (clock i))))))

module _ {C : Type 0} (clock : Clock) where
  reset_if-IsArmed :
      (timer : Timer C) (q : TimerQueue C) (once recurring : Timers C) (resets : Bool)
      → IsArmed clock q
      → (resets ≡ true → IsEarliest (get_timeout_ms timer) once recurring)
      → (resets ≡ false
          → (first : ℕ) → IsSorted first q.once_timers
          → IsSorted first q.recurring_timers
          → first ≤ get_timeout_ms timer)
      → ((first : ℕ)
          → first ≤ get_timeout_ms timer
          → IsEarliest first q.once_timers q.recurring_timers
          → IsEarliest first once recurring)
      → IsArmed clock (
          reset_if clock resets timer (record q {
            once_timers = once;
            recurring_timers = recurring;
            readings = q.readings + 1;
          }))
  unfolding reset_if reset_timer get_time_interval
  reset_if-IsArmed timer q once recurring true a earliest kept still =
      inr (get_timeout_ms timer, q.readings + 1, earliest refl, refl)
  reset_if-IsArmed timer q once recurring false (inl (no_once, no_recurring)) earliest kept still =
      let none_before : suc (get_timeout_ms timer) ≤ get_timeout_ms timer =
        kept refl (suc (get_timeout_ms timer)) (rw no_once tt) (rw no_recurring tt) in
      absurd (omega arith)
  reset_if-IsArmed timer q once recurring false (inr (first, i, (s, u, b), set)) earliest kept
        still =
      inr (first, i, still first (kept refl first s u) (s, u, b), set)

  IsArmed-IsOrdered : (q : TimerQueue C) → IsArmed clock q → IsOrdered q
  IsArmed-IsOrdered q (inl (no_once, no_recurring)) = (rw no_once tt, rw no_recurring tt)
  IsArmed-IsOrdered q (inr (first, i, (s, u, b), set)) =
      (sorted_from first 0 _ s (omega arith), sorted_from first 0 _ u (omega arith))

  add_once_timer-IsArmed :
      (callback : C) (interval : ℕ) (q : TimerQueue C)
      → IsArmed clock q
      → IsArmed clock (add_once_timer clock callback interval q)
  unfolding add_once_timer
  add_once_timer-IsArmed callback interval q a =
      reset_if-IsArmed timer q timers q.recurring_timers _ a
        (λ e.
          let (mine, others) = both_true _ _ e in
          let from : IsSorted at q.once_timers = reset_inserted timer 0 q.once_timers once mine in
          (
            insert_timer-IsSorted at at timer q.once_timers from (omega arith) refl,
            reset_earliest timer 0 q.recurring_timers recurring others,
            inl (insert_timer-Begins at at timer q.once_timers from refl),
          ))
        (λ e first s u. elim (one_false _ _ e) [
          | inl mine ↦ kept_inserted timer first q.once_timers s mine
          | inr others ↦ kept_other timer first q.recurring_timers u others
        ])
        (λ first le (s, u, b). (
          insert_timer-IsSorted first at timer q.once_timers s le refl,
          u,
          elim b [
            | inl here ↦ inl (insert_later-Begins first at timer q.once_timers le here)
            | inr there ↦ inr there
          ],
        ))
    where
      timer : Timer C
      timer = create interval callback (clock q.readings)

      at : ℕ
      at = get_timeout_ms timer

      timers : Timers C
      timers = insert_timer at timer q.once_timers

      once : IsSorted 0 q.once_timers
      once = (IsArmed-IsOrdered q a).0

      recurring : IsSorted 0 q.recurring_timers
      recurring = (IsArmed-IsOrdered q a).1

  add_recurring_timer-IsArmed :
      (handler : C) (interval : ℕ) (q : TimerQueue C)
      → IsArmed clock q
      → IsArmed clock (add_recurring_timer clock handler interval q)
  unfolding add_recurring_timer
  add_recurring_timer-IsArmed handler interval q a =
      reset_if-IsArmed timer q q.once_timers timers _ a
        (λ e.
          let (others, mine) = both_true _ _ e in
          let from : IsSorted at q.recurring_timers =
            reset_inserted timer 0 q.recurring_timers recurring mine in
          (
            reset_earliest timer 0 q.once_timers once others,
            insert_timer-IsSorted at at timer q.recurring_timers from (omega arith) refl,
            inr (insert_timer-Begins at at timer q.recurring_timers from refl),
          ))
        (λ e first s u. elim (one_false _ _ e) [
          | inl others ↦ kept_other timer first q.once_timers s others
          | inr mine ↦ kept_inserted timer first q.recurring_timers u mine
        ])
        (λ first le (s, u, b). (
          s,
          insert_timer-IsSorted first at timer q.recurring_timers u le refl,
          elim b [
            | inl here ↦ inl here
            | inr there ↦ inr (insert_later-Begins first at timer q.recurring_timers le there)
          ],
        ))
    where
      timer : Timer C
      timer = create interval handler (clock q.readings)

      at : ℕ
      at = get_timeout_ms timer

      timers : Timers C
      timers = insert_timer at timer q.recurring_timers

      once : IsSorted 0 q.once_timers
      once = (IsArmed-IsOrdered q a).0

      recurring : IsSorted 0 q.recurring_timers
      recurring = (IsArmed-IsOrdered q a).1

  -- `resetTimer()` sets the descriptor for the first timer whatever it was set to before.
  reset_first-IsArmed :
      (once recurring : Timers C) (q : TimerQueue C)
      → IsSorted 0 once
      → IsSorted 0 recurring
      → q.once_timers ≡ once
      → q.recurring_timers ≡ recurring
      → IsArmed clock (reset_first clock once recurring q)
  unfolding reset_first reset_timer get_time_interval
  reset_first-IsArmed [] [] q s u e f = inl (e, f)
  reset_first-IsArmed [] ((k, t) ∷ m) q s (low, at, u) e f =
      inr (get_timeout_ms t, q.readings, rw (e, f) (tt, (omega (arith, at), at, u), inr at), refl)
  reset_first-IsArmed ((k, t) ∷ l) [] q (low, at, s) u e f =
      inr (get_timeout_ms t, q.readings, rw (e, f) ((omega (arith, at), at, s), tt, inl at), refl)
  reset_first-IsArmed ((k, t) ∷ l) ((i, o) ∷ m) q (low, at, s) (low', at', u) e f =
      elim (Bool-cases (ltb (get_timeout_ms o) (get_timeout_ms t))) [
        | inl p ↦ rw p (
            inr (
              get_timeout_ms o,
              q.readings,
              rw (e, f) ((ground (arith, p, at), at, s), (omega (arith, at'), at', u), inr at'),
              refl,
            ))
        | inr p ↦ rw p (
            inr (
              get_timeout_ms t,
              q.readings,
              rw (e, f) ((omega (arith, at), at, s), (ground (arith, p, at, at'), at', u), inl at),
              refl,
            ))
      ]

  -- What `timerHandle` leaves if its second loop ends.
  abbrev pub LeavesArmed : Option (TimerQueue C) → Type 0
  LeavesArmed none = Unit {0}
  LeavesArmed (some r) = IsArmed clock r

  finish_handle-LeavesArmed :
      (q : TimerQueue C) (o : Option (TimerQueue C))
      → IsSorted 0 q.once_timers
      → Leaves q o
      → LeavesArmed (finish_handle clock o)
  unfolding finish_handle
  finish_handle-LeavesArmed q none s l = tt
  finish_handle-LeavesArmed q (some r) s (recurring, same) =
      reset_first-IsArmed r.once_timers r.recurring_timers r (subst (IsSorted 0) (sym same) s)
        recurring refl refl

  timer_handle-LeavesArmed :
      (fuel : ℕ) (q : TimerQueue C) → IsOrdered q → LeavesArmed (timer_handle clock fuel q)
  unfolding timer_handle
  timer_handle-LeavesArmed fuel q (once, recurring) =
      let after : TimerQueue C = fire_once clock q.once_timers q in
      let (left, same) = fire_once_sorted clock 0 q.once_timers q once in
      finish_handle-LeavesArmed after (fire_recurring clock fuel [] after.recurring_timers after)
        left
        (fire_recurring-Leaves clock fuel [] after.recurring_timers after
          (subst (IsSorted 0) (sym same) recurring))

  -- The calls of the queue, and of the handler of its descriptor where that ends.
  pub data Step : TimerQueue C → TimerQueue C → Type 0 where
    once_after :
        (handler : C) (interval : ℤ) (q : TimerQueue C)
        → Step q (run_once_after clock handler interval q)
    every_interval :
        (handler : C) (interval : ℤ) (q : TimerQueue C)
        → Step q (run_every_interval clock handler interval q)
    handled : (fuel : ℕ) (q r : TimerQueue C) → timer_handle clock fuel q ≡ some r → Step q r

  pub data Steps : TimerQueue C → TimerQueue C → Type 0 where
    start : (q : TimerQueue C) → Steps q q
    next : (q r s : TimerQueue C) → Step q r → Steps r s → Steps q s

  Step-IsArmed : (q r : TimerQueue C) → IsArmed clock q → Step q r → IsArmed clock r
  unfolding run_once_after run_every_interval
  Step-IsArmed q r a (once_after handler interval _) =
      add_once_timer-IsArmed handler (int_to_u32 interval) q a
  Step-IsArmed q r a (every_interval handler interval _) =
      add_recurring_timer-IsArmed handler (int_to_u32 interval) q a
  Step-IsArmed q r a (handled fuel _ _ ran) =
      subst LeavesArmed ran (timer_handle-LeavesArmed fuel q (IsArmed-IsOrdered q a))

  -- Whatever calls of `runOnceAfter`, `runEveryInterval` and `timerHandle` a queue gets, and
  -- whatever the clock reads, the timer descriptor stays set for the timer that expires first: at all
  -- times there is no timer, or both multimaps are in ascending order of expiry and the descriptor
  -- was last set to what `getTimeInterval` made, at some reading of the clock, of an expiry that is
  -- the first of all in both. It holds for a queue in that state, as one without timers is.
  pub Steps-IsArmed : (q r : TimerQueue C) → IsArmed clock q → Steps q r → IsArmed clock r
  Steps-IsArmed q r a (start _) = a
  Steps-IsArmed q r a (next _ p _ step steps) = Steps-IsArmed p r (Step-IsArmed q p a step) steps
