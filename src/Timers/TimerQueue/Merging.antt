-- ===== src/Timers/TimerQueue/Merging.antt =====
-- The multimaps of src/timer/timerQueue.cpp while `timerHandle` goes through them stay in order.
use plugins_engine.Prelude.{
  ℕ, zero, suc, ◌+◌, ◌≤◌, ◌<◌, ◌≡◌, refl, subst, Option, none, some, [], ◌∷◌, ◌++◌, append-nil,
  arith, ltb, Bool-cases, inl, inr,
}
use plugins_engine.Timers.Timer.{Timer, get_timeout_ms, to_ms, update}
use plugins_engine.Timers.TimerQueue.{
  Clock, Timers, TimerQueue, insert_timer, fire_once, fire_recurring,
}
use plugins_engine.Timers.TimerQueue.Sorted.{IsSorted, insert_timer-IsSorted}

module _ {C : Type 0} where
  pub sorted_from :
      (floor lower : ℕ) (timers : Timers C)
      → IsSorted floor timers
      → lower ≤ floor
      → IsSorted lower timers
  sorted_from floor lower [] s le = tt
  sorted_from floor lower ((k, t) ∷ timers) (low, at, s) le = (omega arith, at, s)

  -- What is left without an entry.
  erase-IsSorted :
      (floor k : ℕ) (t : Timer C) (before timers : Timers C)
      → IsSorted floor (before ++ ((k, t) ∷ timers))
      → IsSorted floor (before ++ timers)
  erase-IsSorted floor k t [] timers (low, at, s) = sorted_from k floor timers s low
  erase-IsSorted floor k t ((i, u) ∷ before) timers (low, at, s) =
      (low, at, erase-IsSorted i k t before timers s)

  -- A timer that expires before those from the iterator on stands before the iterator.
  pub insert_before-IsSorted :
      (floor k key : ℕ) (t timer : Timer C) (before timers : Timers C)
      → IsSorted floor (before ++ ((k, t) ∷ timers))
      → floor ≤ key
      → key < k
      → key ≡ get_timeout_ms timer
      → IsSorted floor (insert_timer key timer before ++ timers)
  unfolding insert_timer
  insert_before-IsSorted floor k key t timer [] timers (low, at, s) le lt e =
      (le, e, sorted_from k key timers s (omega arith))
  insert_before-IsSorted floor k key t timer ((i, u) ∷ before) timers (low, at, s) le lt e =
      elim (Bool-cases (ltb key i)) [
        | inl p ↦ rw p (
          le,
          e,
          sorted_from i key ((i, u) ∷ (before ++ timers))
              (omega arith, at, erase-IsSorted i k t before timers s) (ground (arith, p)),
        )
        | inr p ↦ rw p (
          low,
          at,
          insert_before-IsSorted i k key t timer before timers s (ground (arith, p)) lt e,
        )
      ]

  -- Any other timer stands from the iterator on.
  pub insert_behind-IsSorted :
      (floor k key : ℕ) (t timer : Timer C) (before timers : Timers C)
      → IsSorted floor (before ++ ((k, t) ∷ timers))
      → k ≤ key
      → key ≡ get_timeout_ms timer
      → IsSorted floor (before ++ insert_timer key timer timers)
  insert_behind-IsSorted floor k key t timer [] timers (low, at, s) le e =
      sorted_from k floor (insert_timer key timer timers)
        (insert_timer-IsSorted k key timer timers s le e) low
  insert_behind-IsSorted floor k key t timer ((i, u) ∷ before) timers (low, at, s) le e =
      (low, at, insert_behind-IsSorted i k key t timer before timers s le e)

  -- What the second loop leaves if it ends.
  abbrev pub Leaves : TimerQueue C → Option (TimerQueue C) → Type 0
  Leaves q none = Unit {0}
  Leaves q (some r) = IsSorted 0 r.recurring_timers × (r.once_timers ≡ q.once_timers)

  module _ (clock : Clock) where
    -- The first loop takes timers from the front of its multimap and leaves the other as it is.
    pub fire_once_sorted :
        (floor : ℕ) (timers : Timers C) (q : TimerQueue C)
        → IsSorted floor timers
        → IsSorted 0 (fire_once clock timers q).once_timers
          × ((fire_once clock timers q).recurring_timers ≡ q.recurring_timers)
    unfolding fire_once
    fire_once_sorted floor [] q s = (tt, refl)
    fire_once_sorted floor ((k, t) ∷ timers) q (low, at, s) =
        elim (Bool-cases (ltb (to_ms (clock q.readings)) k)) [
          | inl p ↦ rw p ((omega arith, at, s), refl)
          | inr p ↦ rw p (fire_once_sorted k timers _ s)
        ]

    -- The second loop keeps its multimap in order whatever the clock reads, even where it goes back.
    pub fire_recurring-Leaves :
        (fuel : ℕ) (before timers : Timers C) (q : TimerQueue C)
        → IsSorted 0 (before ++ timers)
        → Leaves q (fire_recurring clock fuel before timers q)
    unfolding fire_recurring
    fire_recurring-Leaves fuel before [] q s = (subst (IsSorted 0) (append-nil before) s, refl)
    fire_recurring-Leaves zero before ((k, t) ∷ timers) q s = tt
    fire_recurring-Leaves (suc fuel) before ((k, t) ∷ timers) q s =
        let again : Timer C = update t (clock (q.readings + 1)) in
        let key : ℕ = get_timeout_ms again in
        let next : TimerQueue C = record q {
          fired = q.fired ++ (t.callback ∷ []);
          readings = q.readings + 2;
        } in
        elim (Bool-cases (ltb (to_ms (clock q.readings)) k)) [
          | inl p ↦ rw p (s, refl)
          | inr p ↦ elim (Bool-cases (ltb key k)) [
            | inl lt ↦
                rw (p, lt)
                  (fire_recurring-Leaves fuel (insert_timer key again before) timers next (
                    insert_before-IsSorted 0 k key t again before timers s (omega arith)
                      (ground (arith, lt)) refl))
            | inr ge ↦
                rw (p, ge)
                  (fire_recurring-Leaves fuel before (insert_timer key again timers) next (
                    insert_behind-IsSorted 0 k key t again before timers s (ground (arith, ge))
                      refl))
          ]
        ]
