-- ===== src/Timers/TimerQueue/Renewing.antt =====
-- The second loop of `timerHandle` of src/timer/timerQueue.cpp as a run on the multimap of recurring
-- timers, without the iterator: in each turn an entry that has expired is replaced by its renewal.
use plugins_engine.Prelude.{
  ℕ, zero, suc, ◌+◌, ◌≤◌, ◌<◌, ◌≡◌, refl, sym, ap, subst, ◌∙◌, true, false, Option, none, some,
  List, [], ◌∷◌, ◌++◌, length, length-append, arith, ltb, Bool-cases, inl, inr, append_assoc,
  append-nil,
}
use plugins_engine.Timers.Timer.{Timer, get_timeout_ms, to_ms, update}
use plugins_engine.Timers.TimerQueue.{Clock, Timers, TimerQueue, insert_timer, fire_recurring}
use plugins_engine.Timers.TimerQueue.Sorted.{IsSorted}
use plugins_engine.Timers.TimerQueue.Merging.{insert_before-IsSorted, insert_behind-IsSorted}
use plugins_engine.Timers.TimerQueue.Firing.{length-insert_timer}

-- The callbacks of timers, in order.
abbrev pub callbacks : {C : Type 0} → Timers C → List C
callbacks [] = []
callbacks ((k, t) ∷ timers) = t.callback ∷ callbacks timers

module _ {C : Type 0} where
  -- An entry of a multimap in order.
  entry_sorted :
      (floor k : ℕ) (t : Timer C) (before timers : Timers C)
      → IsSorted floor (before ++ ((k, t) ∷ timers))
      → (floor ≤ k) × (k ≡ get_timeout_ms t)
  entry_sorted floor k t [] timers (low, at, s) = (low, at)
  entry_sorted floor k t ((i, u) ∷ before) timers (low, at, s) =
      let (le, e) = entry_sorted i k t before timers s in (omega arith, e)

  -- A timer that expires before an entry is inserted before it, and any other behind it.
  insert_timer-before :
      (floor k key : ℕ) (t timer : Timer C) (before timers : Timers C)
      → IsSorted floor (before ++ ((k, t) ∷ timers))
      → key < k
      → insert_timer key timer (before ++ timers) ≡ insert_timer key timer before ++ timers
  unfolding insert_timer
  insert_timer-before floor k key t timer [] [] s lt = refl
  insert_timer-before floor k key t timer [] ((i, u) ∷ timers) (low, at, (le, _, _)) lt =
      let first : ltb key i ≡ true = ground (arith, le) in rw first refl
  insert_timer-before floor k key t timer ((i, u) ∷ before) timers (low, at, s) lt =
      elim (Bool-cases (ltb key i)) [
        | inl p ↦ rw p refl
        | inr p ↦
            rw p (ap (λ l. (i, u) ∷ l) (insert_timer-before i k key t timer before timers s lt))
      ]

  insert_timer-behind :
      (floor k key : ℕ) (t timer : Timer C) (before timers : Timers C)
      → IsSorted floor (before ++ ((k, t) ∷ timers))
      → k ≤ key
      → insert_timer key timer (before ++ timers) ≡ before ++ insert_timer key timer timers
  unfolding insert_timer
  insert_timer-behind floor k key t timer [] timers s le = refl
  insert_timer-behind floor k key t timer ((i, u) ∷ before) timers (low, at, s) le =
      let early = entry_sorted i k t before timers s in
      let later : ltb key i ≡ false = ground (arith, early.0) in
      rw later (ap (λ l. (i, u) ∷ l) (insert_timer-behind i k key t timer before timers s le))

module _ {C : Type 0} (clock : Clock) where
  -- From the `i`-th reading of the clock on, and with less than `n` of them, the timers of the second
  -- list fire one after the other, and turn the first multimap into the last one. A timer that fires
  -- is in the multimap as it is then, and has expired at the reading of its turn; in its place comes
  -- the same timer with its interval from the next reading on.
  pub data Fires (n : ℕ) : ℕ → Timers C → Timers C → Timers C → Type 0 where
    stops : (i : ℕ) (timers : Timers C) → Fires n i timers [] timers
    fires :
        (i k : ℕ) (t : Timer C) (before timers done rest : Timers C)
        → i + 1 < n
        → k ≡ get_timeout_ms t
        → get_timeout_ms t ≤ to_ms (clock i)
        → Fires n
            (i + 2)
            (insert_timer
              (get_timeout_ms (update t (clock (i + 1))))
              (update t (clock (i + 1)))
              (before ++ timers))
            done
            rest
        → Fires n i (before ++ ((k, t) ∷ timers)) ((k, t) ∷ done) rest

  pub Fires-within :
      (n m i : ℕ) (timers done rest : Timers C)
      → n ≤ m
      → Fires n i timers done rest
      → Fires m i timers done rest
  Fires-within n m _ _ _ _ le (stops i timers) = stops i timers
  Fires-within n m _ _ _ _ le (fires i k t before timers done rest lt e at next) =
      fires i k t before timers done rest (omega arith) e at (Fires-within n m _ _ _ _ le next)

  -- There are as many timers as before.
  pub length-Fires :
      (n i : ℕ) (timers done rest : Timers C)
      → Fires n i timers done rest
      → length rest ≡ length timers
  length-Fires n _ _ _ _ (stops i timers) = refl
  length-Fires n _ _ _ _ (fires i k t before timers done rest lt e at next) = omega (
    arith,
    length-Fires n _ _ _ _ next,
    length-insert_timer (get_timeout_ms (update t (clock (i + 1)))) (update t (clock (i + 1)))
        (before ++ timers),
    length-append before timers,
    length-append before ((k, t) ∷ timers),
  )

  -- What the second loop does, where it ends, with `timers` in its multimap.
  pub record DoneRecurring (timers : Timers C) (q r : TimerQueue C) : Type 0 where
    pub done : Timers C
    pub calls : r.fired ≡ q.fired ++ callbacks done
    pub fired : Fires r.readings q.readings timers done r.recurring_timers
    pub readings : q.readings ≤ r.readings
    pub same : r.once_timers ≡ q.once_timers

  abbrev pub EndsRecurring : Timers C → TimerQueue C → Option (TimerQueue C) → Type 0
  EndsRecurring timers q none = Unit {0}
  EndsRecurring timers q (some r) = DoneRecurring timers q r

  -- One timer fired, and then the others.
  fired_first :
      (k : ℕ) (t : Timer C) (before timers renewed : Timers C) (q : TimerQueue C)
      (o : Option (TimerQueue C))
      → k ≡ get_timeout_ms t
      → k ≤ to_ms (clock q.readings)
      → insert_timer
          (get_timeout_ms (update t (clock (q.readings + 1))))
          (update t (clock (q.readings + 1)))
          (before ++ timers)
        ≡ renewed
      → EndsRecurring renewed
          (record q { fired = q.fired ++ (t.callback ∷ []); readings = q.readings + 2 })
          o
      → EndsRecurring (before ++ ((k, t) ∷ timers)) q o
  fired_first k t before timers renewed q none e at same ends = tt
  fired_first k t before timers renewed q (some r) e at same ends = record {
    done = (k, t) ∷ ends.done;
    calls = ends.calls ∙ append_assoc q.fired (t.callback ∷ []) (callbacks ends.done);
    fired =
        fires q.readings k t before timers ends.done r.recurring_timers
          (omega (arith, ends.readings)) e (omega arith)
          (subst (λ l. Fires r.readings (q.readings + 2) l ends.done r.recurring_timers) (sym same)
            ends.fired);
    readings = omega (arith, ends.readings);
    same = ends.same;
  }

  stopped :
      (timers : Timers C) (q r : TimerQueue C)
      → r.fired ≡ q.fired
      → r.recurring_timers ≡ timers
      → q.readings ≤ r.readings
      → r.once_timers ≡ q.once_timers
      → DoneRecurring timers q r
  stopped timers q r calls left le same = record {
    done = [];
    calls = calls ∙ sym (append-nil q.fired);
    fired = subst (Fires r.readings q.readings timers []) (sym left) (stops q.readings timers);
    readings = le;
    same = same;
  }

  pub fire_recurring-EndsRecurring :
      (fuel : ℕ) (before timers : Timers C) (q : TimerQueue C)
      → IsSorted 0 (before ++ timers)
      → EndsRecurring (before ++ timers) q (fire_recurring clock fuel before timers q)
  unfolding fire_recurring
  fire_recurring-EndsRecurring fuel before [] q s =
      stopped (before ++ []) q _ refl (sym (append-nil before)) (omega arith) refl
  fire_recurring-EndsRecurring zero before ((k, t) ∷ timers) q s = tt
  fire_recurring-EndsRecurring (suc fuel) before ((k, t) ∷ timers) q s =
      let again : Timer C = update t (clock (q.readings + 1)) in
      let key : ℕ = get_timeout_ms again in
      let next : TimerQueue C = record q {
        fired = q.fired ++ (t.callback ∷ []);
        readings = q.readings + 2;
      } in
      let (_, e) = entry_sorted 0 k t before timers s in
      elim (Bool-cases (ltb (to_ms (clock q.readings)) k)) [
        | inl p ↦ rw p (stopped (before ++ ((k, t) ∷ timers)) q _ refl refl (omega arith) refl)
        | inr p ↦
            let at : k ≤ to_ms (clock q.readings) = ground (arith, p) in
            elim (Bool-cases (ltb key k)) [
              | inl lt ↦
                  let less : key < k = ground (arith, lt) in
                  rw (p, lt)
                    (fired_first k t before timers _ q _ e at
                      (insert_timer-before 0 k key t again before timers s less)
                      (fire_recurring-EndsRecurring fuel (insert_timer key again before) timers next
                        (insert_before-IsSorted 0 k key t again before timers s (omega arith) less
                          refl)))
              | inr ge ↦
                  let more : k ≤ key = ground (arith, ge) in
                  rw (p, ge)
                    (fired_first k t before timers _ q _ e at
                      (insert_timer-behind 0 k key t again before timers s more)
                      (fire_recurring-EndsRecurring fuel before (insert_timer key again timers) next
                        (insert_behind-IsSorted 0 k key t again before timers s more refl)))
            ]
      ]
