-- ===== src/Timers/TimerQueue/Due.antt =====
-- `timerHandle` of src/timer/timerQueue.cpp calls nothing before its time, whatever the clock reads.
use plugins_engine.Prelude.{
  ℕ, ◌+◌, ◌≤◌, ◌<◌, ◌≡◌, refl, sym, ap, subst, ◌∙◌, if◌then◌else◌, Option, none, some, [], ◌∷◌,
  ◌++◌, length, arith, ltb, ltb→lt, Bool-cases, inl, inr, append_assoc, append-nil,
}
use plugins_engine.Timers.Timer.{Timer, get_timeout_ms, to_ms}
use plugins_engine.Timers.TimerQueue.{
  Clock, Timers, TimerQueue, reset_timer, reset_first, fire_once, fire_recurring, finish_handle,
  timer_handle,
}
use plugins_engine.Timers.TimerQueue.Sorted.{IsSorted, IsOrdered}
use plugins_engine.Timers.TimerQueue.Renewing.{
  callbacks, Fires, Fires-within, length-Fires, EndsRecurring, fire_recurring-EndsRecurring,
}

module _ {C : Type 0} (clock : Clock) where
  -- Each timer had expired at one of the readings from the `i`-th up to the `n`-th.
  abbrev pub Expired : ℕ → ℕ → Timers C → Type 0
  Expired i n [] = Unit {0}
  Expired i n ((k, t) ∷ timers) =
      ((j : ℕ) × (i ≤ j) × (j < n) × (k ≤ to_ms (clock j))) × Expired i n timers

  -- The first timer had not expired at one of these readings.
  abbrev pub Waits : ℕ → ℕ → Timers C → Type 0
  Waits i n [] = Unit {0}
  Waits i n ((k, t) ∷ timers) = (j : ℕ) × (i ≤ j) × (j < n) × (to_ms (clock j) < k)

  Expired-within :
      (i j m n : ℕ) (timers : Timers C) → i ≤ j → m ≤ n → Expired j m timers → Expired i n timers
  Expired-within i j m n [] le le' e = tt
  Expired-within i j m n ((k, t) ∷ timers) le le' ((r, lo, hi, at), e) =
      ((r, omega arith, omega arith, at), Expired-within i j m n timers le le' e)

  Waits-within :
      (i j m n : ℕ) (timers : Timers C) → i ≤ j → m ≤ n → Waits j m timers → Waits i n timers
  Waits-within i j m n [] le le' w = tt
  Waits-within i j m n ((k, t) ∷ timers) le le' (r, lo, hi, at) = (r, omega arith, omega arith, at)

  -- What the first loop does with `timers`.
  record DoneOnce (timers : Timers C) (q r : TimerQueue C) : Type 0 where
    done : Timers C
    split : timers ≡ done ++ r.once_timers
    calls : r.fired ≡ q.fired ++ callbacks done
    expired : Expired q.readings r.readings done
    waits : Waits q.readings r.readings r.once_timers
    readings : q.readings ≤ r.readings
    same : r.recurring_timers ≡ q.recurring_timers

  fire_once-DoneOnce :
      (timers : Timers C) (q : TimerQueue C) → DoneOnce timers q (fire_once clock timers q)
  unfolding fire_once
  fire_once-DoneOnce [] q = record {
    done = [];
    split = refl;
    calls = sym (append-nil q.fired);
    expired = tt;
    waits = tt;
    readings = omega arith;
    same = refl;
  }
  fire_once-DoneOnce ((k, t) ∷ timers) q =
      let next : TimerQueue C = record q {
        fired = q.fired ++ (t.callback ∷ []);
        readings = q.readings + 1;
      } in
      let rest : DoneOnce timers next (fire_once clock timers next) =
        fire_once-DoneOnce timers next in
      elim (Bool-cases (ltb (to_ms (clock q.readings)) k)) [
        | inl p ↦ rw p (record {
          done = [];
          split = refl;
          calls = sym (append-nil q.fired);
          expired = tt;
          waits = (q.readings, omega arith, omega arith, ltb→lt (to_ms (clock q.readings)) k p);
          readings = omega arith;
          same = refl;
        })
        | inr p ↦ rw p (record {
          done = (k, t) ∷ rest.done;
          split = ap (λ l. (k, t) ∷ l) rest.split;
          calls = rest.calls ∙ append_assoc q.fired (t.callback ∷ []) (callbacks rest.done);
          expired = (
            (q.readings, omega arith, omega (arith, rest.readings), ground (arith, p)),
            Expired-within _ _ _ _ rest.done (omega arith) (omega arith) rest.expired,
          );
          waits = Waits-within _ _ _ _ _ (omega arith) (omega arith) rest.waits;
          readings = omega (arith, rest.readings);
          same = rest.same;
        })
      ]

  -- What `timerHandle` has done at its end: which timers it fired, of the one-shot and of the
  -- recurring ones, the latter from the reading `from` on.
  pub record Punctual (q r : TimerQueue C) : Type 0 where
    pub once_done : Timers C
    pub recurring_done : Timers C
    pub from : ℕ
    pub split : q.once_timers ≡ once_done ++ r.once_timers
    pub calls : r.fired ≡ q.fired ++ (callbacks once_done ++ callbacks recurring_done)
    pub once_expired : Expired q.readings r.readings once_done
    pub waits : Waits q.readings r.readings r.once_timers
    pub no_earlier : q.readings ≤ from
    pub renewed : Fires clock r.readings from q.recurring_timers recurring_done r.recurring_timers
    pub all : length r.recurring_timers ≡ length q.recurring_timers

  reset_timer-Punctual :
      (q r : TimerQueue C) (timer : Timer C) → Punctual q r → Punctual q (reset_timer clock timer r)
  unfolding reset_timer
  reset_timer-Punctual q r timer p = record {
    once_done = p.once_done;
    recurring_done = p.recurring_done;
    from = p.from;
    split = p.split;
    calls = p.calls;
    once_expired = Expired-within _ _ _ _ p.once_done (omega arith) (omega arith) p.once_expired;
    waits = Waits-within _ _ _ _ r.once_timers (omega arith) (omega arith) p.waits;
    no_earlier = p.no_earlier;
    renewed = Fires-within clock _ _ _ _ _ _ (omega arith) p.renewed;
    all = p.all;
  }

  reset_first-Punctual :
      (q r : TimerQueue C) (once recurring : Timers C)
      → Punctual q r
      → Punctual q (reset_first clock once recurring r)
  unfolding reset_first
  reset_first-Punctual q r [] [] p = p
  reset_first-Punctual q r [] ((k, t) ∷ _) p = reset_timer-Punctual q r t p
  reset_first-Punctual q r ((k, t) ∷ _) [] p = reset_timer-Punctual q r t p
  reset_first-Punctual q r ((k, t) ∷ _) ((i, u) ∷ _) p =
      reset_timer-Punctual q r (if ltb (get_timeout_ms u) (get_timeout_ms t) then u else t) p

  abbrev EndsPunctual : TimerQueue C → Option (TimerQueue C) → Type 0
  EndsPunctual q none = Unit {0}
  EndsPunctual q (some r) = Punctual q r

  finish_handle-EndsPunctual :
      (q after : TimerQueue C) (o : Option (TimerQueue C))
      → DoneOnce q.once_timers q after
      → EndsRecurring clock q.recurring_timers after o
      → EndsPunctual q (finish_handle clock o)
  unfolding finish_handle
  finish_handle-EndsPunctual q after none once recurring = tt
  finish_handle-EndsPunctual q after (some r) once recurring =
      reset_first-Punctual q r r.once_timers r.recurring_timers (record {
        once_done = once.done;
        recurring_done = recurring.done;
        from = after.readings;
        split = once.split ∙ ap (◌++◌ once.done) (sym recurring.same);
        calls =
            recurring.calls
            ∙ ap (λ l. l ++ callbacks recurring.done) once.calls
            ∙ append_assoc q.fired (callbacks once.done) (callbacks recurring.done);
        once_expired =
            Expired-within _ _ _ _ once.done (omega arith) recurring.readings once.expired;
        waits =
            Waits-within _ _ _ _ r.once_timers (omega arith) recurring.readings
              (subst (Waits q.readings after.readings) (sym recurring.same) once.waits);
        no_earlier = once.readings;
        renewed = recurring.fired;
        all = length-Fires clock _ _ _ _ _ recurring.fired;
      })

  -- `timerHandle` calls nothing before its time, whatever the clock reads and however many timers
  -- expire while it runs: each callback that it calls is of a timer of the queue that had expired at a
  -- reading of the clock in this call. The one-shot timers that it calls are those at the front of
  -- their multimap, each once and in order, and they are gone; the first that is left had not expired
  -- at one of the readings. The recurring ones fire one after the other: each is, when it fires, in
  -- the multimap of recurring timers as it is then, under the time at which it expires, which the
  -- clock's reading before it has reached; it is replaced there by the same timer with its interval
  -- from the next reading on, and what these turns leave is the multimap at the end, with as many
  -- timers as before. It holds for a queue in order, where the call ends.
  pub timer_handle-Punctual :
      (fuel : ℕ) (q r : TimerQueue C)
      → IsOrdered q
      → timer_handle clock fuel q ≡ some r
      → Punctual q r
  unfolding timer_handle
  timer_handle-Punctual fuel q r (_, s) ran =
      let after : TimerQueue C = fire_once clock q.once_timers q in
      let once : DoneOnce q.once_timers q after = fire_once-DoneOnce q.once_timers q in
      let recurring : EndsRecurring clock after.recurring_timers after
          (fire_recurring clock fuel [] after.recurring_timers after) =
        fire_recurring-EndsRecurring clock fuel [] after.recurring_timers after
          (subst (IsSorted 0) (sym once.same) s) in
      subst (EndsPunctual q) ran (
        finish_handle-EndsPunctual q after _ once (
          subst
            (λ l.
              EndsRecurring clock l after
                (fire_recurring clock fuel [] after.recurring_timers after))
            once.same recurring))
