-- ===== src/Timers/TimerQueue/Firing.antt =====
-- Which timers `timerHandle` of src/timer/timerQueue.cpp fires.
use plugins_engine.Prelude.{
  ℕ, zero, suc, ◌+◌, ◌*◌, ◌≤◌, ◌<◌, ◌≡◌, refl, sym, ap, subst, ◌∙◌, true, false, some, List, [],
  ◌∷◌, ◌++◌, length, arith, ltb, lt→ltb, Bool-cases, ◌⊎◌, inl, inr, if◌then◌else◌, append_assoc,
  append-nil,
}
use plugins_engine.Timers.Timer.{Timer, get_timeout_ms, to_ms, update}
use plugins_engine.Timers.Timer.Expiry.{get_timeout_ms-update}
use plugins_engine.Timers.TimerQueue.{
  Clock, Timers, TimerQueue, insert_timer, reset_timer, reset_first, fire_once, fire_recurring,
  finish_handle, timer_handle,
}
use plugins_engine.Timers.TimerQueue.Sorted.{IsSorted, IsOrdered, insert_timer-IsSorted}

-- The callbacks of the timers that have expired at `now_ms`, in order.
abbrev pub due : {C : Type 0} → ℕ → Timers C → List C
due now_ms [] = []
due now_ms ((k, t) ∷ timers) =
    if ltb now_ms k then due now_ms timers else t.callback ∷ due now_ms timers

-- No timer expires between `start` and `stop`.
abbrev pub Clear : {C : Type 0} → ℕ → ℕ → Timers C → Type 0
Clear start stop [] = Unit {0}
Clear start stop ((k, t) ∷ timers) = ((k ≤ start) ⊎ (stop < k)) × Clear start stop timers

-- Every timer's interval is longer than the time from `start` to `stop`.
abbrev pub Slow : {C : Type 0} → ℕ → ℕ → Timers C → Type 0
Slow start stop [] = Unit {0}
Slow start stop ((k, t) ∷ timers) = (stop < start + t.interval_ms) × Slow start stop timers

-- The `n` readings of the clock from the `i`-th on lie between `start` and `stop`.
abbrev pub Within : ℕ → ℕ → Clock → ℕ → ℕ → Type 0
Within start stop clock i n =
    (j : ℕ) → i ≤ j → j < i + n → (start ≤ to_ms (clock j)) × (to_ms (clock j) ≤ stop)

length-due :
    {C : Type 0} (start : ℕ) (timers : Timers C) → length (due start timers) ≤ length timers
length-due start [] = omega arith
length-due start ((k, t) ∷ timers) = elim (Bool-cases (ltb start k)) [
  | inl p ↦ rw p (omega (arith, length-due start timers))
  | inr p ↦ rw p (omega (arith, length-due start timers))
]

due_later :
    {C : Type 0} (start floor : ℕ) (timers : Timers C)
    → IsSorted floor timers
    → start < floor
    → due start timers ≡ []
due_later start floor [] s lt = refl
due_later start floor ((k, t) ∷ timers) (low, at, s) lt =
    rw (lt→ltb start k (omega arith)) (due_later start k timers s (omega arith))

due_now :
    {C : Type 0} (start k : ℕ) (t : Timer C) (timers : Timers C)
    → k ≤ start
    → due start ((k, t) ∷ timers) ≡ t.callback ∷ due start timers
due_now start k t timers early = let p : ltb start k ≡ false = ground arith in rw p refl

due-insert_timer :
    {C : Type 0} (start key : ℕ) (timer : Timer C) (timers : Timers C)
    → start < key
    → due start (insert_timer key timer timers) ≡ due start timers
unfolding insert_timer
due-insert_timer start key timer [] lt = rw (lt→ltb start key lt) refl
due-insert_timer start key timer ((k, t) ∷ timers) lt = elim (Bool-cases (ltb key k)) [
  | inl p ↦ rw (p, lt→ltb start key lt) refl
  | inr p ↦ rw (p, due-insert_timer start key timer timers lt) refl
]

insert_timer-Clear :
    {C : Type 0} (start stop key : ℕ) (timer : Timer C) (timers : Timers C)
    → Clear start stop timers
    → stop < key
    → Clear start stop (insert_timer key timer timers)
unfolding insert_timer
insert_timer-Clear start stop key timer [] c lt = (inr lt, tt)
insert_timer-Clear start stop key timer ((k, t) ∷ timers) (one, c) lt =
    elim (Bool-cases (ltb key k)) [
      | inl p ↦ rw p (inr lt, (one, c))
      | inr p ↦ rw p (one, insert_timer-Clear start stop key timer timers c lt)
    ]

insert_timer-Slow :
    {C : Type 0} (start stop key : ℕ) (timer : Timer C) (timers : Timers C)
    → Slow start stop timers
    → stop < start + timer.interval_ms
    → Slow start stop (insert_timer key timer timers)
unfolding insert_timer
insert_timer-Slow start stop key timer [] c lt = (lt, tt)
insert_timer-Slow start stop key timer ((k, t) ∷ timers) (one, c) lt =
    elim (Bool-cases (ltb key k)) [
      | inl p ↦ rw p (lt, (one, c))
      | inr p ↦ rw p (one, insert_timer-Slow start stop key timer timers c lt)
    ]

pub length-insert_timer :
    {C : Type 0} (key : ℕ) (timer : Timer C) (timers : Timers C)
    → length (insert_timer key timer timers) ≡ length timers + 1
unfolding insert_timer
length-insert_timer key timer [] = omega arith
length-insert_timer key timer ((k, t) ∷ timers) = elim (Bool-cases (ltb key k)) [
  | inl p ↦ rw p (omega arith)
  | inr p ↦ rw p (omega (arith, length-insert_timer key timer timers))
]

-- What the first loop does: the callbacks of the timers that have expired, and all timers that stay
-- expire after `stop`.
record FiresOnce {C : Type 0} (start stop : ℕ) (timers : Timers C) (q r : TimerQueue C)
    : Type 0 where
  calls : r.fired ≡ q.fired ++ due start timers
  left : IsSorted (stop + 1) r.once_timers
  same : r.recurring_timers ≡ q.recurring_timers
  before : q.readings ≤ r.readings
  readings : r.readings ≤ q.readings + length timers

fire_once-FiresOnce :
    {C : Type 0} (clock : Clock) (start stop floor : ℕ) (timers : Timers C) (q : TimerQueue C)
    → IsSorted floor timers
    → Clear start stop timers
    → Within start stop clock q.readings (length timers)
    → FiresOnce start stop timers q (fire_once clock timers q)
unfolding fire_once
fire_once-FiresOnce clock start stop floor [] q s c w = record {
  calls = sym (append-nil q.fired);
  left = tt;
  same = refl;
  before = omega arith;
  readings = omega arith;
}
fire_once-FiresOnce {C} clock start stop floor ((k, t) ∷ timers) q (low, at, s) (inl early, c) w =
    let now : (start ≤ to_ms (clock q.readings)) × (to_ms (clock q.readings) ≤ stop) =
      w q.readings (omega arith) (omega arith) in
    let runs : ltb (to_ms (clock q.readings)) k ≡ false = ground arith in
    let is_due : ltb start k ≡ false = ground arith in
    let next : TimerQueue C = record q {
      fired = q.fired ++ (t.callback ∷ []);
      readings = q.readings + 1;
    } in
    let rest : FiresOnce start stop timers next (fire_once clock timers next) =
      fire_once-FiresOnce clock start stop k timers next s c
        (λ j lo hi. w j (omega arith) (omega arith)) in
    rw runs (record {
      calls = rw is_due (rest.calls ∙ append_assoc q.fired (t.callback ∷ []) (due start timers));
      left = rest.left;
      same = rest.same;
      before = omega (arith, rest.before);
      readings = omega (arith, rest.readings);
    })
fire_once-FiresOnce clock start stop floor ((k, t) ∷ timers) q (low, at, s) (inr late, c) w =
    let now : (start ≤ to_ms (clock q.readings)) × (to_ms (clock q.readings) ≤ stop) =
      w q.readings (omega arith) (omega arith) in
    let waits : ltb (to_ms (clock q.readings)) k ≡ true = ground arith in
    let is_later : ltb start k ≡ true = ground arith in
    rw waits (record {
      calls = rw (is_later, due_later start k timers s (omega arith)) (sym (append-nil q.fired));
      left = (omega arith, at, s);
      same = refl;
      before = omega arith;
      readings = omega arith;
    })

-- What the second loop does, with enough fuel: as the first, but each timer stays.
record FiresRecurring {C : Type 0} (start stop : ℕ) (timers : Timers C) (q r : TimerQueue C)
    : Type 0 where
  calls : r.fired ≡ q.fired ++ due start timers
  left : IsSorted (stop + 1) r.recurring_timers
  all : length r.recurring_timers ≡ length timers
  same : r.once_timers ≡ q.once_timers

fire_recurring-FiresRecurring :
    {C : Type 0} (clock : Clock) (start stop fuel floor : ℕ) (timers : Timers C) (q : TimerQueue C)
    → IsSorted floor timers
    → Clear start stop timers
    → Slow start stop timers
    → Within start stop clock q.readings (2 * length (due start timers) + 1)
    → length (due start timers) < fuel
    → (r : TimerQueue C) × (fire_recurring clock fuel [] timers q ≡ some r)
      × FiresRecurring start stop timers q r
unfolding fire_recurring
fire_recurring-FiresRecurring clock start stop zero floor timers q s c slow w enough =
    absurd (omega arith)
fire_recurring-FiresRecurring clock start stop (suc fuel) floor [] q s c slow w enough = (
  record q { recurring_timers = [] },
  refl,
  record { calls = sym (append-nil q.fired); left = tt; all = refl; same = refl },
)
fire_recurring-FiresRecurring {C} clock start stop (suc fuel) floor ((k, t) ∷ timers) q (low, at, s)
      (inl early, c) (slow, slows) w enough =
    let few : length (due start ((k, t) ∷ timers)) ≡ suc (length (due start timers)) =
      ap length (due_now start k t timers early) in
    let first : (start ≤ to_ms (clock q.readings)) × (to_ms (clock q.readings) ≤ stop) =
      w q.readings (omega arith) (omega arith) in
    let second : (start ≤ to_ms (clock (q.readings + 1)))
        × (to_ms (clock (q.readings + 1)) ≤ stop) =
      w (q.readings + 1) (omega arith) (omega (arith, few)) in
    let runs : ltb (to_ms (clock q.readings)) k ≡ false = ground arith in
    let again : Timer C = update t (clock (q.readings + 1)) in
    let key : ℕ = get_timeout_ms again in
    let expires : key ≡ to_ms (clock (q.readings + 1)) + t.interval_ms =
      get_timeout_ms-update t (clock (q.readings + 1)) in
    let behind : ltb key k ≡ false = ground arith in
    let next : TimerQueue C = record q {
      fired = q.fired ++ (t.callback ∷ []);
      readings = q.readings + 2;
    } in
    let queue : Timers C = insert_timer key again timers in
    let same_due : due start queue ≡ due start timers =
      due-insert_timer start key again timers (omega arith) in
    let (r, ran, fires) =
      fire_recurring-FiresRecurring clock start stop fuel k queue next
        (insert_timer-IsSorted k key again timers s (omega arith) refl)
        (insert_timer-Clear start stop key again timers c (omega arith))
        (insert_timer-Slow start stop key again timers slows (unfold update in slow))
        (λ j lo hi. w j (omega arith) (omega (arith, few, ap length same_due)))
        (omega (arith, few, ap length same_due)) in
    (
      r,
      rw (runs, behind) ran,
      record {
        calls =
            fires.calls
            ∙ ap (◌++◌ next.fired) same_due
            ∙ append_assoc q.fired (t.callback ∷ []) (due start timers)
            ∙ ap (◌++◌ q.fired) (sym (due_now start k t timers early));
        left = fires.left;
        all = omega (arith, fires.all, length-insert_timer key again timers);
        same = fires.same;
      },
    )
fire_recurring-FiresRecurring clock start stop (suc fuel) floor ((k, t) ∷ timers) q (low, at, s)
      (inr late, c) slow w enough =
    let now : (start ≤ to_ms (clock q.readings)) × (to_ms (clock q.readings) ≤ stop) =
      w q.readings (omega arith) (omega arith) in
    let waits : ltb (to_ms (clock q.readings)) k ≡ true = ground arith in
    let is_later : ltb start k ≡ true = ground arith in
    (
      record q { recurring_timers = (k, t) ∷ timers; readings = q.readings + 1 },
      rw waits refl,
      record {
        calls = rw (is_later, due_later start k timers s (omega arith)) (sym (append-nil q.fired));
        left = (omega arith, at, s);
        all = refl;
        same = refl;
      },
    )

-- What `timerHandle` has done at its end.
pub record Handles {C : Type 0} (start stop : ℕ) (q r : TimerQueue C) : Type 0 where
  pub calls : r.fired ≡ q.fired ++ (due start q.once_timers ++ due start q.recurring_timers)
  pub once_left : IsSorted (stop + 1) r.once_timers
  pub recurring_left : IsSorted (stop + 1) r.recurring_timers
  pub all_recurring : length r.recurring_timers ≡ length q.recurring_timers

reset_first-Handles :
    {C : Type 0} (clock : Clock) (start stop : ℕ) (q r : TimerQueue C) (once recurring : Timers C)
    → Handles start stop q r
    → Handles start stop q (reset_first clock once recurring r)
unfolding reset_first reset_timer
reset_first-Handles clock start stop q r [] [] h = h
reset_first-Handles clock start stop q r [] (e ∷ _) h = record {
  calls = h.calls;
  once_left = h.once_left;
  recurring_left = h.recurring_left;
  all_recurring = h.all_recurring;
}
reset_first-Handles clock start stop q r (e ∷ _) [] h = record {
  calls = h.calls;
  once_left = h.once_left;
  recurring_left = h.recurring_left;
  all_recurring = h.all_recurring;
}
reset_first-Handles clock start stop q r (e ∷ _) (f ∷ _) h = record {
  calls = h.calls;
  once_left = h.once_left;
  recurring_left = h.recurring_left;
  all_recurring = h.all_recurring;
}

pub timer_handle-Handles :
    {C : Type 0} (clock : Clock) (start stop : ℕ) (q : TimerQueue C)
    → IsOrdered q
    → Clear start stop q.once_timers
    → Clear start stop q.recurring_timers
    → Slow start stop q.recurring_timers
    → Within start stop clock q.readings (length q.once_timers + 2 * length q.recurring_timers + 1)
    → (r : TimerQueue C) × (timer_handle clock (length q.recurring_timers + 1) q ≡ some r)
      × Handles start stop q r
unfolding timer_handle finish_handle
timer_handle-Handles {C} clock start stop q (once, recurring) c d slow w =
    let after : TimerQueue C = fire_once clock q.once_timers q in
    let first : FiresOnce start stop q.once_timers q after =
      fire_once-FiresOnce clock start stop 0 q.once_timers q once c
        (λ j lo hi. w j lo (omega arith)) in
    let few : length (due start q.recurring_timers) ≤ length q.recurring_timers =
      length-due start q.recurring_timers in
    let (r, ran, second) =
      fire_recurring-FiresRecurring clock start stop (length q.recurring_timers + 1) 0
        q.recurring_timers after recurring d slow
        (λ j lo hi. w j (omega (arith, first.before)) (omega (arith, first.readings)))
        (omega arith) in
    (
      reset_first clock r.once_timers r.recurring_timers r,
      ap
            (λ l.
              finish_handle clock (fire_recurring clock (length q.recurring_timers + 1) [] l after))
            first.same
          ∙ ap (finish_handle clock) ran,
      reset_first-Handles clock start stop q r r.once_timers r.recurring_timers (record {
        calls =
            second.calls
            ∙ ap (λ l. l ++ due start q.recurring_timers) first.calls
            ∙ append_assoc q.fired (due start q.once_timers) (due start q.recurring_timers);
        once_left = subst (IsSorted (stop + 1)) (sym second.same) first.left;
        recurring_left = second.left;
        all_recurring = second.all;
      }),
    )
