-- ===== src/Timers/TimerQueue/Resetting.antt =====
-- `needResetTimer` of src/timer/timerQueue.cpp: what it tells of the first expiry.
use plugins_engine.Prelude.{
  ℕ, ◌+◌, ◌≤◌, ◌<◌, ◌≡◌, refl, sym, true, false, [], ◌∷◌, arith, ltb, ◌==◌, Bool-cases, ◌⊎◌, inl,
  inr,
}
use plugins_engine.Timers.Timer.{Timer, get_timeout_ms}
use plugins_engine.Timers.TimerQueue.{Timers, insert_timer, count, need_reset_timer}
use plugins_engine.Timers.TimerQueue.Sorted.{IsSorted, insert_timer-IsSorted}
use plugins_engine.Timers.TimerQueue.Merging.{sorted_from}

-- The time at which the first timer expires.
abbrev pub Begins : {C : Type 0} → ℕ → Timers C → Type 0
Begins first [] = ⊥
Begins first ((k, t) ∷ timers) = k ≡ first

-- Both multimaps are in order, `first` is the expiry of a timer, and no timer expires before it.
abbrev pub IsEarliest : {C : Type 0} → ℕ → Timers C → Timers C → Type 0
IsEarliest first once recurring =
    IsSorted first once × IsSorted first recurring × (Begins first once ⊎ Begins first recurring)

module _ {C : Type 0} where
  pub insert_timer-Begins :
      (first key : ℕ) (timer : Timer C) (timers : Timers C)
      → IsSorted key timers
      → first ≡ key
      → Begins first (insert_timer key timer timers)
  unfolding insert_timer
  insert_timer-Begins first key timer [] s e = sym e
  insert_timer-Begins first key timer ((k, t) ∷ timers) (low, at, s) e =
      elim (Bool-cases (ltb key k)) [ inl p ↦ rw p (sym e) | inr p ↦ rw p (ground (arith, p, e)) ]

  -- The first timer stays the first where one that expires no earlier is inserted.
  pub insert_later-Begins :
      (first key : ℕ) (timer : Timer C) (timers : Timers C)
      → first ≤ key
      → Begins first timers
      → Begins first (insert_timer key timer timers)
  unfolding insert_timer
  insert_later-Begins first key timer [] le b = elim b [ ]
  insert_later-Begins first key timer ((k, t) ∷ timers) le b = elim (Bool-cases (ltb key k)) [
    | inl p ↦ absurd (ground (arith, p, le, b))
    | inr p ↦ rw p b
  ]

  count_floor :
      (first key : ℕ) (timers : Timers C)
      → IsSorted first timers
      → 0 < count key timers
      → first ≤ key
  unfolding count
  count_floor first key [] s lt = absurd (omega arith)
  count_floor first key ((k, t) ∷ timers) (low, at, s) lt =
      let rest : 0 < count key timers → k ≤ key = count_floor k key timers s in
      elim (Bool-cases (k == key)) [
        | inl p ↦ ground (arith, p, low)
        | inr p ↦ omega (arith, low, rest (rw p at lt))
      ]

  count-insert_timer :
      (key : ℕ) (timer : Timer C) (timers : Timers C)
      → count key (insert_timer key timer timers) ≡ count key timers + 1
  unfolding count insert_timer
  count-insert_timer key timer [] = ground arith
  count-insert_timer key timer ((k, t) ∷ timers) =
      let rest : count key (insert_timer key timer timers) ≡ count key timers + 1 =
        count-insert_timer key timer timers in
      ground arith

  insert_timer-floor :
      (floor key : ℕ) (timer : Timer C) (timers : Timers C)
      → IsSorted floor (insert_timer key timer timers)
      → IsSorted floor timers
  unfolding insert_timer
  insert_timer-floor floor key timer [] s = tt
  insert_timer-floor floor key timer ((k, t) ∷ timers) s = elim (Bool-cases (ltb key k)) [
    | inl p ↦
        let s' : IsSorted floor ((key, timer) ∷ (k, t) ∷ timers) = rw p at s in
        (omega (arith, s'.0, s'.2.0), s'.2.1, s'.2.2)
    | inr p ↦
        let s' : IsSorted floor ((k, t) ∷ insert_timer key timer timers) = rw p at s in
        (s'.0, s'.1, insert_timer-floor k key timer timers s'.2)
  ]

  module _ (timer : Timer C) where
    abbrev key : ℕ
    key = get_timeout_ms timer

    -- The descriptor has to be set again only for a timer before which none expires,
    pub reset_earliest :
        (floor : ℕ) (timers : Timers C)
        → IsSorted floor timers
        → need_reset_timer timers timer ≡ true
        → IsSorted key timers
    unfolding need_reset_timer
    reset_earliest floor [] s e = tt
    reset_earliest floor ((k, t) ∷ timers) (low, at, s) e = (ground (arith, e), at, s)

    pub reset_inserted :
        (floor : ℕ) (timers : Timers C)
        → IsSorted floor timers
        → need_reset_timer (insert_timer key timer timers) timer ≡ true
        → IsSorted key timers
    reset_inserted floor timers s e = insert_timer-floor key key timer timers (
        reset_earliest 0 (insert_timer key timer timers)
          (insert_timer-IsSorted 0 key timer timers (sorted_from floor 0 timers s (omega arith))
            (omega arith) refl)
          e)

    -- and it need not be only if some timer expires no later,
    pub kept_other :
        (first : ℕ) (timers : Timers C)
        → IsSorted first timers
        → need_reset_timer timers timer ≡ false
        → first ≤ key
    unfolding need_reset_timer
    kept_other first [] s e = absurd (ground (arith, e))
    kept_other first ((k, t) ∷ timers) (low, at, s) e =
        let busy : 0 < count key ((k, t) ∷ timers) → first ≤ key =
          count_floor first key ((k, t) ∷ timers) (low, at, s) in
        ground (arith, low, e)

    -- other than the timer itself.
    pub kept_inserted :
        (first : ℕ) (timers : Timers C)
        → IsSorted first timers
        → need_reset_timer (insert_timer key timer timers) timer ≡ false
        → first ≤ key
    unfolding need_reset_timer insert_timer count
    kept_inserted first [] s e =
        let single : count key ((key, timer) ∷ []) ≡ 1 = count-insert_timer key timer [] in
        absurd (ground (arith, e))
    kept_inserted first ((k, t) ∷ timers) (low, at, s) e =
        let inserted : Timers C = insert_timer key timer ((k, t) ∷ timers) in
        let more : count key inserted ≡ count key ((k, t) ∷ timers) + 1 =
          count-insert_timer key timer ((k, t) ∷ timers) in
        let busy : 0 < count key ((k, t) ∷ timers) → first ≤ key =
          count_floor first key ((k, t) ∷ timers) (low, at, s) in
        elim (Bool-cases (ltb key k)) [
          | inl p ↦
              let more' : count key ((key, timer) ∷ (k, t) ∷ timers)
                  ≡ count key ((k, t) ∷ timers) + 1 =
                rw p at more in
              let e' : need_reset_timer ((key, timer) ∷ (k, t) ∷ timers) timer ≡ false =
                rw p at e in
              ground (arith, more', e', busy)
          | inr p ↦
              let more' : count key ((k, t) ∷ insert_timer key timer timers)
                  ≡ count key ((k, t) ∷ timers) + 1 =
                rw p at more in
              let e' : need_reset_timer ((k, t) ∷ insert_timer key timer timers) timer ≡ false =
                rw p at e in
              ground (arith, more', e', busy)
        ]
