-- ===== src/Threads/EventThread/Handover.antt =====
-- Whether src/thread/eventThread.cpp hands its loop over.
use plugins_engine.Prelude.{
  ℕ, ◌≡◌, refl, sym, ap, ◌∙◌, subst, Bool, true, false, Option, none, some, arith, if◌then◌else◌,
  inl, inr, ◌⊎◌,
}
use plugins_engine.Threads.EventThread.{
  Child, entering, asleep, woken, in_run, looping, Caller, elsewhere, waiting, notified, returned,
  EventThread, create, notify_child, notify_caller, start, test_started, publish, ask_for, ask,
  return_loop, Released, is_entering, is_asleep, is_woken, Step, starts, enters, tests_again,
  publishes, asks, returns, wakes_child, wakes_caller, Steps, done, next,
}

module _ (event_loop : ℕ) where
  -- The new thread sleeps only before `start`, and has made the loop known where it runs it.
  abbrev ChildFits : Child → Bool → Option ℕ → Type 0
  ChildFits entering started loop = loop ≡ none
  ChildFits asleep started loop = (started ≡ false) × (loop ≡ none)
  ChildFits woken started loop = loop ≡ none
  ChildFits in_run started loop = loop ≡ none
  ChildFits looping started loop = loop ≡ some event_loop

  -- The other thread sleeps only before the loop is known.
  abbrev CallerFits : Caller → Option ℕ → Type 0
  CallerFits elsewhere loop = Unit {0}
  CallerFits waiting loop = loop ≡ none
  CallerFits notified loop = loop ≡ some event_loop
  CallerFits (returned r) loop = r ≡ some event_loop

  pub record IsSound (s : EventThread) : Type 0 where
    pub child_fits : ChildFits s.child s.started s.loop
    pub caller_fits : CallerFits s.caller s.loop

  start-ChildFits :
      (child : Child) (started : Bool) (loop : Option ℕ)
      → Released child
      → ChildFits child started loop
      → ChildFits (notify_child child) true loop
  unfolding notify_child
  start-ChildFits entering started loop is_entering h = h
  start-ChildFits asleep started loop is_asleep h = h.1
  start-ChildFits woken started loop is_woken h = h
  start-ChildFits in_run started loop free h = elim free [ ]
  start-ChildFits looping started loop free h = elim free [ ]

  test_started-ChildFits :
      (started : Bool) (loop : Option ℕ)
      → loop ≡ none
      → ChildFits (if started then in_run else asleep) started loop
  test_started-ChildFits true loop h = h
  test_started-ChildFits false loop h = (refl, h)

  publish-CallerFits :
      (caller : Caller) (loop : Option ℕ)
      → CallerFits caller loop
      → CallerFits (notify_caller caller) (some event_loop)
  unfolding notify_caller
  publish-CallerFits elsewhere loop h = tt
  publish-CallerFits waiting loop h = refl
  publish-CallerFits notified loop h = refl
  publish-CallerFits (returned r) loop h = h

  known :
      (child : Child) (started : Bool) (loop : Option ℕ)
      → ChildFits child started loop
      → (loop ≡ none) ⊎ (loop ≡ some event_loop)
  known entering started loop h = inl h
  known asleep started loop h = inl h.1
  known woken started loop h = inl h
  known in_run started loop h = inl h
  known looping started loop h = inr h

  ask_for-IsSound :
      (o : Option ℕ) (s : EventThread) → s.loop ≡ o → IsSound s → IsSound (ask_for o s)
  unfolding ask_for
  ask_for-IsSound none s e v = record { child_fits = v.child_fits; caller_fits = e }
  ask_for-IsSound (some loop) s e v = record {
    child_fits = v.child_fits;
    caller_fits = elim (known s.child s.started s.loop v.child_fits) [
      | inl n ↦ absurd (ground (arith, e, n))
      | inr k ↦ sym e ∙ k
    ];
  }

  Step-IsSound : (s t : EventThread) → Step event_loop false s t → IsSound s → IsSound t
  unfolding start test_started publish ask return_loop
  Step-IsSound s t (starts _ free) v = record {
    child_fits = start-ChildFits s.child s.started s.loop free v.child_fits;
    caller_fits = v.caller_fits;
  }
  Step-IsSound s t (enters _ at) v = record {
    child_fits =
        test_started-ChildFits s.started s.loop
          (subst (λ c. ChildFits c s.started s.loop) at v.child_fits);
    caller_fits = v.caller_fits;
  }
  Step-IsSound s t (tests_again _ at) v = record {
    child_fits =
        test_started-ChildFits s.started s.loop
          (subst (λ c. ChildFits c s.started s.loop) at v.child_fits);
    caller_fits = v.caller_fits;
  }
  Step-IsSound s t (publishes _ at) v = record {
    child_fits = refl;
    caller_fits = publish-CallerFits s.caller s.loop v.caller_fits;
  }
  Step-IsSound s t (asks _ at) v = ask_for-IsSound s.loop s refl v
  Step-IsSound s t (returns _ at) v = record {
    child_fits = v.child_fits;
    caller_fits = subst (λ c. CallerFits c s.loop) at v.caller_fits;
  }
  Step-IsSound s t (wakes_child _ spurious at) v = absurd (ground (arith, spurious))
  Step-IsSound s t (wakes_caller _ spurious at) v = absurd (ground (arith, spurious))

  Steps-keep : (s t : EventThread) → Steps event_loop false s t → IsSound s → IsSound t
  Steps-keep s t (done _) v = v
  Steps-keep s t (next _ u _ step rest) v = Steps-keep u t rest (Step-IsSound s u step v)

  create-IsSound : IsSound create
  unfolding create
  create-IsSound = record { child_fits = refl; caller_fits = tt }

  -- Without spurious wake-ups, whatever the interleaving, `getEventLoopInThread` returns nothing but
  -- the loop of the new thread.
  pub Steps-returned :
      (s : EventThread) (r : Option ℕ)
      → Steps event_loop false create s
      → s.caller ≡ returned r
      → r ≡ some event_loop
  Steps-returned s r steps at =
      let v : IsSound s = Steps-keep create s steps create-IsSound in
      subst (λ c. CallerFits c s.loop) at v.caller_fits

  pub then_steps :
      {spurious : Bool} (s t u : EventThread)
      → Steps event_loop spurious s t
      → Steps event_loop spurious t u
      → Steps event_loop spurious s u
  then_steps s t u (done _) q = q
  then_steps s t u (next _ v _ step rest) q = next s v u step (then_steps v t u rest q)

  -- The new thread can make its loop known.
  abbrev Publishes : EventThread → Type 0
  Publishes s = (t : EventThread) × Steps event_loop false s t × (t.loop ≡ some event_loop)

  in_run-Publishes : (s : EventThread) → s.child ≡ in_run → Publishes s
  unfolding publish
  in_run-Publishes s at = (publish event_loop s, next s _ _ (publishes s at) (done _), refl)

  tested-Publishes : (s : EventThread) → s.started ≡ true → Publishes (test_started s)
  unfolding test_started
  tested-Publishes s on =
      in_run-Publishes (test_started s) (ap (λ b. if b then in_run else asleep) on)

  child-Publishes :
      (child : Child) (s : EventThread)
      → s.child ≡ child
      → s.started ≡ true
      → IsSound s
      → Publishes s
  child-Publishes entering s at on v =
      let (t, steps, known) = tested-Publishes s on in (t, next s _ t (enters s at) steps, known)
  child-Publishes woken s at on v =
      let (t, steps, known) = tested-Publishes s on in
      (t, next s _ t (tests_again s at) steps, known)
  child-Publishes in_run s at on v = in_run-Publishes s at
  child-Publishes looping s at on v =
      (s, done s, subst (λ c. ChildFits c s.started s.loop) at v.child_fits)
  child-Publishes asleep s at on v =
      absurd (ground (arith, on, (subst (λ c. ChildFits c s.started s.loop) at v.child_fits).0))

  -- The other thread can return.
  abbrev Returns : EventThread → Type 0
  Returns s =
      (t : EventThread) × Steps event_loop false s t × (t.caller ≡ returned (some event_loop))

  asked-Returns :
      (s : EventThread) → s.loop ≡ some event_loop → (ask s).caller ≡ returned (some event_loop)
  unfolding ask ask_for
  asked-Returns s known = ap (λ o. (ask_for o s).caller) known

  caller-Returns :
      (caller : Caller) (s : EventThread)
      → s.caller ≡ caller
      → s.loop ≡ some event_loop
      → IsSound s
      → Returns s
  unfolding return_loop
  caller-Returns elsewhere s at known v =
      (ask s, next s _ _ (asks s at) (done _), asked-Returns s known)
  caller-Returns notified s at known v =
      (return_loop s, next s _ _ (returns s at) (done _), ap returned known)
  caller-Returns waiting s at known v =
      absurd (ground (arith, known, subst (λ c. CallerFits c s.loop) at v.caller_fits))
  caller-Returns (returned r) s at known v =
      (s, done s, at ∙ ap returned (subst (λ c. CallerFits c s.loop) at v.caller_fits))

  -- No wake-up is lost: from every state that the two threads can reach without spurious wake-ups, and
  -- in which `start` has been called, they can go on until `getEventLoopInThread` has returned the loop
  -- of the new thread.
  pub Steps-Returns :
      (s : EventThread) → Steps event_loop false create s → s.started ≡ true → Returns s
  Steps-Returns s steps on =
      let v : IsSound s = Steps-keep create s steps create-IsSound in
      let (t, further, known) = child-Publishes s.child s refl on v in
      let (u, last, back) = caller-Returns t.caller t refl known (Steps-keep s t further v) in
      (u, then_steps s t u further last, back)
