-- ===== src/Events/EventFd/Delivery.antt =====
-- What becomes of the callbacks posted to src/event/eventfd.cpp.
use plugins_engine.Prelude.{
  ℕ, ◌+◌, ◌<◌, ◌≡◌, ◌≢◌, refl, sym, ap, subst, ◌∙◌, ◌⊎◌, inl, inr, List, [], ◌∷◌, ◌++◌, none, some,
  arith, append_assoc, append-nil,
}
use plugins_engine.Events.EventFd.{
  EventFd, Phase, waiting, popping, executing, create, post_impl, write_value, read_value,
  atomic_pop_all, pop_and_execute_first_callback, finish, Step, posts, writes, wakes, pops,
  executes, finishes, Steps, done, next,
}

-- A phase in which the loop does not hold a batch.
abbrev BatchFits : {C : Type 0} → Phase → List C → Type 0
BatchFits waiting batch = batch ≡ []
BatchFits popping batch = batch ≡ []
BatchFits executing batch = Unit {0}

-- Whoever waits will be woken, or is about to look.
abbrev Awake : {C : Type 0} → Phase → List C → ℕ → ℕ → Type 0
Awake popping callbacks counter writing = Unit {0}
Awake waiting callbacks counter writing = (callbacks ≡ []) ⊎ (0 < counter + writing)
Awake executing callbacks counter writing = (callbacks ≡ []) ⊎ (0 < counter + writing)

-- The callbacks posted are those executed, those taken and those that wait, in order; and where some
-- wait, the loop has been or will be woken, or is about to take them.
pub record IsSound {C : Type 0} (s : EventFd C) : Type 0 where
  pub order : s.posted ≡ s.executed ++ (s.batch ++ s.callbacks)
  pub fits : BatchFits s.phase s.batch
  pub awake : Awake s.phase s.callbacks s.counter s.writing

some_writing-Awake :
    {C : Type 0} (p : Phase) (callbacks : List C) (counter writing : ℕ)
    → 0 < counter + writing
    → Awake p callbacks counter writing
some_writing-Awake waiting callbacks counter writing h = inr h
some_writing-Awake popping callbacks counter writing h = tt
some_writing-Awake executing callbacks counter writing h = inr h

Step-IsSound : {C : Type 0} (s t : EventFd C) → Step s t → IsSound s → IsSound t
unfolding post_impl write_value read_value atomic_pop_all pop_and_execute_first_callback finish
Step-IsSound s t (posts _ none) v = v
Step-IsSound s t (posts _ (some c)) v = record {
  order =
      ap (λ l. l ++ (c ∷ [])) v.order
      ∙ append_assoc s.executed (s.batch ++ s.callbacks) (c ∷ [])
      ∙ ap (◌++◌ s.executed) (append_assoc s.batch s.callbacks (c ∷ []));
  fits = v.fits;
  awake =
      some_writing-Awake s.phase (s.callbacks ++ (c ∷ [])) s.counter (s.writing + 1) (omega arith);
}
Step-IsSound s t (writes _ others h) v = record {
  order = v.order;
  fits = v.fits;
  awake = some_writing-Awake s.phase s.callbacks (s.counter + 1) others (omega arith);
}
Step-IsSound s t (wakes _ h some_written) v = record {
  order = v.order;
  fits = subst (λ p. BatchFits p s.batch) h v.fits;
  awake = tt;
}
Step-IsSound s t (pops _ h) v = record {
  order =
      v.order
      ∙ ap (λ l. s.executed ++ (l ++ s.callbacks)) (subst (λ p. BatchFits p s.batch) h v.fits)
      ∙ ap (◌++◌ s.executed) (sym (append-nil s.callbacks));
  fits = tt;
  awake = inl refl;
}
Step-IsSound s t (executes _ c rest h b) v = record {
  order =
      v.order
      ∙ ap (λ l. s.executed ++ (l ++ s.callbacks)) b
      ∙ sym (append_assoc s.executed (c ∷ []) (rest ++ s.callbacks));
  fits = subst (λ p. BatchFits p rest) (sym h) tt;
  awake = v.awake;
}
Step-IsSound s t (finishes _ h b) v = record {
  order = v.order;
  fits = b;
  awake = subst (λ p. Awake p s.callbacks s.counter s.writing) h v.awake;
}

-- However the steps of the posting threads and of the loop interleave: the callbacks posted are
-- those executed, those taken and those in the list, in the order of posting, so that none is lost,
-- repeated or overtaken; and no wakeup is lost, since while the list is not empty the descriptor is
-- readable, or a thread is about to write to it, or the loop is about to take the list.
pub Steps-IsSound : {C : Type 0} (s t : EventFd C) → Steps s t → IsSound s → IsSound t
Steps-IsSound s t (done _) v = v
Steps-IsSound s t (next _ u _ one more) v = Steps-IsSound u t more (Step-IsSound s u one v)

pub create-IsSound : {C : Type 0} → IsSound (create {C = C})
unfolding create
create-IsSound = record { order = refl; fits = refl; awake = inl refl }

-- The state at the end of a turn of the loop.
pub record Executes {C : Type 0} (batch : List C) (s t : EventFd C) : Type 0 where
  pub steps : Steps s t
  pub calls : t.executed ≡ s.executed ++ batch
  pub rests : t.phase ≡ waiting
  pub left : t.callbacks ≡ s.callbacks

execute_batch :
    {C : Type 0} (batch : List C) (s : EventFd C)
    → s.phase ≡ executing
    → s.batch ≡ batch
    → (t : EventFd C) × Executes batch s t
unfolding finish pop_and_execute_first_callback
execute_batch [] s h b = (
  finish s,
  record {
    steps = next s (finish s) (finish s) (finishes s h b) (done (finish s));
    calls = sym (append-nil s.executed);
    rests = refl;
    left = refl;
  },
)
execute_batch (c ∷ rest) s h b =
    let (t, e) = execute_batch rest (pop_and_execute_first_callback c rest s) h refl in
    (
      t,
      record {
        steps = next s (pop_and_execute_first_callback c rest s) t (executes s c rest h b) e.steps;
        calls = e.calls ∙ append_assoc s.executed (c ∷ []) rest;
        rests = e.rests;
        left = e.left;
      },
    )

-- In a sound state in which callbacks wait, the loop is in `epoll_wait` and no thread is about to
-- write, the loop alone can go on: it wakes, executes all that were posted and waits again, with an
-- empty list.
pub loop-Executes :
    {C : Type 0} (s : EventFd C)
    → IsSound s
    → s.phase ≡ waiting
    → s.writing ≡ 0
    → s.callbacks ≢ []
    → (t : EventFd C) × Steps s t
      × (t.executed ≡ s.posted)
      × (t.phase ≡ waiting)
      × (t.callbacks ≡ [])
unfolding read_value atomic_pop_all
loop-Executes s v h idle some_wait =
    let read : EventFd _ = read_value s in
    let taken : EventFd _ = atomic_pop_all read in
    let (t, e) = execute_batch s.callbacks taken refl refl in
    (
      t,
      next s read t (wakes s h written) (next read taken t (pops read refl) e.steps),
      e.calls ∙ sym all,
      e.rests,
      e.left,
    )
  where
    written : 0 < s.counter
    written = elim (subst (λ p. Awake p s.callbacks s.counter s.writing) h v.awake) [
      | inl none_wait ↦ absurd (some_wait none_wait)
      | inr awake ↦ omega arith
    ]

    all : s.posted ≡ s.executed ++ s.callbacks
    all =
        v.order
        ∙ ap (λ l. s.executed ++ (l ++ s.callbacks)) (subst (λ p. BatchFits p s.batch) h v.fits)
