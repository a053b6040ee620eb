-- ===== src/Engine/OnFirstUse/Posting.antt =====
-- What the loop does with the callbacks that are posted to the queue of src/engine/engine.cpp: the
-- descriptor of the queue is an event of the loop as any other, whose read callback is
-- `EventFD::handleEvents`.
use plugins_engine.Prelude.{
  ℕ, ◌+◌, ◌≡◌, refl, sym, ap, ap₂, ◌∙◌, true, Option, none, some, List, [], ◌∷◌, ◌++◌, length,
  append_assoc, append-nil, length-append, arith,
}
use plugins_engine.Prelude.Int.{ℤ}
use plugins_engine.Events.Epoll.{Epoll, IsReliable}
use plugins_engine.Events.EventCtrl.{Ctrl, reading, make_event, wait_and_run_handler}
use plugins_engine.Events.EventCtrl.Registry.{entry, Synced}
use plugins_engine.Events.EventCtrl.Dispatching.{input_alone}
use plugins_engine.Events.EventCtrl.Adding.{rest-add_event, rest-update_event}
use plugins_engine.Events.EventFd.{
  EventFd, post_impl, write_value, read_value, atomic_pop_all, pop_and_execute_first_callback,
  finish,
}
use plugins_engine.Engine.FdMonitor.{set_callback}
use plugins_engine.Engine.OnFirstUse.{post, enable_and_set}
use plugins_engine.Engine.OnFirstUse.Registering.{enable_and_set-Watches}

-- The callbacks of events: that of the queue, and others.
pub data Handler (X : Type 0) : Type 0 where
  executes_callbacks : Handler X
  other : X → Handler X

-- The loop of events with the queue as what its callbacks work on.
abbrev pub QueueLoop : Epoll → Type 0 → Type 0 → Type 0
QueueLoop E F X = Ctrl E (Handler X) (EventFd F)

module _ {F : Type 0} where
  pub post_all : List (Option F) → EventFd F → EventFd F
  post_all [] s = s
  post_all (callback ∷ callbacks) s = post_all callbacks (post callback s)

  -- The callbacks that are not empty.
  abbrev pub present : List (Option F) → List F
  present [] = []
  present (none ∷ callbacks) = present callbacks
  present (some callback ∷ callbacks) = callback ∷ present callbacks

-- `run` is what a callback of the queue does, which may post others or change the events of the loop.
module _ {E : Epoll} {F X : Type 0} (run : F → QueueLoop E F X → QueueLoop E F X) where
  abbrev pub on_queue : (EventFd F → EventFd F) → QueueLoop E F X → QueueLoop E F X
  on_queue f c = record c { rest = f c.rest }

  -- The loop of `executeCallbacks`, at the list that it has taken.
  pub execute_all : List F → QueueLoop E F X → QueueLoop E F X
  execute_all [] c = c
  execute_all (callback ∷ rest) c =
      execute_all rest (run callback (on_queue (pop_and_execute_first_callback callback rest) c))

  pub execute_callbacks : QueueLoop E F X → QueueLoop E F X
  execute_callbacks c =
      let popped = on_queue atomic_pop_all c in
      on_queue finish (execute_all popped.rest.batch popped)

  -- `EventFD::handleEvents` in the loop's thread, while no other thread posts.
  pub handle_events : QueueLoop E F X → QueueLoop E F X
  handle_events c = execute_callbacks (on_queue read_value c)

  -- What the callbacks of events do.
  pub run_handler :
      (X → QueueLoop E F X → QueueLoop E F X) → Handler X → QueueLoop E F X → QueueLoop E F X
  run_handler run_other executes_callbacks c = handle_events c
  run_handler run_other (other x) c = run_other x c

module _ {F : Type 0} where
  -- Behind the posts, in the order of posting.
  post_all_fields :
      (callbacks : List (Option F)) (s : EventFd F)
      → ((post_all callbacks s).callbacks ≡ s.callbacks ++ present callbacks)
        × ((post_all callbacks s).executed ≡ s.executed)
        × ((post_all callbacks s).counter ≡ s.counter + length (present callbacks))
  unfolding post_all post post_impl write_value
  post_all_fields [] s = (sym (append-nil s.callbacks), refl, omega arith)
  post_all_fields (none ∷ callbacks) s = post_all_fields callbacks s
  post_all_fields (some callback ∷ callbacks) s =
      let rest = post_all_fields callbacks (post (some callback) s) in
      (
        rest.0 ∙ append_assoc s.callbacks (callback ∷ []) (present callbacks),
        rest.1,
        omega (arith, rest.2),
      )

  -- What the callbacks of a list post, where `posts` says it of each.
  abbrev pub posted_by : (F → List (Option F)) → List F → List F
  posted_by posts [] = []
  posted_by posts (callback ∷ batch) = present (posts callback) ++ posted_by posts batch

module _ {E : Epoll} {F X : Type 0} (run : F → QueueLoop E F X → QueueLoop E F X)
    (posts : F → List (Option F)) where
  -- A callback posts `posts` of it and does nothing else to the queue. It may do anything to the
  -- events of the loop.
  abbrev pub PostsOnly : Type 0
  PostsOnly = (f : F) (c : QueueLoop E F X) → (run f c).rest ≡ post_all (posts f) c.rest

  -- What has become of a queue where `done` have been executed.
  record Executes (done : List F) (s t : EventFd F) : Type 0 where
    executed : t.executed ≡ s.executed ++ done
    left : t.callbacks ≡ s.callbacks ++ posted_by posts done
    counter : t.counter ≡ s.counter + length (posted_by posts done)

  execute_all-Executes :
      (batch : List F) (c : QueueLoop E F X)
      → PostsOnly
      → Executes batch c.rest (execute_all run batch c).rest
  unfolding execute_all pop_and_execute_first_callback
  execute_all-Executes [] c only = record {
    executed = sym (append-nil c.rest.executed);
    left = sym (append-nil c.rest.callbacks);
    counter = omega arith;
  }
  execute_all-Executes (callback ∷ rest) c only =
      let popped : QueueLoop E F X =
        on_queue run (pop_and_execute_first_callback callback rest) c in
      let later = execute_all-Executes rest (run callback popped) only in
      let same = only callback popped in
      let here = post_all_fields (posts callback) popped.rest in
      let more = posted_by posts rest in
      record {
        executed =
            later.executed
            ∙ ap (λ l. l ++ rest) (ap (λ q. q.executed) same ∙ here.1)
            ∙ append_assoc c.rest.executed (callback ∷ []) rest;
        left =
            later.left
            ∙ ap (λ l. l ++ more) (ap (λ q. q.callbacks) same ∙ here.0)
            ∙ append_assoc c.rest.callbacks (present (posts callback)) more;
        counter =
            later.counter
            ∙ ap (λ n. n + length more) (ap (λ q. q.counter) same ∙ here.2)
            ∙ omega (arith, length-append (present (posts callback)) more);
      }

  handle_events_fields :
      (c : QueueLoop E F X)
      → PostsOnly
      → ((handle_events run c).rest.executed ≡ c.rest.executed ++ c.rest.callbacks)
        × ((handle_events run c).rest.callbacks ≡ posted_by posts c.rest.callbacks)
        × ((handle_events run c).rest.counter ≡ length (posted_by posts c.rest.callbacks))
  unfolding handle_events execute_callbacks read_value atomic_pop_all finish
  handle_events_fields c only =
      let taken : QueueLoop E F X = on_queue run atomic_pop_all (on_queue run read_value c) in
      let done = execute_all-Executes c.rest.callbacks taken only in
      (done.executed, done.left, omega (arith, done.counter))

-- The queue behind the constructor is the one before it.
rest-enable_and_set :
    {E : Epoll} {F X : Type 0} (fd : ℕ) (c : QueueLoop E F X)
    → (enable_and_set executes_callbacks fd c).rest ≡ c.rest
unfolding enable_and_set make_event set_callback
rest-enable_and_set fd c =
    rest-update_event _ (reading true) c.next_event ∙ rest-add_event _ c.next_event

-- The queue `c.rest` with the posts, in a loop that has registered its descriptor.
abbrev pub posted_to :
    {E : Epoll} {F X : Type 0} → ℕ → List (Option F) → QueueLoop E F X → QueueLoop E F X
posted_to fd callbacks c =
    let made = enable_and_set executes_callbacks fd c in
    record made { rest = post_all callbacks made.rest }

module _ {E : Epoll} {F X : Type 0} (run : F → QueueLoop E F X → QueueLoop E F X)
    (posts : F → List (Option F)) (run_other : X → QueueLoop E F X → QueueLoop E F X) where
  -- What is posted to the queue of callbacks is executed: from the constructor of `EventFD` on, which
  -- registers its descriptor, the turn of the loop in which the kernel reports input on that
  -- descriptor executes every callback that was posted, each once and in the order of posting, behind
  -- those that waited before. Empty ones are not posted. What these callbacks post themselves is not
  -- executed in this turn: it is left in the queue, in the order in which they post it, and the
  -- counter of the descriptor is the number of what is left. It holds for callbacks that do nothing to
  -- the queue but post, where no other thread posts in this turn, the descriptor was not registered
  -- before, and the kernel reports nothing else in this turn.
  pub wait_and_run_handler-post_all :
      (fd : ℕ) (callbacks : List (Option F)) (time_ms : ℤ) (c : QueueLoop E F X)
      → PostsOnly run posts
      → IsReliable E
      → Synced c
      → entry c fd ≡ none
      → (E.wait
          (length (posted_to fd callbacks c).event_pool)
          time_ms
          (posted_to fd callbacks c).kernel).0
        ≡ some ((fd, 1) ∷ [])
      → (let waiting = c.rest.callbacks ++ present callbacks in
          let after =
            wait_and_run_handler (run_handler run run_other) time_ms (posted_to fd callbacks c) in
          (after.rest.executed ≡ c.rest.executed ++ waiting)
          × (after.rest.callbacks ≡ posted_by posts waiting)
          × (after.rest.counter ≡ length (posted_by posts waiting)))
  unfolding run_handler
  wait_and_run_handler-post_all fd callbacks time_ms c only rel v free reported =
      let (x, w) = enable_and_set-Watches c fd executes_callbacks rel v free in
      let same : (enable_and_set executes_callbacks fd c).rest ≡ c.rest =
        rest-enable_and_set fd c in
      let turn =
        input_alone (run_handler run run_other) time_ms (posted_to fd callbacks c) fd c.next_event
          executes_callbacks w.registered w.callback reported in
      let posted = post_all_fields callbacks (enable_and_set executes_callbacks fd c).rest in
      let queue = posted.0 ∙ ap (λ q. q.callbacks ++ present callbacks) same in
      let done = handle_events_fields run posts _ only in
      rw turn (
        done.0 ∙ ap₂ (◌++◌) (posted.1 ∙ ap (λ q. q.executed) same) queue,
        done.1 ∙ ap (posted_by posts) queue,
        done.2 ∙ ap (λ l. length (posted_by posts l)) queue,
      )
