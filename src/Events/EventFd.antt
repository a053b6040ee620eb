-- ===== src/Events/EventFd.antt =====
-- src/event/eventfd.cpp, class EventFD: callbacks that any thread posts and the loop executes. Each
-- step is one access to the list under its mutex, or one system call on the event descriptor, and the
-- steps of the posting threads and of the loop interleave in any order.
pub mod Delivery
pub mod Tests
use plugins_engine.Prelude.{ℕ, suc, ◌+◌, ◌<◌, ◌≡◌, List, [], ◌∷◌, ◌++◌, Option, none, some}

-- Where the loop is: in `epoll_wait`, in `handleEvents` behind its `read`, or in `executeCallbacks`
-- behind `atomicPopAll`.
pub data Phase : Type 0 where
  waiting popping executing : Phase

-- `counter` is the kernel's, `writing` the number of threads in `postImpl` between `atomicPushBack`
-- and `write`, and `batch` the list that `executeCallbacks` has taken. `posted` and `executed` record
-- what has happened.
pub record EventFd (C : Type 0) : Type 0 where
  pub callbacks : List C
  pub counter : ℕ
  pub writing : ℕ
  pub phase : Phase
  pub batch : List C
  pub posted : List C
  pub executed : List C

module _ {C : Type 0} where
  unfoldable pub create : EventFd C
  create = record {
    callbacks = [];
    counter = 0;
    writing = 0;
    phase = waiting;
    batch = [];
    posted = [];
    executed = [];
  }

  -- `postImpl` up to `write`; a `std::function` that is empty is not posted.
  unfoldable pub post_impl : Option C → EventFd C → EventFd C
  post_impl none s = s
  post_impl (some callback) s = record s {
    callbacks = s.callbacks ++ (callback ∷ []);
    writing = s.writing + 1;
    posted = s.posted ++ (callback ∷ []);
  }

  -- The `write` of a thread in `postImpl`, where `others` are in it besides.
  unfoldable pub write_value : ℕ → EventFd C → EventFd C
  write_value others s = record s { writing = others; counter = s.counter + 1 }

  -- The `read` of `handleEvents`.
  unfoldable pub read_value : EventFd C → EventFd C
  read_value s = record s { counter = 0; phase = popping }

  unfoldable pub atomic_pop_all : EventFd C → EventFd C
  atomic_pop_all s = record s { callbacks = []; batch = s.callbacks; phase = executing }

  -- `popAndExecuteFirstCallback`, at the list that `callback` and `rest` make up.
  unfoldable pub pop_and_execute_first_callback : C → List C → EventFd C → EventFd C
  pop_and_execute_first_callback callback rest s = record s {
    batch = rest;
    executed = s.executed ++ (callback ∷ []);
  }

  unfoldable pub finish : EventFd C → EventFd C
  finish s = record s { phase = waiting }

  -- What may happen next. The loop wakes where the counter is not zero, as the kernel documents.
  pub data Step : EventFd C → EventFd C → Type 0 where
    posts : (s : EventFd C) (callback : Option C) → Step s (post_impl callback s)
    writes : (s : EventFd C) (others : ℕ) → s.writing ≡ suc others → Step s (write_value others s)
    wakes : (s : EventFd C) → s.phase ≡ waiting → 0 < s.counter → Step s (read_value s)
    pops : (s : EventFd C) → s.phase ≡ popping → Step s (atomic_pop_all s)
    executes :
        (s : EventFd C) (callback : C) (rest : List C)
        → s.phase ≡ executing
        → s.batch ≡ callback ∷ rest
        → Step s (pop_and_execute_first_callback callback rest s)
    finishes : (s : EventFd C) → s.phase ≡ executing → s.batch ≡ [] → Step s (finish s)

  pub data Steps : EventFd C → EventFd C → Type 0 where
    done : (s : EventFd C) → Steps s s
    next : (s t u : EventFd C) → Step s t → Steps t u → Steps s u
