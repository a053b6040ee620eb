-- ===== src/Threads/EventThreadPool.antt =====
-- src/thread/eventThreadPool.cpp, class EventThreadPool. `L` is the type of loops, and `new_loop i` the
-- loop that the thread started as the `i`-th of the pool runs.
pub mod Choice
pub mod Tests
use plugins_engine.Prelude.{
  ℕ, zero, suc, ◌+◌, ◌-◌, ◌%◌, ◌^◌, Bool, true, false, Option, none, some, List, [], ◌∷◌, ◌++◌,
  length, get_elem?, ltb, ◌==◌, if◌then◌else◌, to_u16,
}
use plugins_engine.Prelude.Int.{ℤ, pos, negsuc}

pub record EventThreadPool (L : Type 0) : Type 0 where
  pub main_loop : L
  pub started : Bool
  pub thread_num : ℕ
  pub thread_index : ℕ
  pub event_loops : List L

-- `-` and `%` of `int`, the latter by a positive number: it rounds towards 0.
abbrev pub negated : ℕ → ℤ
negated zero = pos 0
negated (suc n) = negsuc n

abbrev pub rem : ℤ → ℕ → ℤ
rem (pos n) m = pos (n % m)
rem (negsuc n) m = negated (suc n % m)

-- The conversion of an `int` to `size_t`, for the index of a vector.
abbrev pub to_size : ℤ → ℕ
to_size (pos n) = n % 2 ^ 64
to_size (negsuc n) = 2 ^ 64 - 1 - n % 2 ^ 64

module _ {L : Type 0} where
  pub create : L → EventThreadPool L
  create loop = record {
    main_loop = loop;
    started = false;
    thread_num = 0;
    thread_index = 0;
    event_loops = [];
  }

  pub set_thread_num : ℕ → EventThreadPool L → EventThreadPool L
  set_thread_num num p = record p { thread_num = num }

  -- The loop of `init`, `n` turns from its end.
  pub start_threads : (ℕ → L) → ℕ → EventThreadPool L → EventThreadPool L
  start_threads new_loop zero p = p
  start_threads new_loop (suc n) p =
      start_threads new_loop n
        (record p { event_loops = p.event_loops ++ (new_loop (length p.event_loops) ∷ []) })

  pub init : (ℕ → L) → EventThreadPool L → EventThreadPool L
  init new_loop p = record (start_threads new_loop p.thread_num p) { started = true }

  -- `init(num)`, for a number that is not negative.
  pub init_num : (ℕ → L) → ℕ → EventThreadPool L → EventThreadPool L
  init_num new_loop num p = init new_loop (record p { thread_num = to_u16 num })

  -- `threadIndex` behind the increment and its test.
  pub next_index : EventThreadPool L → ℕ
  next_index p =
      let i = to_u16 (p.thread_index + 1) in if ltb i (length p.event_loops) then i else 0

  -- A choice of `none` is an access out of the range of the vector.
  choose : List L → EventThreadPool L → Option L × EventThreadPool L
  choose [] p = (some p.main_loop, p)
  choose (_ ∷ _) p =
      (get_elem? p.event_loops (next_index p), record p { thread_index = next_index p })

  pub get_one_loop_from_pool : EventThreadPool L → Option L × EventThreadPool L
  get_one_loop_from_pool p = choose p.event_loops p

  -- `eventLoopPoll[hash % threadNum]`. `none` is an access out of the range of the vector, and also
  -- stands for a division by 0.
  hashed : ℤ → EventThreadPool L → Option L
  hashed hash p =
      if p.thread_num == 0 then none else get_elem? p.event_loops (to_size (rem hash p.thread_num))

  with_hash : List L → ℤ → EventThreadPool L → Option L
  with_hash [] hash p = some p.main_loop
  with_hash (_ ∷ _) hash p = hashed hash p

  pub get_one_loop_with_hash : ℤ → EventThreadPool L → Option L
  get_one_loop_with_hash hash p = with_hash p.event_loops hash p

  -- What the next calls of `getOneLoopFromPool` return.
  pub choices : ℕ → EventThreadPool L → List (Option L)
  choices zero p = []
  choices (suc n) p = let (loop, after) = get_one_loop_from_pool p in loop ∷ choices n after
