-- ===== src/IoContextAdapter.antt =====
-- src/adapter/IOContextAdapter.cpp: the event loop's descriptors on a boost::asio::io_context. The
-- descriptors are shared objects in a store, by number. What asio is asked to do is recorded, and its
-- completions come as calls of `handle_and_wait` and `handle_collect_events`.
pub mod Waiting
pub mod Adding
pub mod Releasing
pub mod Owning
pub mod Tests
use plugins_engine.Prelude.{
  ℕ, ◌+◌, ◌-◌, ◌^◌, Bool, true, false, not, ◌&&◌, ◌||◌, Option, none, some, List, [], ◌∷◌, ◌++◌,
  ◌==◌, if◌then◌else◌, ℕ_discrete,
}
use plugins_engine.Prelude.Bits.{masked}
use plugins_engine.Prelude.Assoc.{lookup, insert, erase}
use Prim.Native.Nat.{bit_and, bit_or}

-- EPOLLIN and EPOLLOUT, and a flag of the adapter's own.
abbrev pub event_in : ℕ
event_in = 1

abbrev pub event_out : ℕ
event_out = 4

abbrev pub error_event : ℕ
error_event = 16777216

-- `waits` are the calls of `async_wait`, by the flag that each is for.
pub record StreamDesc (H : Type 0) : Type 0 where
  pub fd : ℕ
  pub is_open : Bool
  pub events : ℕ
  pub event_handler : H
  pub event_handler_posted : Bool
  pub waited_events : ℕ
  pub collected_events : ℕ
  pub waits : List ℕ

-- `posts` are the descriptors for which `handleCollectEvents` was posted, `closed` the numbers that
-- the destructor of a `stream_descriptor` has closed.
pub record Adapter (H : Type 0) : Type 0 where
  pub map : List (ℕ × ℕ)
  pub store : ℕ → StreamDesc H
  pub next_desc : ℕ
  pub posts : List ℕ
  pub closed : List ℕ

-- The state behind a call, and whether it threw.
pub data Result (H : Type 0) : Type 0 where
  ok thrown : Adapter H → Result H

module _ {H : Type 0} where
  unfoldable pub set_desc : ℕ → StreamDesc H → Adapter H → Adapter H
  set_desc id d s = record s { store = λ j. if j == id then d else s.store j }

  -- The constructor of StreamDesc where asio takes the descriptor, which leaves `eventHandlerPosted` as it finds it in memory.
  pub make_desc : Bool → ℕ → ℕ → H → StreamDesc H
  make_desc in_memory fd events handler = record {
    fd = fd;
    is_open = true;
    events = events;
    event_handler = handler;
    event_handler_posted = in_memory;
    waited_events = 0;
    collected_events = 0;
    waits = [];
  }

  -- One of the three tests of `waitAsync`.
  pub wait_flag : Bool → ℕ → StreamDesc H → StreamDesc H
  wait_flag asked flag d =
      if asked && not (masked d.waited_events flag)
      then record d { waits = d.waits ++ (flag ∷ []); waited_events = bit_or d.waited_events flag }
      else d

  pub wait_async : StreamDesc H → StreamDesc H
  wait_async d =
      let reading = wait_flag (masked d.events event_in) event_in d in
      let writing = wait_flag (masked reading.events event_out) event_out reading in
      wait_flag true error_event writing

  pub wait_async_id : ℕ → Adapter H → Adapter H
  wait_async_id id s = set_desc id (wait_async (s.store id)) s

  -- The destructor of a StreamDesc that was not released: its `stream_descriptor` closes the number.
  pub close_desc : ℕ → ℕ → Adapter H → Adapter H
  close_desc fd id s =
      let shut = set_desc id (record (s.store id) { is_open = false }) s in
      record shut { closed = s.closed ++ (fd ∷ []) }

  -- `add` behind `insert`, by the entry that was there: if one was, the new StreamDesc is not kept.
  add_found : Option ℕ → ℕ → ℕ → Adapter H → Result H
  add_found none fd id s =
      thrown (record s { map = insert ℕ_discrete fd id s.map; next_desc = id + 1 })
  add_found (some old) fd id s = ok (wait_async_id old (close_desc fd id s))

  -- `taken` is whether asio takes the descriptor. If it does not, as where it has the number already,
  -- the constructor of `stream_descriptor` throws.
  pub add : Bool → Bool → ℕ → ℕ → H → Adapter H → Result H
  add taken in_memory fd events handler s =
      if taken
      then add_found (lookup ℕ_discrete fd s.map) fd s.next_desc
          (set_desc s.next_desc (make_desc in_memory fd events handler) s)
      else thrown s

  modify_found : Option ℕ → ℕ → Adapter H → Result H
  modify_found none events s = thrown s
  modify_found (some id) events s =
      ok (wait_async_id id (set_desc id (record (s.store id) { events = events }) s))

  pub modify : ℕ → ℕ → Adapter H → Result H
  modify fd events s = modify_found (lookup ℕ_discrete fd s.map) events s

  del_found : Option ℕ → ℕ → Adapter H → Result H
  del_found none fd s = thrown s
  del_found (some id) fd s =
      let released = set_desc id (record (s.store id) { is_open = false }) s in
      ok (record released { map = erase ℕ_discrete fd s.map })

  pub del : ℕ → Adapter H → Result H
  del fd s = del_found (lookup ℕ_discrete fd s.map) fd s

  pub release_all : List (ℕ × ℕ) → Adapter H → Adapter H
  release_all [] s = s
  release_all ((fd, id) ∷ map) s =
      release_all map (set_desc id (record (s.store id) { is_open = false }) s)

  -- The destructor.
  pub destroy : Adapter H → Adapter H
  destroy s = release_all s.map s

  -- `weakDescr.lock()`: whether the map still holds the descriptor.
  pub is_alive : ℕ → Adapter H → Bool
  is_alive id s = elim (lookup ℕ_discrete (s.store id).fd s.map) [ none ↦ false | some j ↦ j == id ]

  -- What `handleAndWait` does to a descriptor.
  pub collect : ℕ → StreamDesc H → StreamDesc H
  collect events d = record d {
    events = bit_and d.events (2 ^ 32 - 1 - events);
    collected_events = bit_or d.collected_events events;
    event_handler_posted = true;
  }

  pub handle_and_wait : Bool → ℕ → ℕ → Adapter H → Adapter H
  handle_and_wait err id events s =
      let d = s.store id in
      let collected = set_desc id (collect events d) s in
      if err || not (is_alive id s)
      then s
      else if d.event_handler_posted
      then collected
      else record collected { posts = s.posts ++ (id ∷ []) }

-- `run` is what a handler does with the events, and `polled` what `poll` finds: the `revents` of the
-- descriptor, if it returns 1.
module _ {H : Type 0} (run : H → ℕ → Adapter H → Adapter H) where
  add_polled : Option ℕ → ℕ → ℕ
  add_polled none events = events
  add_polled (some revents) events = bit_or events revents

  pub events_to_report : Option ℕ → ℕ → ℕ
  events_to_report polled collected =
      let events = bit_and collected (2 ^ 32 - 1 - error_event) in
      if masked collected error_event then add_polled polled events else events

  wait_if_open : ℕ → Adapter H → Adapter H
  wait_if_open id s = if (s.store id).is_open then wait_async_id id s else s

  pub handle_collect_events : Option ℕ → ℕ → Adapter H → Adapter H
  handle_collect_events polled id s =
      let d = s.store id in
      let reset = set_desc id (record d { event_handler_posted = false; collected_events = 0 }) s in
      let reported = events_to_report polled d.collected_events in
      if is_alive id s then wait_if_open id (run d.event_handler reported reset) else s
