-- ===== src/Events/Event/Tests.antt =====
-- Events at concrete masks, and their theorems there.
use Prim.Native.Nat.{bit_or}
use plugins_engine.Prelude.{ℕ, ◌≡◌, refl, true, false, some, none, [], ◌∷◌}
use plugins_engine.Prelude.Bits.{masked}
use plugins_engine.Events.Event.{
  Event, with_flag, enable_reading, enable_writing, handle, call, when_masked, epoll_hup,
  epoll_rdhup,
}
use plugins_engine.Events.Event.Dispatch.{calls, expected_calls, calls-eq-expected_calls}

-- Callbacks 1 for reading, 2 for writing and 3 for errors.
abbrev watched : Event ℕ
watched = record {
  event_fd = 7;
  events = 3;
  read_callback = some 1;
  write_callback = some 2;
  error_callback = some 3;
  close_callback = none;
}

-- A peer that closed and a hang-up, with no input left: the read callback is called twice.
closed_twice : calls watched (bit_or epoll_hup epoll_rdhup) [] ≡ 1 ∷ 1 ∷ []
unfolding handle when_masked call masked
closed_twice = refl

masks_clear : (enable_reading false (enable_writing true watched)).events ≡ 4
unfolding enable_reading enable_writing with_flag
masks_clear = refl

calls-eq-expected_calls_example : calls watched 0x2014 [] ≡ expected_calls watched 0x2014
calls-eq-expected_calls_example = calls-eq-expected_calls watched 0x2014 []
