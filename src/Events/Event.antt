-- ===== src/Events/Event.antt =====
-- src/event/event.cpp and include/private/event/event.hpp, class Event: a descriptor, the mask of
-- events that it waits for, and its callbacks. `update` and `removeFromLoop` act on the loop and
-- stand in Events/EventCtrl.antt.
pub mod Masks
pub mod Dispatch
pub mod Tests
use plugins_engine.Prelude.{
  ℕ, ◌-◌, ◌^◌, Bool, true, false, not, ◌&&◌, Option, none, some, if◌then◌else◌,
}
use plugins_engine.Prelude.Bits.{masked}
use Prim.Native.Nat.{bit_and, bit_or}

-- The values of <sys/epoll.h>.
abbrev pub epoll_in : ℕ
epoll_in = 0x001

abbrev pub epoll_pri : ℕ
epoll_pri = 0x002

abbrev pub epoll_out : ℕ
epoll_out = 0x004

abbrev pub epoll_err : ℕ
epoll_err = 0x008

abbrev pub epoll_hup : ℕ
epoll_hup = 0x010

abbrev pub epoll_rdhup : ℕ
epoll_rdhup = 0x2000

abbrev pub none_event_flag : ℕ
none_event_flag = 0

abbrev pub read_event_flag : ℕ
read_event_flag = bit_or epoll_in epoll_pri

abbrev pub write_event_flag : ℕ
write_event_flag = epoll_out

abbrev pub error_event_flag : ℕ
error_event_flag = epoll_err

-- A callback is a value of `C`; an empty `std::function` is `none`.
pub record Event (C : Type 0) : Type 0 where
  pub event_fd : ℕ
  pub events : ℕ
  pub read_callback : Option C
  pub write_callback : Option C
  pub error_callback : Option C
  pub close_callback : Option C

-- `events |= flag` and `events &= ~flag` on `uint32_t`.
unfoldable pub with_flag : ℕ → Bool → ℕ → ℕ
with_flag flag true events = bit_or events flag
with_flag flag false events = bit_and events (2 ^ 32 - 1 - flag)

module _ {C : Type 0} where
  unfoldable pub create : ℕ → Event C
  create fd = record {
    event_fd = fd;
    events = none_event_flag;
    read_callback = none;
    write_callback = none;
    error_callback = none;
    close_callback = none;
  }

  -- The changes of the mask; each is followed by `update`.
  unfoldable pub enable_reading : Bool → Event C → Event C
  enable_reading is_enable e = record e { events = with_flag read_event_flag is_enable e.events }

  unfoldable pub enable_writing : Bool → Event C → Event C
  enable_writing is_enable e = record e { events = with_flag write_event_flag is_enable e.events }

  unfoldable pub enable_error_event : Bool → Event C → Event C
  enable_error_event is_enable e = record e {
    events = with_flag error_event_flag is_enable e.events;
  }

  unfoldable pub disable_all : Event C → Event C
  disable_all e = record e { events = none_event_flag }

  unfoldable pub is_writing : Event C → Bool
  is_writing e = masked e.events write_event_flag

  pub is_reading : Event C → Bool
  is_reading e = masked e.events read_event_flag

  unfoldable pub set_read_callback : C → Event C → Event C
  set_read_callback cb e = record e { read_callback = some cb }

  unfoldable pub set_write_callback : C → Event C → Event C
  set_write_callback cb e = record e { write_callback = some cb }

  unfoldable pub set_error_callback : C → Event C → Event C
  set_error_callback cb e = record e { error_callback = some cb }

  unfoldable pub set_close_callback : C → Event C → Event C
  set_close_callback cb e = record e { close_callback = some cb }

-- `handle`, over the state `W` of all that a callback may change, the event included: `event_of`
-- reads the event in it, and `run` is the call of a callback.
module _ {C W : Type 0} (event_of : W → Event C) (run : C → W → W) where
  unfoldable pub call : Option C → W → W
  call none w = w
  call (some cb) w = run cb w

  unfoldable pub when_masked : Bool → (Event C → Option C) → W → W
  when_masked true callback w = call (callback (event_of w)) w
  when_masked false callback w = w

  unfoldable pub handle : ℕ → W → W
  handle events w =
      if masked events epoll_err
      then call (event_of w).error_callback w
      else when_masked (masked events epoll_out) (λ e. e.write_callback)
          (when_masked (masked events (bit_or (bit_or epoll_in epoll_pri) epoll_rdhup))
            (λ e. e.read_callback)
            (when_masked (masked events epoll_hup && not (masked events epoll_in))
              (λ e. e.read_callback) w))
