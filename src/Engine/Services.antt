-- ===== src/Engine/Services.antt =====
-- src/engine/engine.cpp, class Engine: how it waits for events on behalf of a program with a loop of
-- its own, and which plugins it knows. A duration is a number of nanoseconds.
pub mod Waits
pub mod Existing
pub mod Tests
use plugins_engine.Prelude.{
  ℕ, suc, ◌-◌, ◌/◌, ◌%◌, ◌^◌, Bool, List, [], ◌∷◌, ltb, leb, ◌==◌, if◌then◌else◌,
}
use plugins_engine.Prelude.Int.{ℤ, pos, negsuc}
use plugins_engine.Events.Epoll.{Epoll}
use plugins_engine.Events.EventLoop.{Loop, handle_event}
use plugins_engine.Engine.PluginMap.{PluginMap}

-- `std::numeric_limits<int>::max()`.
abbrev pub int_max : ℕ
int_max = 2 ^ 31 - 1

abbrev pub ns_per_ms : ℕ
ns_per_ms = 1000000

-- The `int` that -`n` is converted to.
pub negative_to_int : ℕ → ℤ
negative_to_int n =
    let r = n % 2 ^ 32 in
    if r == 0 then pos 0 else if leb r (2 ^ 31) then negsuc (r - 1) else pos (2 ^ 32 - r)

-- `timeoutMs`, capped, as an `int`; `duration_cast` rounds towards 0.
pub timeout_ms : ℤ → ℤ
timeout_ms (pos n) = if ltb int_max (n / ns_per_ms) then pos int_max else pos (n / ns_per_ms)
timeout_ms (negsuc n) = negative_to_int (suc n / ns_per_ms)

-- The times that `waitAndHandleEvents(timeout)` hands to `handleEvent`, in order.
pub waits : ℤ → List ℤ
waits (pos n) = if n == 0 then pos 0 ∷ timeout_ms (pos n) ∷ [] else timeout_ms (pos n) ∷ []
waits (negsuc n) = pos 0 ∷ timeout_ms (negsuc n) ∷ []

module _ {E : Epoll} {C F X : Type 0} (run_event : C → Loop E C F X → Loop E C F X)
    (run_function : F → Loop E C F X → Loop E C F X) where
  -- `waitAndHandleEvents()`.
  pub wait_and_handle_events : Loop E C F X → Loop E C F X
  wait_and_handle_events l = handle_event run_event run_function (negsuc 0) l

  pub handle_in_turn : List ℤ → Loop E C F X → Loop E C F X
  handle_in_turn [] l = l
  handle_in_turn (t ∷ times) l = handle_in_turn times (handle_event run_event run_function t l)

  -- `waitAndHandleEvents(timeout)`.
  pub wait_and_handle_events_for : ℤ → Loop E C F X → Loop E C F X
  wait_and_handle_events_for timeout l = handle_in_turn (waits timeout) l

module _ (alive : ℕ → Bool) where
  -- `getExistingPlugins`.
  pub get_existing_plugins : PluginMap → List ℕ
  get_existing_plugins [] = []
  get_existing_plugins ((key, plugin) ∷ map) =
      let rest = get_existing_plugins map in if alive plugin then plugin ∷ rest else rest
