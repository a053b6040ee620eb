-- ===== src/Engine/Services/Waits.antt =====
-- How long src/engine/engine.cpp waits for events.
use plugins_engine.Prelude.{ℕ, suc, ◌-◌, ◌*◌, ◌/◌, ◌^◌, ◌<◌, ◌≡◌, ap, ◌∙◌, [], ◌∷◌, arith, min}
use plugins_engine.Prelude.Int.{pos, negsuc}
use plugins_engine.Events.Epoll.{Epoll}
use plugins_engine.Events.EventLoop.{Loop, handle_event}
use plugins_engine.Engine.Services.{
  negative_to_int, timeout_ms, waits, handle_in_turn, wait_and_handle_events_for,
}

timeout_ms-min : (n : ℕ) → timeout_ms (pos n) ≡ pos (min (n / 1000000) (2 ^ 31 - 1))
unfolding timeout_ms
timeout_ms-min n = ground arith

negative_to_int-suc : (ms : ℕ) → ms < 2 ^ 31 → negative_to_int (suc ms) ≡ negsuc ms
unfolding negative_to_int
negative_to_int-suc ms h = ground arith

one_wait : (n : ℕ) → 0 < n → waits (pos n) ≡ timeout_ms (pos n) ∷ []
unfolding waits
one_wait n h = ground arith

two_waits :
    (ms : ℕ) → ms < 2 ^ 31 → waits (negsuc (suc ms * 1000000 - 1)) ≡ pos 0 ∷ (negsuc ms ∷ [])
unfolding waits timeout_ms
two_waits ms h =
    ap (λ q. pos 0 ∷ (negative_to_int q ∷ [])) (omega arith)
    ∙ ap (λ t. pos 0 ∷ (t ∷ [])) (negative_to_int-suc ms h)

module _ {E : Epoll} {C F X : Type 0} (run_event : C → Loop E C F X → Loop E C F X)
    (run_function : F → Loop E C F X → Loop E C F X) where
  -- With a timeout of one nanosecond or more, the engine waits once, for the timeout's whole
  -- milliseconds, capped at 2^31 - 1. With a timeout of `suc ms` milliseconds below zero, it looks for
  -- events without waiting, and then waits with a negative time, which `epoll_wait` takes for no
  -- limit; the number of milliseconds is one of an `int`.
  pub wait_and_handle_events_for_lem :
      (n ms : ℕ) (l : Loop E C F X)
      → 0 < n
      → ms < 2 ^ 31
      → (wait_and_handle_events_for run_event run_function (pos n) l
          ≡ handle_event run_event run_function (pos (min (n / 1000000) (2 ^ 31 - 1))) l)
        × (wait_and_handle_events_for run_event run_function (negsuc (suc ms * 1000000 - 1)) l
            ≡ handle_event run_event run_function
                (negsuc ms)
                (handle_event run_event run_function (pos 0) l))
  unfolding wait_and_handle_events_for handle_in_turn
  wait_and_handle_events_for_lem n ms l some_time bound = (
    ap (λ times. handle_in_turn run_event run_function times l) (one_wait n some_time)
        ∙ ap (λ t. handle_event run_event run_function t l) (timeout_ms-min n),
    ap (λ times. handle_in_turn run_event run_function times l) (two_waits ms bound),
  )
