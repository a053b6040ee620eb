-- ===== src/IoContextAdapter/Tests.antt =====
-- The adapter at concrete descriptors, and its theorems there.
use plugins_engine.Prelude.{ℕ, refl, true, false, none, List, [], ◌∷◌, ℕ_discrete}
use plugins_engine.Prelude.Bits.{masked}
use plugins_engine.Prelude.Assoc.{lookup}
use plugins_engine.IoContextAdapter.{Adapter, make_desc, add}
use plugins_engine.IoContextAdapter.Waiting.{
  AllWaitOnce, Call, adds, modifies, completes, collects, run_calls, run_calls-AllWaitOnce,
}
use plugins_engine.IoContextAdapter.Adding.{AddsNothing, IsMade, add-AddsNothing}

-- Descriptor 5 is in the map, and read; no handler does anything.
abbrev one_desc : Adapter ℕ
one_desc = record {
  map = (5, 0) ∷ [];
  store = λ id. make_desc false 5 1 9;
  next_desc = 1;
  posts = [];
  closed = [];
}

abbrev idle_handler : ℕ → ℕ → Adapter ℕ → Adapter ℕ
idle_handler handler events s = s

one_desc-AllWaitOnce : AllWaitOnce one_desc
unfolding make_desc masked
one_desc-AllWaitOnce id = (refl, refl, refl)

abbrev calls : List (Call ℕ)
calls =
    modifies 5 1
    ∷ completes false 0 1
    ∷ collects none 0
    ∷ modifies 5 5
    ∷ adds true false 6 1 8
    ∷ adds true false 6 1 8
    ∷ completes false 0 4
    ∷ []

run_calls-AllWaitOnce_example : AllWaitOnce (run_calls idle_handler calls one_desc)
run_calls-AllWaitOnce_example =
    run_calls-AllWaitOnce idle_handler calls one_desc (λ cb events t h. h) one_desc-AllWaitOnce

is_made : IsMade one_desc (lookup ℕ_discrete 6 one_desc.map)
unfolding lookup ℕ_discrete
is_made = tt

add-AddsNothing_example :
    AddsNothing one_desc 6 true (lookup ℕ_discrete 6 one_desc.map) (add true false 6 1 8 one_desc)
add-AddsNothing_example = add-AddsNothing true false 6 1 8 one_desc is_made
