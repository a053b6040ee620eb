-- ===== src/Prelude/Assoc.antt =====
-- `std::map` and `std::unordered_map` as association lists, by the operations that the program uses.
use Prim.Native.Nat.{◌+◌}
use mathlib.Core.Path.{◌≡◌, refl}
use mathlib.Core.Logic.{ite}
use mathlib.Core.List.{List, [], ◌∷◌}
use mathlib.Core.Option.{Option, none, some, get_or}
use native.Mathlib.Omega.{arith}
use plugins_engine.Prelude.Lists.{length}

module _ {ℓ} {K V : Type ℓ} (dec : Discrete K) where
  -- `find`.
  unfoldable pub lookup : K → List (K × V) → Option V
  lookup key [] = none
  lookup key ((at, v) ∷ rest) = ite (dec at key) (some v) (lookup key rest)

  -- `insert`, which leaves an entry that is there alone.
  unfoldable pub insert : K → V → List (K × V) → List (K × V)
  insert key v [] = (key, v) ∷ []
  insert key v ((at, w) ∷ rest) = ite (dec at key) ((at, w) ∷ rest) ((at, w) ∷ insert key v rest)

  -- `insert`, and an assignment to the entry if it was there.
  unfoldable pub assign : K → V → List (K × V) → List (K × V)
  assign key v [] = (key, v) ∷ []
  assign key v ((at, w) ∷ rest) = ite (dec at key) ((at, v) ∷ rest) ((at, w) ∷ assign key v rest)

  -- `erase` by key.
  unfoldable pub erase : K → List (K × V) → List (K × V)
  erase key [] = []
  erase key ((at, w) ∷ rest) = ite (dec at key) (erase key rest) ((at, w) ∷ erase key rest)

  pub lookup-insert :
      (key at : K) (v : V) (rest : List (K × V))
      → lookup at (insert key v rest)
        ≡ ite (dec key at) (some (get_or (lookup key rest) v)) (lookup at rest)
  unfolding lookup insert
  lookup-insert key at v [] = refl
  lookup-insert key at v ((i, w) ∷ rest) = ground (arith, lookup-insert key at v rest)

  pub lookup-assign :
      (key at : K) (v : V) (rest : List (K × V))
      → lookup at (assign key v rest) ≡ ite (dec key at) (some v) (lookup at rest)
  unfolding lookup assign
  lookup-assign key at v [] = refl
  lookup-assign key at v ((i, w) ∷ rest) = ground (arith, lookup-assign key at v rest)

  pub lookup-erase :
      (key at : K) (rest : List (K × V))
      → lookup at (erase key rest) ≡ ite (dec key at) none (lookup at rest)
  unfolding lookup erase
  lookup-erase key at [] = ground arith
  lookup-erase key at ((i, w) ∷ rest) = ground (arith, lookup-erase key at rest)

  pub length-insert :
      (key : K) (v : V) (rest : List (K × V))
      → lookup key rest ≡ none
      → length (insert key v rest) ≡ length rest + 1
  unfolding lookup insert
  length-insert key v [] h = omega arith
  length-insert key v ((i, w) ∷ rest) h = ground (arith, length-insert key v rest)

  pub insert_present :
      (key : K) (v w : V) (rest : List (K × V))
      → lookup key rest ≡ some w
      → insert key v rest ≡ rest
  unfolding lookup insert
  insert_present key v w [] h = cc
  insert_present key v w ((at, u) ∷ rest) h = ground (arith, insert_present key v w rest)
