-- ===== src/Engine/DataStorage/Laws.antt =====
-- Saving, getting and removing (src/engine/engine.cpp, include/private/engine/utilMap.hpp).
use plugins_engine.Prelude.{
  ℕ, zero, suc, ◌+◌, ◌≤◌, ◌<◌, ◌^◌, ◌≡◌, refl, ap, ◌∙◌, ite, List, Option, none, some, to_u32,
  ℕ_discrete, get_elem?, arith,
}
use plugins_engine.Prelude.Assoc.{lookup, insert, lookup-insert, lookup-assign, lookup-erase}
use plugins_engine.Engine.DataStorage.{
  replace_found, add, found_or, get_or_default, DataMap, save, get, remove, get_unique_key,
  unique_keys,
}

replace_found_at {ℓ} :
    {K V : Type ℓ} (dec : Discrete K) (found : Option V) (key at : K) (value : V)
    (map : List (K × V))
    → lookup dec key map ≡ found
    → lookup dec at (replace_found dec found key value map)
      ≡ ite (dec key at) (some value) (lookup dec at map)
unfolding replace_found
replace_found_at dec none key at value map e = ground (arith, e, lookup-insert dec key at value map)
replace_found_at dec (some w) key at value map e = ground (
  arith,
  lookup-assign dec key at value (insert dec key value map),
  lookup-insert dec key at value map,
)

lookup-replace_found {ℓ} :
    {K V : Type ℓ} (dec : Discrete K) (key at : K) (value : V) (map : List (K × V))
    → lookup dec at (replace_found dec (lookup dec key map) key value map)
      ≡ ite (dec key at) (some value) (lookup dec at map)
lookup-replace_found dec key at value map =
    replace_found_at dec (lookup dec key map) key at value map refl

found_or-ite {ℓ} :
    {V : Type ℓ} {P : Type ℓ} (d : Dec P) (otherwise : V) (a o : Option V)
    → found_or otherwise (ite d a o) ≡ ite d (found_or otherwise a) (found_or otherwise o)
found_or-ite (yes _) otherwise a o = refl
found_or-ite (no _) otherwise a o = refl

-- `Map::get` behind `Map::add` gives the value last added under the key, and what it gave before
-- under every other key.
pub get_or_default-add {ℓ} :
    {K V : Type ℓ} (dec : Discrete K) (otherwise : V) (key at : K) (value : V) (map : List (K × V))
    → get_or_default dec otherwise at (add dec key value map)
      ≡ ite (dec key at) value (get_or_default dec otherwise at map)
unfolding get_or_default add found_or
get_or_default-add dec otherwise key at value map =
    ap (found_or otherwise) (lookup-replace_found dec key at value map)
    ∙ found_or-ite (dec key at) otherwise (some value) (lookup dec at map)

-- `get` gives what was saved last under the key, 0 once it is removed, and is not changed by `save`
-- and `remove` under other keys.
pub get-save :
    (key at value : ℕ) (map : DataMap)
    → (get at (save key value map) ≡ ite (ℕ_discrete key at) value (get at map))
      × (get at (remove key map) ≡ ite (ℕ_discrete key at) 0 (get at map))
unfolding get save remove found_or
get-save key at value map = (
  ap (found_or 0) (lookup-replace_found ℕ_discrete key at value map)
      ∙ found_or-ite (ℕ_discrete key at) 0 (some value) (lookup ℕ_discrete at map),
  ap (found_or 0) (lookup-erase ℕ_discrete key at map)
      ∙ found_or-ite (ℕ_discrete key at) 0 none (lookup ℕ_discrete at map),
)

-- The first 2^32 calls of `getUniqueKey` give keys in ascending order, so that no two are the same.
pub get_elem?-unique_keys :
    (n counter i : ℕ)
    → counter + n ≤ 2 ^ 32
    → i < n
    → get_elem? (unique_keys n counter) i ≡ some (counter + i)
unfolding unique_keys get_unique_key
get_elem?-unique_keys zero counter i fits lt = absurd (omega arith)
get_elem?-unique_keys (suc n) counter zero fits lt = ap some (omega arith)
get_elem?-unique_keys (suc zero) counter (suc i) fits lt = absurd (omega arith)
get_elem?-unique_keys (suc (suc n)) counter (suc i) fits lt =
    let after : to_u32 (counter + 1) ≡ counter + 1 = omega arith in
    ap (λ c. get_elem? (unique_keys (suc n) c) i) after
    ∙ get_elem?-unique_keys (suc n) (counter + 1) i (omega arith) (omega arith)
    ∙ ap some (omega arith)
