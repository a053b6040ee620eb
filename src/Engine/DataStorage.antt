-- ===== src/Engine/DataStorage.antt =====
-- The data that plugins share by key: `save`, `get` and `remove` of src/engine/engine.cpp, the map of
-- include/private/engine/utilMap.hpp, and the keys of src/plugin/pluginDataStorage.cpp.
pub mod Laws
pub mod Tests
use plugins_engine.Prelude.{
  ℕ, zero, suc, ◌+◌, List, [], ◌∷◌, Option, none, some, to_u32, ℕ_discrete,
}
use plugins_engine.Prelude.Assoc.{lookup, insert, assign, erase}

-- `ret.first->second = data` where `insert` has found the key, whose outcome `found` is.
pub replace_found {ℓ} : {K V : Type ℓ} → Discrete K → Option V → K → V → List (K × V) → List (K × V)
replace_found dec none key value map = insert dec key value map
replace_found dec (some _) key value map = assign dec key value (insert dec key value map)

-- `Map::add`.
pub add {ℓ} : {K V : Type ℓ} → Discrete K → K → V → List (K × V) → List (K × V)
add dec key value map = replace_found dec (lookup dec key map) key value map

-- `it == end ? otherwise : it->second`.
pub found_or {ℓ} : {V : Type ℓ} → V → Option V → V
found_or otherwise none = otherwise
found_or otherwise (some value) = value

-- `Map::get`, with the value that `ValueType()` makes.
pub get_or_default {ℓ} : {K V : Type ℓ} → Discrete K → V → K → List (K × V) → V
get_or_default dec otherwise key map = found_or otherwise (lookup dec key map)

-- `pluginDataMap`.
abbrev pub DataMap : Type 0
DataMap = List (ℕ × ℕ)

pub save : ℕ → ℕ → DataMap → DataMap
save key value map = replace_found ℕ_discrete (lookup ℕ_discrete key map) key value map

pub get : ℕ → DataMap → ℕ
get key map = found_or 0 (lookup ℕ_discrete key map)

pub remove : ℕ → DataMap → DataMap
remove key map = erase ℕ_discrete key map

-- `getUniqueKey`: the key, and the counter of 32 bits behind it.
pub get_unique_key : ℕ → ℕ × ℕ
get_unique_key counter = (counter, to_u32 (counter + 1))

-- The keys of the next calls.
pub unique_keys : ℕ → ℕ → List ℕ
unique_keys zero counter = []
unique_keys (suc n) counter = let (key, after) = get_unique_key counter in key ∷ unique_keys n after
