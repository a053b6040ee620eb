-- ===== src/Engine/PluginMap/Updating.antt =====
-- `updatePlugin` of include/comapi/plugin/PluginMap.hpp against a list of plugins for each key.
use plugins_engine.Prelude.{
  ℕ, ◌≤◌, ◌<◌, ◌≡◌, refl, ap, ◌∙◌, Bool, true, false, ◌&&◌, not, List, [], ◌∷◌, ◌++◌, ltb, ◌==◌,
  if◌then◌else◌, Bool-cases, inl, inr, arith, ==_iff, ==_refl, ltb→lt,
}
use plugins_engine.Engine.PluginMap.{
  PluginMap, insert_plugin, erase_released_plugins, has_plugin, update_plugin,
}

-- The plugins under a key, in order.
abbrev pub plugins_of : ℕ → PluginMap → List ℕ
plugins_of key [] = []
plugins_of key ((k, p) ∷ map) = if k == key then p ∷ plugins_of key map else plugins_of key map

abbrev pub living : (ℕ → Bool) → List ℕ → List ℕ
living alive [] = []
living alive (p ∷ ps) = if alive p then p ∷ living alive ps else living alive ps

abbrev pub elem : ℕ → List ℕ → Bool
elem plugin [] = false
elem plugin (p ∷ ps) = if p == plugin then true else elem plugin ps

-- The keys ascend from `floor` on.
abbrev pub IsSorted : ℕ → PluginMap → Type 0
IsSorted floor [] = Unit {0}
IsSorted floor ((k, p) ∷ map) = (floor ≤ k) × IsSorted k map

lower-IsSorted : (floor k : ℕ) (map : PluginMap) → IsSorted k map → floor ≤ k → IsSorted floor map
lower-IsSorted floor k [] s le = tt
lower-IsSorted floor k ((i, p) ∷ map) (low, s) le = (omega arith, s)

erase_released_plugins-IsSorted :
    (alive : ℕ → Bool) (key floor : ℕ) (map : PluginMap)
    → IsSorted floor map
    → IsSorted floor (erase_released_plugins alive key map)
unfolding erase_released_plugins
erase_released_plugins-IsSorted alive key floor [] s = tt
erase_released_plugins-IsSorted alive key floor ((k, p) ∷ map) (low, s) =
    let rest : IsSorted k (erase_released_plugins alive key map) =
      erase_released_plugins-IsSorted alive key k map s in
    elim (Bool-cases (k == key && not (alive p))) [
      | inl h ↦ rw h (lower-IsSorted floor k (erase_released_plugins alive key map) rest low)
      | inr h ↦ rw h (low, rest)
    ]

insert_plugin-IsSorted :
    (key plugin floor : ℕ) (map : PluginMap)
    → IsSorted floor map
    → floor ≤ key
    → IsSorted floor (insert_plugin key plugin map)
unfolding insert_plugin
insert_plugin-IsSorted key plugin floor [] s le = (le, tt)
insert_plugin-IsSorted key plugin floor ((k, p) ∷ map) (low, s) le = elim (Bool-cases (ltb key k)) [
  | inl h ↦ rw h (le, (omega (arith, ltb→lt key k h), s))
  | inr h ↦ rw h (low, insert_plugin-IsSorted key plugin k map s (ground (arith, h)))
]

plugins_of-erase_released_plugins :
    (alive : ℕ → Bool) (key at : ℕ) (map : PluginMap)
    → plugins_of at (erase_released_plugins alive key map)
      ≡ (if key == at then living alive (plugins_of at map) else plugins_of at map)
unfolding erase_released_plugins
plugins_of-erase_released_plugins alive key at [] = ground arith
plugins_of-erase_released_plugins alive key at ((k, p) ∷ map) =
    ground (arith, plugins_of-erase_released_plugins alive key at map)

plugins_of_none :
    (at floor : ℕ) (map : PluginMap) → IsSorted floor map → at < floor → plugins_of at map ≡ []
plugins_of_none at floor [] s lt = refl
plugins_of_none at floor ((k, p) ∷ map) (low, s) lt =
    ground (arith, plugins_of_none at k map s (omega arith))

plugins_of-insert_plugin :
    (key plugin at floor : ℕ) (map : PluginMap)
    → IsSorted floor map
    → plugins_of at (insert_plugin key plugin map)
      ≡ (if key == at then plugins_of at map ++ (plugin ∷ []) else plugins_of at map)
unfolding insert_plugin
plugins_of-insert_plugin key plugin at floor [] s = ground arith
plugins_of-insert_plugin key plugin at floor ((k, p) ∷ map) (low, s) =
    elim (Bool-cases (ltb key k)) [
      | inl h ↦ ground (arith, h, plugins_of_none at k map s)
      | inr h ↦ ground (arith, h, plugins_of-insert_plugin key plugin at k map s)
    ]

has_plugin_lem :
    (alive : ℕ → Bool) (key plugin : ℕ) (map : PluginMap)
    → alive plugin ≡ true
    → has_plugin alive key plugin map ≡ elem plugin (plugins_of key map)
unfolding has_plugin
has_plugin_lem alive key plugin [] living_plugin = refl
has_plugin_lem alive key plugin ((k, p) ∷ map) living_plugin =
    ground (arith, has_plugin_lem alive key plugin map living_plugin, ==_iff p plugin)

-- What `updatePlugin` makes of the plugins under its key.
abbrev pub updated : (ℕ → Bool) → ℕ → List ℕ → List ℕ
updated alive plugin plugins =
    if elem plugin (living alive plugins)
    then living alive plugins
    else living alive plugins ++ (plugin ∷ [])

has_plugin_kept :
    (alive : ℕ → Bool) (key plugin : ℕ) (map : PluginMap)
    → alive plugin ≡ true
    → has_plugin alive key plugin (erase_released_plugins alive key map)
      ≡ elem plugin (living alive (plugins_of key map))
has_plugin_kept alive key plugin map living_plugin =
    has_plugin_lem alive key plugin (erase_released_plugins alive key map) living_plugin
    ∙ ap (elem plugin) (plugins_of-erase_released_plugins alive key key map ∙ rw (==_refl key) refl)

-- `updatePlugin` of a plugin that lives forgets the plugins under its key that have been released,
-- adds the plugin behind the others unless it is there, and changes nothing under other keys; the
-- entries stay in the order of their keys.
pub plugins_of-update_plugin :
    (alive : ℕ → Bool) (key plugin at : ℕ) (map : PluginMap)
    → IsSorted 0 map
    → alive plugin ≡ true
    → IsSorted 0 (update_plugin alive key plugin map)
      × (plugins_of at (update_plugin alive key plugin map)
          ≡ (if key == at then updated alive plugin (plugins_of at map) else plugins_of at map))
unfolding update_plugin
plugins_of-update_plugin alive key plugin at map s living_plugin =
    elim (Bool-cases (elem plugin (living alive (plugins_of key map)))) [
      | inl h ↦ rw (same, h) (sorted, ground (arith, h, erased, ==_iff key at))
      | inr h ↦
          rw (same, h)
            (
              insert_plugin-IsSorted key plugin 0 kept sorted (omega arith),
              ground (
                arith,
                h,
                erased,
                plugins_of-insert_plugin key plugin at 0 kept sorted,
                ==_iff key at,
              ),
            )
    ]
  where
    kept : PluginMap
    kept = erase_released_plugins alive key map

    sorted : IsSorted 0 kept
    sorted = erase_released_plugins-IsSorted alive key 0 map s

    same : has_plugin alive key plugin kept ≡ elem plugin (living alive (plugins_of key map))
    same = has_plugin_kept alive key plugin map living_plugin

    erased :
        plugins_of at kept
        ≡ (if key == at then living alive (plugins_of at map) else plugins_of at map)
    erased = plugins_of-erase_released_plugins alive key at map
