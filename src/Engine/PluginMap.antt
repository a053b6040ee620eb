-- ===== src/Engine/PluginMap.antt =====
-- include/comapi/plugin/PluginMap.hpp, class PluginMap: the living plugins under a hash of their
-- path. A plugin stands for the address of its object, and `alive` says of which objects a
-- `shared_ptr` is held.
pub mod Updating
pub mod Tests
use plugins_engine.Prelude.{
  ℕ, ◌+◌, Bool, true, false, ◌&&◌, not, List, [], ◌∷◌, ltb, ◌==◌, if◌then◌else◌,
}

-- `std::multimap<std::size_t, std::weak_ptr<Plugin>>`, in the order of iteration.
abbrev pub PluginMap : Type 0
PluginMap = List (ℕ × ℕ)

-- `insert` of a multimap: behind the entries with the same key.
unfoldable pub insert_plugin : ℕ → ℕ → PluginMap → PluginMap
insert_plugin key plugin [] = (key, plugin) ∷ []
insert_plugin key plugin ((k, p) ∷ map) =
    if ltb key k then (key, plugin) ∷ (k, p) ∷ map else (k, p) ∷ insert_plugin key plugin map

module _ (alive : ℕ → Bool) where
  -- `eraseReleasedPlugins`; the entries with the key stand together.
  unfoldable pub erase_released_plugins : ℕ → PluginMap → PluginMap
  erase_released_plugins key [] = []
  erase_released_plugins key ((k, p) ∷ map) =
      let rest = erase_released_plugins key map in
      if k == key && not (alive p) then rest else (k, p) ∷ rest

  -- The loop of `updatePlugin`: whether it returns early.
  unfoldable pub has_plugin : ℕ → ℕ → PluginMap → Bool
  has_plugin key plugin [] = false
  has_plugin key plugin ((k, p) ∷ map) =
      if k == key && (alive p && p == plugin) then true else has_plugin key plugin map

  unfoldable pub update_plugin : ℕ → ℕ → PluginMap → PluginMap
  update_plugin key plugin map =
      let kept = erase_released_plugins key map in
      if has_plugin key plugin kept then kept else insert_plugin key plugin kept
