-- ===== src/Engine/PluginMap/Tests.antt =====
-- The map of plugins at concrete entries.
use plugins_engine.Prelude.{ℕ, Bool, true, false, ◌≡◌, refl, [], ◌∷◌, ◌==◌, if◌then◌else◌, arith}
use plugins_engine.Engine.PluginMap.{PluginMap, update_plugin}
use plugins_engine.Engine.PluginMap.Updating.{
  plugins_of, updated, IsSorted, plugins_of-update_plugin,
}

-- Plugin 9 has been released.
abbrev alive : ℕ → Bool
alive p = if p == 9 then false else true

abbrev two_keys : PluginMap
two_keys = (3, 7) ∷ (3, 9) ∷ (5, 8) ∷ []

two_keys-IsSorted : IsSorted 0 two_keys
two_keys-IsSorted = (omega arith, (omega arith, (omega arith, tt)))

plugins_of-update_plugin_example :
    IsSorted 0 (update_plugin alive 3 6 two_keys)
    × (plugins_of 3 (update_plugin alive 3 6 two_keys) ≡ updated alive 6 (plugins_of 3 two_keys))
plugins_of-update_plugin_example =
    plugins_of-update_plugin alive 3 6 3 two_keys two_keys-IsSorted refl
