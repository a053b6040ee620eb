-- ===== src/Engine/Services/Existing.antt =====
-- The plugins that src/engine/engine.cpp lists, when one is registered.
use plugins_engine.Prelude.{
  ℕ, ◌≡◌, refl, ap, ◌∙◌, Bool, true, ◌||◌, [], ◌∷◌, ◌==◌, arith, Bool-cases, inl, inr,
}
use plugins_engine.Engine.PluginMap.{
  PluginMap, insert_plugin, erase_released_plugins, has_plugin, update_plugin,
}
use plugins_engine.Engine.PluginMap.Updating.{elem}
use plugins_engine.Engine.Services.{get_existing_plugins}

module _ (alive : ℕ → Bool) where
  existing-erase_released_plugins :
      (key : ℕ) (map : PluginMap)
      → get_existing_plugins alive (erase_released_plugins alive key map)
        ≡ get_existing_plugins alive map
  unfolding get_existing_plugins erase_released_plugins
  existing-erase_released_plugins key [] = refl
  existing-erase_released_plugins key ((k, p) ∷ map) =
      ground (arith, existing-erase_released_plugins key map)

  elem-insert_plugin :
      (x key plugin : ℕ) (map : PluginMap)
      → alive plugin ≡ true
      → elem x (get_existing_plugins alive (insert_plugin key plugin map))
        ≡ (plugin == x || elem x (get_existing_plugins alive map))
  unfolding get_existing_plugins insert_plugin
  elem-insert_plugin x key plugin [] a = ground (arith, a)
  elem-insert_plugin x key plugin ((k, p) ∷ map) a =
      ground (arith, a, elem-insert_plugin x key plugin map a)

  elem_present :
      (x key plugin : ℕ) (map : PluginMap)
      → alive plugin ≡ true
      → has_plugin alive key plugin map ≡ true
      → elem x (get_existing_plugins alive map)
        ≡ (plugin == x || elem x (get_existing_plugins alive map))
  unfolding get_existing_plugins has_plugin
  elem_present x key plugin [] a h = ground (arith, h)
  elem_present x key plugin ((k, p) ∷ map) a h =
      ground (arith, a, h, elem_present x key plugin map a)

  -- Registering a living plugin, under whatever key, puts exactly this plugin among those that the
  -- engine lists: any other is listed if and only if it was.
  pub elem-update_plugin :
      (x key plugin : ℕ) (map : PluginMap)
      → alive plugin ≡ true
      → elem x (get_existing_plugins alive (update_plugin alive key plugin map))
        ≡ (plugin == x || elem x (get_existing_plugins alive map))
  unfolding update_plugin
  elem-update_plugin x key plugin map a =
      let kept = erase_released_plugins alive key map in
      let same = existing-erase_released_plugins key map in
      elim (Bool-cases (has_plugin alive key plugin kept)) [
        | inl h ↦
            rw h (elem_present x key plugin kept a h ∙ ap (λ ps. plugin == x || elem x ps) same)
        | inr h ↦
            rw h (elem-insert_plugin x key plugin kept a ∙ ap (λ ps. plugin == x || elem x ps) same)
      ]
