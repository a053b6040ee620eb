-- ===== src/Engine/DataStorage/Tests.antt =====
-- The data of plugins at concrete keys.
use plugins_engine.Prelude.{[], ◌∷◌}
use plugins_engine.Engine.DataStorage.{DataMap}

abbrev two_values : DataMap
two_values = (1, 10) ∷ (2, 20) ∷ []
