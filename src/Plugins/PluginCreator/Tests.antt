-- ===== src/Plugins/PluginCreator/Tests.antt =====
-- The creation of plugins at concrete paths and libraries, and its theorems there.
use plugins_engine.Prelude.{ℕ, ◌≡◌, refl, true, Option, none, some, [], ◌∷◌, length, arith}
use mathlib.Core.List.Perm
use plugins_engine.Engine.PluginMap.Updating.{plugins_of}
use plugins_engine.Prelude.Texts.{Text}
use plugins_engine.Plugins.PluginCreator.{
  Engine, Linker, Surroundings, entries, create, colon_separated_string_to_paths, paths_from,
  push_candidate, list_directory, variable_paths,
}
use plugins_engine.Plugins.PluginCreator.Paths.{
  colon_separated_string_to_paths_lem, nonempty, all_pieces, split, join, NoColons,
}
use plugins_engine.Plugins.PluginCreator.Blacklist.{Allowed, IsModest, create-Allowed}
use plugins_engine.Plugins.PluginCreator.Creation.{
  outcome_of, plugins_after, by_variable, by_directory, create_outcome, Lives,
}
use plugins_engine.Plugins.PluginCreator.Sorting.{list_directory-Perm}

-- "a:bc::d".
abbrev three_paths : Text
three_paths = b'a' ∷ b':' ∷ b'b' ∷ b'c' ∷ b':' ∷ b':' ∷ b'd' ∷ []

cuts_at_colons :
    colon_separated_string_to_paths three_paths
    ≡ (b'a' ∷ []) ∷ (b'b' ∷ b'c' ∷ []) ∷ (b'd' ∷ []) ∷ []
unfolding colon_separated_string_to_paths paths_from push_candidate
cuts_at_colons = refl

colon_separated_string_to_paths_lem_example :
    (colon_separated_string_to_paths three_paths ≡ nonempty (all_pieces (split three_paths)))
    × (join (split three_paths).first (split three_paths).others ≡ three_paths)
    × NoColons (all_pieces (split three_paths))
colon_separated_string_to_paths_lem_example = colon_separated_string_to_paths_lem three_paths

-- Every file opens, with its length for a handle, and exports a creator that returns that number.
abbrev linker : Linker
linker = record {
  dlopen = λ path. some (length path);
  dlsym = λ handle name. some handle;
  call = λ creator engine. (some creator, engine);
}

linker-IsModest : IsModest linker
linker-IsModest = record {
  same_opened = λ creator engine. refl;
  same_plugins = λ creator engine. refl;
}

-- "d" is on the blacklist, the variable is not set, and the directory holds "bc" and "d".
abbrev around : Surroundings
around = record {
  blacklist_variable = some (b'd' ∷ []);
  path_variable = none;
  directory = entries ((b'd' ∷ []) ∷ (b'b' ∷ b'c' ∷ []) ∷ []);
  alive = λ p. true;
}

abbrev engine : Engine
engine = record { libraries = []; plugins = (1, 7) ∷ []; opened = [] }

create-Allowed_example :
    Allowed
      (variable_paths linker around.blacklist_variable)
      (create linker around 1 (b'f' ∷ []) engine).1.opened
create-Allowed_example = create-Allowed linker around 1 (b'f' ∷ []) engine linker-IsModest tt

all_live : (o : Option ℕ) → Lives around.alive o
all_live none = tt
all_live (some p) = refl

create_outcome_example :
    ((create linker around 1 (b'f' ∷ []) engine).0
      ≡ outcome_of
          (by_variable linker around (b'f' ∷ []) engine).0
          (by_directory linker around (b'f' ∷ []) engine))
    × (plugins_of 1 (create linker around 1 (b'f' ∷ []) engine).1.plugins
        ≡ plugins_after around.alive true
            (by_variable linker around (b'f' ∷ []) engine).0
            (by_directory linker around (b'f' ∷ []) engine)
            (plugins_of 1 engine.plugins))
create_outcome_example =
    create_outcome linker around 1 1 (b'f' ∷ []) engine linker-IsModest (omega arith, tt)
      (all_live (by_directory linker around (b'f' ∷ []) engine))

list_directory-Perm_example :
    list_directory (entries ((b'd' ∷ []) ∷ three_paths ∷ []))
    ≡ list_directory (entries (three_paths ∷ (b'd' ∷ []) ∷ []))
list_directory-Perm_example =
    list_directory-Perm ((b'd' ∷ []) ∷ three_paths ∷ []) (three_paths ∷ (b'd' ∷ []) ∷ [])
      (Perm.swap three_paths (b'd' ∷ []) [])
