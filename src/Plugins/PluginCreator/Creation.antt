-- ===== src/Plugins/PluginCreator/Creation.antt =====
-- `create` of src/plugin/pluginCreator.cpp: what it returns and registers.
use plugins_engine.Prelude.{
  ℕ, ◌≡◌, refl, ap, ◌∙◌, Bool, true, Option, none, some, List, if◌then◌else◌, ◌==◌,
}
use plugins_engine.Engine.PluginMap.{PluginMap, update_plugin}
use plugins_engine.Engine.PluginMap.Updating.{
  plugins_of, updated, IsSorted, plugins_of-update_plugin,
}
use plugins_engine.Prelude.Texts.{Text}
use plugins_engine.Plugins.PluginCreator.{
  Engine, Linker, Surroundings, Outcome, returned, thrown, list_directory, create_from_files,
  throw_unless_created, create_from_listing, create_from_directory, register, variable_paths,
  unless_created, create,
}
use plugins_engine.Plugins.PluginCreator.Searching.{create_from_files_keeps}
use plugins_engine.Plugins.PluginCreator.Blacklist.{IsModest, plugins-IsKept}

-- What a search along the paths of a listing gives, if there is one.
abbrev pub search_listing : Linker → List Text → Option (List Text) → Text → Engine → Option ℕ
search_listing linker blacklist none function_name engine = none
search_listing linker blacklist (some paths) function_name engine =
    (create_from_files linker blacklist paths function_name engine).0

-- The outcome, and the plugins under a key afterwards, by what the two searches give.
abbrev pub outcome_of : Option ℕ → Option ℕ → Outcome
outcome_of (some p) _ = returned (some p)
outcome_of none (some p) = returned (some p)
outcome_of none none = thrown

abbrev pub plugins_after : (ℕ → Bool) → Bool → Option ℕ → Option ℕ → List ℕ → List ℕ
plugins_after alive here (some p) _ plugins = plugins
plugins_after alive here none (some p) plugins = if here then updated alive p plugins else plugins
plugins_after alive here none none plugins = plugins

record Creates (alive : ℕ → Bool) (key at : ℕ) (first second : Option ℕ) (plugins : PluginMap)
    (r : Outcome × Engine) : Type 0 where
  outcome : r.0 ≡ outcome_of first second
  map :
      plugins_of at r.1.plugins
      ≡ plugins_after alive (key == at) first second (plugins_of at plugins)

-- A `shared_ptr` to the plugin is held when it is registered.
abbrev pub Lives : (ℕ → Bool) → Option ℕ → Type 0
Lives alive none = Unit {0}
Lives alive (some p) = alive p ≡ true

register_thrown :
    (linker : Linker) (alive : ℕ → Bool) (key at : ℕ) (r : Option ℕ × Engine) (plugins : PluginMap)
    → Lives alive r.0
    → IsSorted 0 plugins
    → r.1.plugins ≡ plugins
    → Creates alive key at none r.0 plugins
        (register linker alive key (throw_unless_created linker r))
unfolding register throw_unless_created
register_thrown linker alive key at (none, e) plugins living s same = record {
  outcome = refl;
  map = ap (plugins_of at) same;
}
register_thrown linker alive key at (some p, e) plugins living s same = record {
  outcome = refl;
  map =
      ap (λ m. plugins_of at (update_plugin alive key p m)) same
      ∙ (plugins_of-update_plugin alive key p at plugins s living).1;
}

register_listing :
    (linker : Linker) (blacklist : List Text) (alive : ℕ → Bool) (key at : ℕ)
    (listing : Option (List Text)) (function_name : Text) (engine : Engine) (plugins : PluginMap)
    → IsModest linker
    → Lives alive (search_listing linker blacklist listing function_name engine)
    → IsSorted 0 plugins
    → engine.plugins ≡ plugins
    → Creates alive key at none
        (search_listing linker blacklist listing function_name engine)
        plugins
        (register linker alive key
          (create_from_listing linker blacklist listing function_name engine))
unfolding create_from_listing register
register_listing linker blacklist alive key at none function_name engine plugins modest living s
      same =
    record { outcome = refl; map = ap (plugins_of at) same }
register_listing linker blacklist alive key at (some paths) function_name engine plugins modest
      living s same =
    register_thrown linker alive key at
      (create_from_files linker blacklist paths function_name engine) plugins living s
      (create_from_files_keeps linker blacklist function_name (λ e. e.plugins ≡ plugins)
        (plugins-IsKept linker blacklist plugins modest) paths engine same)

by_first :
    (linker : Linker) (alive : ℕ → Bool) (key at : ℕ) (r : Option ℕ × Engine) (second : Option ℕ)
    (otherwise : Engine → Outcome × Engine) (plugins : PluginMap)
    → r.1.plugins ≡ plugins
    → Creates alive key at none second plugins (otherwise r.1)
    → Creates alive key at r.0 second plugins (unless_created linker r otherwise)
unfolding unless_created
by_first linker alive key at (none, e) second otherwise plugins same c = c
by_first linker alive key at (some p, e) second otherwise plugins same c = record {
  outcome = refl;
  map = ap (plugins_of at) same;
}

-- The search of `create` along the paths of its variable.
abbrev pub by_variable : Linker → Surroundings → Text → Engine → Option ℕ × Engine
by_variable linker around function_name engine =
    create_from_files linker (variable_paths linker around.blacklist_variable)
      (variable_paths linker around.path_variable) function_name engine

-- The search of `create` in the directory, if the first one gives nothing.
abbrev pub by_directory : Linker → Surroundings → Text → Engine → Option ℕ
by_directory linker around function_name engine =
    search_listing linker (variable_paths linker around.blacklist_variable)
      (list_directory around.directory) function_name
      (by_variable linker around function_name engine).1

-- `create` returns the plugin found along the variable, else the one found in the directory, and
-- throws if there is neither or the directory cannot be read: it never returns a null pointer. It
-- registers the plugin found in the directory under the key, and leaves the map of plugins as it was
-- where it returns one found along the variable. It holds for creators that neither open libraries nor
-- change the map, and where the new plugin is alive when it is registered.
pub create_outcome :
    (linker : Linker) (around : Surroundings) (key at : ℕ) (function_name : Text) (engine : Engine)
    → IsModest linker
    → IsSorted 0 engine.plugins
    → Lives around.alive (by_directory linker around function_name engine)
    → ((create linker around key function_name engine).0
        ≡ outcome_of
            (by_variable linker around function_name engine).0
            (by_directory linker around function_name engine))
      × (plugins_of at (create linker around key function_name engine).1.plugins
          ≡ plugins_after around.alive
              (key == at)
              (by_variable linker around function_name engine).0
              (by_directory linker around function_name engine)
              (plugins_of at engine.plugins))
unfolding create create_from_directory
create_outcome linker around key at function_name engine modest s living =
    (created.outcome, created.map)
  where
    blacklist : List Text
    blacklist = variable_paths linker around.blacklist_variable

    first : Option ℕ × Engine
    first = by_variable linker around function_name engine

    same : first.1.plugins ≡ engine.plugins
    same =
        create_from_files_keeps linker blacklist function_name (λ e. e.plugins ≡ engine.plugins)
          (plugins-IsKept linker blacklist engine.plugins modest)
          (variable_paths linker around.path_variable) engine refl

    created :
        Creates around.alive key at first.0
          (by_directory linker around function_name engine)
          engine.plugins
          (unless_created linker first (λ after. register linker around.alive key (
            create_from_listing linker blacklist
              (list_directory around.directory)
              function_name
              after)))
    created =
        by_first linker around.alive key at first (by_directory linker around function_name engine)
          _ engine.plugins same
          (register_listing linker blacklist around.alive key at (list_directory around.directory)
            function_name first.1 engine.plugins modest living s same)
