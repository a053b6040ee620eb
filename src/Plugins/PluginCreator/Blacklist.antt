-- ===== src/Plugins/PluginCreator/Blacklist.antt =====
-- The blacklist of src/plugin/pluginCreator.cpp, and what creators of plugins are taken to leave alone.
use plugins_engine.Prelude.{
  ℕ, ◌≡◌, sym, ◌∙◌, Bool, false, Option, none, some, List, [], ◌∷◌, ◌++◌, subst,
}
use plugins_engine.Engine.PluginMap.{PluginMap}
use plugins_engine.Prelude.Texts.{Text}
use plugins_engine.Plugins.PluginCreator.{
  contains, Engine, Linker, Surroundings, Outcome, returned, thrown, list_directory,
  create_from_files, throw_unless_created, create_from_listing, create_from_directory, register,
  variable_paths, unless_created, create, add_to_engine,
}
use plugins_engine.Plugins.PluginCreator.Searching.{IsKept, create_from_files_keeps}

-- No path of the list is on the blacklist.
abbrev pub Allowed : List Text → List Text → Type 0
Allowed blacklist [] = Unit {0}
Allowed blacklist (path ∷ paths) = (contains path blacklist ≡ false) × Allowed blacklist paths

Allowed-append :
    (blacklist paths : List Text) (path : Text)
    → Allowed blacklist paths
    → contains path blacklist ≡ false
    → Allowed blacklist (paths ++ (path ∷ []))
Allowed-append blacklist [] path h e = (e, tt)
Allowed-append blacklist (q ∷ paths) path h e = (h.0, Allowed-append blacklist paths path h.1 e)

-- The creators of plugins open no libraries by themselves, and do not change the map of plugins.
pub record IsModest (linker : Linker) : Type 0 where
  pub same_opened :
      (creator : ℕ) (engine : Engine) → (linker.call creator engine).1.opened ≡ engine.opened
  pub same_plugins :
      (creator : ℕ) (engine : Engine) → (linker.call creator engine).1.plugins ≡ engine.plugins

opened-IsKept :
    (linker : Linker) (blacklist : List Text)
    → IsModest linker
    → IsKept linker blacklist (λ e. Allowed blacklist e.opened)
unfolding add_to_engine
opened-IsKept linker blacklist modest = record {
  opens = λ path engine e h. Allowed-append blacklist engine.opened path h e;
  adds = λ path engine library h. h;
  calls = λ creator engine h. subst (Allowed blacklist) (sym (modest.same_opened creator engine)) h;
}

pub plugins-IsKept :
    (linker : Linker) (blacklist : List Text) (plugins : PluginMap)
    → IsModest linker
    → IsKept linker blacklist (λ e. e.plugins ≡ plugins)
unfolding add_to_engine
plugins-IsKept linker blacklist plugins modest = record {
  opens = λ path engine e h. h;
  adds = λ path engine library h. h;
  calls = λ creator engine h. modest.same_plugins creator engine ∙ h;
}

module _ (linker : Linker) (function_name : Text) where
  throw_keeps :
      (P : Engine → Type 0) (r : Option ℕ × Engine) → P r.1 → P (throw_unless_created linker r).1
  unfolding throw_unless_created
  throw_keeps P (none, e) h = h
  throw_keeps P (some p, e) h = h

  create_from_listing_keeps :
      (P : Engine → Type 0) (blacklist : List Text) (listing : Option (List Text)) (engine : Engine)
      → IsKept linker blacklist P
      → P engine
      → P (create_from_listing linker blacklist listing function_name engine).1
  unfolding create_from_listing
  create_from_listing_keeps P blacklist none engine k h = h
  create_from_listing_keeps P blacklist (some paths) engine k h =
      throw_keeps P (create_from_files linker blacklist paths function_name engine)
        (create_from_files_keeps linker blacklist function_name P k paths engine h)

  opened-register :
      (blacklist : List Text) (alive : ℕ → Bool) (key : ℕ) (r : Outcome × Engine)
      → Allowed blacklist r.1.opened
      → Allowed blacklist (register linker alive key r).1.opened
  unfolding register
  opened-register blacklist alive key (thrown, e) h = h
  opened-register blacklist alive key (returned none, e) h = h
  opened-register blacklist alive key (returned (some p), e) h = h

  unless_keeps :
      (P : Engine → Type 0) (r : Option ℕ × Engine) (otherwise : Engine → Outcome × Engine)
      → P r.1
      → P (otherwise r.1).1
      → P (unless_created linker r otherwise).1
  unfolding unless_created
  unless_keeps P (none, e) otherwise h k = k
  unless_keeps P (some p, e) otherwise h k = h

-- `create` calls `dlopen` for no path of the blacklist, neither along the variable nor in the
-- directory, whatever opens and whatever the creators return, if these open nothing themselves.
pub create-Allowed :
    (linker : Linker) (around : Surroundings) (key : ℕ) (function_name : Text) (engine : Engine)
    → IsModest linker
    → Allowed (variable_paths linker around.blacklist_variable) engine.opened
    → Allowed
        (variable_paths linker around.blacklist_variable)
        (create linker around key function_name engine).1.opened
unfolding create create_from_directory
create-Allowed linker around key function_name engine modest h =
    let blacklist : List Text = variable_paths linker around.blacklist_variable in
    let k = opened-IsKept linker blacklist modest in
    let first : Option ℕ × Engine =
      create_from_files linker blacklist (variable_paths linker around.path_variable) function_name
        engine in
    let kept : Allowed blacklist first.1.opened =
      create_from_files_keeps linker blacklist function_name (λ e. Allowed blacklist e.opened) k
        (variable_paths linker around.path_variable) engine h in
    unless_keeps linker function_name (λ e. Allowed blacklist e.opened) first _ kept
      (opened-register linker function_name blacklist around.alive key _ (
        create_from_listing_keeps linker function_name (λ e. Allowed blacklist e.opened) blacklist
          (list_directory around.directory) first.1 k kept))
