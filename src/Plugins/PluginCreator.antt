-- ===== src/Plugins/PluginCreator.antt =====
-- src/plugin/pluginCreator.cpp with src/plugin/sharedLibrary.cpp: how a plugin is found, among the
-- paths of an environment variable and then in a directory, and created. Paths and names are lists
-- of bytes. `dlopen`, `dlsym`, the directory iterator and the functions that create plugins are
-- parameters.
pub mod Paths
pub mod Searching
pub mod Blacklist
pub mod Creation
pub mod Sorting
pub mod Tests
use plugins_engine.Prelude.{
  ℕ, ◌≡◌, Bool, true, false, Option, none, some, List, [], ◌∷◌, ◌++◌, ite, ltb, ◌==◌, if◌then◌else◌,
}
use plugins_engine.Prelude.Texts.{Text, Text-discrete}
use plugins_engine.Engine.DataStorage.{add, get_or_default}
use plugins_engine.Engine.PluginMap.{PluginMap, update_plugin}

-- `ret.push_back(candidate)` unless the candidate is empty.
pub push_candidate : List Text → Text → List Text
push_candidate ret [] = ret
push_candidate ret (c ∷ candidate) = ret ++ ((c ∷ candidate) ∷ [])

-- The loop of `colonSeparatedStringToPaths` and the test behind it; `candidate` is what stands
-- between `previous` and the iterator.
pub paths_from : List Text → Text → Text → List Text
paths_from ret candidate [] = push_candidate ret candidate
paths_from ret candidate (c ∷ str) =
    let at_colon = paths_from (push_candidate ret candidate) [] str in
    let further = paths_from ret (candidate ++ (c ∷ [])) str in
    if c == b':' then at_colon else further

-- `colonSeparatedStringToPaths`.
pub colon_separated_string_to_paths : Text → List Text
colon_separated_string_to_paths str = paths_from [] [] str

pub contains : Text → List Text → Bool
contains s [] = false
contains s (i ∷ v) = ite (Text-discrete i s) true (contains s v)

-- `operator<` of `std::string`.
pub text_lt : Text → Text → Bool
text_lt s [] = false
text_lt [] (d ∷ t) = true
text_lt (c ∷ s) (d ∷ t) = if ltb c d then true else if ltb d c then false else text_lt s t

-- `std::sort`.
pub insert_sorted : Text → List Text → List Text
insert_sorted s [] = s ∷ []
insert_sorted s (t ∷ paths) = if text_lt t s then t ∷ insert_sorted s paths else s ∷ t ∷ paths

pub sort : List Text → List Text
sort [] = []
sort (s ∷ paths) = insert_sorted s (sort paths)

-- What the directory iterator finds, or the error that it throws.
pub data Directory : Type 0 where
  entries : List Text → Directory
  no_such_file failure : Directory

-- `listDirectory`; `none` where it throws.
pub list_directory : Directory → Option (List Text)
list_directory (entries paths) = some (sort paths)
list_directory no_such_file = some []
list_directory failure = none

-- `SharedLibrary`, with the handle of `dlopen`, and a pointer to one.
pub record SharedLibrary : Type 0 where
  pub handle : Option ℕ

pub valid : SharedLibrary → Bool
valid library = elim library.handle [ none ↦ false | some _ ↦ true ]

abbrev pub LibraryMap : Type 0
LibraryMap = List (Text × Option SharedLibrary)

-- What the creation of plugins reads and writes of the engine; `opened` are the files that `dlopen`
-- was called for.
pub record Engine : Type 0 where
  pub libraries : LibraryMap
  pub plugins : PluginMap
  pub opened : List Text

-- A plugin, or nullptr; or an exception.
pub data Outcome : Type 0 where
  returned : Option ℕ → Outcome
  thrown : Outcome

-- The dynamic linker and the functions that libraries export, by handle and name.
pub record Linker : Type 0 where
  pub dlopen : Text → Option ℕ
  pub dlsym : ℕ → Text → Option ℕ
  pub call : ℕ → Engine → Option ℕ × Engine

-- What `create` reads from outside the program.
pub record Surroundings : Type 0 where
  pub blacklist_variable : Option Text
  pub path_variable : Option Text
  pub directory : Directory
  pub alive : ℕ → Bool

module _ (linker : Linker) where
  -- `SharedLibrary::dlsym`.
  pub resolve_function : SharedLibrary → Text → Option ℕ
  resolve_function library function_name = elim library.handle [
    | none ↦ none
    | some handle ↦ linker.dlsym handle function_name
  ]

  pub open_unless_found : Text → Option SharedLibrary → Engine → SharedLibrary × Engine
  open_unless_found path none engine = (
    record { handle = linker.dlopen path },
    record engine { opened = engine.opened ++ (path ∷ []) },
  )
  open_unless_found path (some library) engine = (library, engine)

  pub get_shared_library : Text → Engine → SharedLibrary × Engine
  get_shared_library path engine =
      open_unless_found path (get_or_default Text-discrete none path engine.libraries) engine

  pub add_to_engine : Text → Engine → SharedLibrary → Engine
  add_to_engine path engine library = record engine {
    libraries = add Text-discrete path (some library) engine.libraries;
  }

  pub call_creator : Option ℕ → Engine → Option ℕ × Engine
  call_creator none engine = (none, engine)
  call_creator (some creator) engine = linker.call creator engine

  pub create_from_shared_library : SharedLibrary → Text → Engine → Option ℕ × Engine
  create_from_shared_library library function_name engine =
      call_creator (resolve_function library function_name) engine

  pub create_from_file : List Text → Text → Text → Engine → Option ℕ × Engine
  create_from_file blacklist path function_name engine =
      let (library, opened) = get_shared_library path engine in
      if contains path blacklist
      then (none, engine)
      else if valid library
      then create_from_shared_library library function_name (add_to_engine path opened library)
      else (none, opened)

  -- The loops of `create` and `createFromDirectory`: the first plugin that a path gives.
  pub create_from_files : List Text → List Text → Text → Engine → Option ℕ × Engine
  create_from_files blacklist [] function_name engine = (none, engine)
  create_from_files blacklist (path ∷ paths) function_name engine =
      let (plugin, after) = create_from_file blacklist path function_name engine in
      elim plugin [
        | none ↦ create_from_files blacklist paths function_name after
        | some p ↦ (some p, after)
      ]

  throw_unless_created : Option ℕ × Engine → Outcome × Engine
  throw_unless_created (none, engine) = (thrown, engine)
  throw_unless_created (some plugin, engine) = (returned (some plugin), engine)

  create_from_listing : List Text → Option (List Text) → Text → Engine → Outcome × Engine
  create_from_listing blacklist none function_name engine = (thrown, engine)
  create_from_listing blacklist (some paths) function_name engine =
      throw_unless_created (create_from_files blacklist paths function_name engine)

  pub create_from_directory : List Text → Directory → Text → Engine → Outcome × Engine
  create_from_directory blacklist directory function_name engine =
      create_from_listing blacklist (list_directory directory) function_name engine

  -- The end of `create`, behind `createFromDirectory`.
  register : (ℕ → Bool) → ℕ → Outcome × Engine → Outcome × Engine
  register alive key (thrown, engine) = (thrown, engine)
  register alive key (returned none, engine) = (returned none, engine)
  register alive key (returned (some plugin), engine) = (
    returned (some plugin),
    record engine { plugins = update_plugin alive key plugin engine.plugins },
  )

  -- `colonSeparatedStringToPaths` of a variable, if it is set.
  pub variable_paths : Option Text → List Text
  variable_paths none = []
  variable_paths (some str) = colon_separated_string_to_paths str

  unless_created : Option ℕ × Engine → (Engine → Outcome × Engine) → Outcome × Engine
  unless_created (none, engine) otherwise = otherwise engine
  unless_created (some plugin, engine) otherwise = (returned (some plugin), engine)

  -- `create`.
  pub create : Surroundings → ℕ → Text → Engine → Outcome × Engine
  create around key function_name engine =
      let blacklist = variable_paths around.blacklist_variable in
      unless_created
        (create_from_files blacklist (variable_paths around.path_variable) function_name engine)
        (λ after.
          register around.alive key
            (create_from_directory blacklist around.directory function_name after))
