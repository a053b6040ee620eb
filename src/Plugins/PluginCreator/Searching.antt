-- ===== src/Plugins/PluginCreator/Searching.antt =====
-- The search for a plugin along paths in src/plugin/pluginCreator.cpp.
use plugins_engine.Prelude.{
  ℕ, ◌≡◌, false, Option, none, some, List, [], ◌∷◌, ◌++◌, Bool-cases, inl, inr,
}
use plugins_engine.Engine.DataStorage.{get_or_default}
use plugins_engine.Prelude.Texts.{Text, Text-discrete}
use plugins_engine.Plugins.PluginCreator.{
  contains, valid, SharedLibrary, Engine, Linker, open_unless_found, get_shared_library,
  add_to_engine, call_creator, create_from_shared_library, create_from_file, create_from_files,
}

-- A property of the engine that opening files which are not on the blacklist, keeping libraries and
-- calling creators preserve.
pub record IsKept (linker : Linker) (blacklist : List Text) (P : Engine → Type 0) : Type 0 where
  pub opens :
      (path : Text) (engine : Engine)
      → contains path blacklist ≡ false
      → P engine
      → P (record engine { opened = engine.opened ++ (path ∷ []) })
  pub adds :
      (path : Text) (engine : Engine) (library : SharedLibrary)
      → P engine
      → P (add_to_engine linker path engine library)
  pub calls : (creator : ℕ) (engine : Engine) → P engine → P (linker.call creator engine).1

module _ (linker : Linker) (blacklist : List Text) (function_name : Text) where
  open_keeps :
      (P : Engine → Type 0)
      → IsKept linker blacklist P
      → (path : Text) (found : Option SharedLibrary) (engine : Engine)
      → contains path blacklist ≡ false
      → P engine
      → P (open_unless_found linker path found engine).1
  unfolding open_unless_found
  open_keeps P k path none engine allowed h = k.opens path engine allowed h
  open_keeps P k path (some library) engine allowed h = h

  call_keeps :
      (P : Engine → Type 0)
      → IsKept linker blacklist P
      → (creator : Option ℕ) (engine : Engine) → P engine
      → P (call_creator linker creator engine).1
  unfolding call_creator
  call_keeps P k none engine h = h
  call_keeps P k (some creator) engine h = k.calls creator engine h

  pub create_from_file_keeps :
      (P : Engine → Type 0)
      → IsKept linker blacklist P
      → (path : Text) (engine : Engine) → P engine
      → P (create_from_file linker blacklist path function_name engine).1
  unfolding create_from_file get_shared_library create_from_shared_library
  create_from_file_keeps P k path engine h =
      let found : Option SharedLibrary = get_or_default Text-discrete none path engine.libraries in
      let opened : SharedLibrary × Engine = open_unless_found linker path found engine in
      elim (Bool-cases (contains path blacklist)) [
        | inl p ↦ rw p h
        | inr p ↦
            let kept : P opened.1 = open_keeps P k path found engine p h in
            elim (Bool-cases (valid opened.0)) [
              | inl q ↦ rw (p, q) (call_keeps P k _ _ (k.adds path opened.1 opened.0 kept))
              | inr q ↦ rw (p, q) kept
            ]
      ]

  by_first_keeps :
      (P : Engine → Type 0) (first : Option ℕ × Engine) (rest : Engine → Option ℕ × Engine)
      → P first.1
      → P (rest first.1).1
      → P
          (elim first.0 as (λ _. Option ℕ × Engine) [
            | none ↦ rest first.1
            | some p ↦ (some p, first.1)
          ]).1
  by_first_keeps P (none, e) rest h k = k
  by_first_keeps P (some p, e) rest h k = h

  pub create_from_files_keeps :
      (P : Engine → Type 0)
      → IsKept linker blacklist P
      → (paths : List Text) (engine : Engine) → P engine
      → P (create_from_files linker blacklist paths function_name engine).1
  unfolding create_from_files
  create_from_files_keeps P k [] engine h = h
  create_from_files_keeps P k (path ∷ paths) engine h =
      let first : Option ℕ × Engine = create_from_file linker blacklist path function_name engine in
      let kept : P first.1 = create_from_file_keeps P k path engine h in
      by_first_keeps P first (create_from_files linker blacklist paths function_name) kept
        (create_from_files_keeps P k paths first.1 kept)
