-- ===== src/IoContextAdapter/Releasing.antt =====
-- The destructor of src/adapter/IOContextAdapter.cpp.
use plugins_engine.Prelude.{ℕ, ◌≡◌, false, some, List, [], ◌∷◌, ℕ_discrete, arith}
use plugins_engine.Prelude.Assoc.{lookup}
use plugins_engine.IoContextAdapter.{Adapter, set_desc, release_all, destroy}

module _ {H : Type 0} where
  stays_released :
      (map : List (ℕ × ℕ)) (s : Adapter H) (id : ℕ)
      → (s.store id).is_open ≡ false
      → ((release_all map s).store id).is_open ≡ false
  unfolding release_all set_desc
  stays_released [] s id h = h
  stays_released ((fd, j) ∷ map) s id h =
      stays_released map (set_desc j (record (s.store j) { is_open = false }) s) id
        (ground (arith, h))

  released_by :
      (map : List (ℕ × ℕ)) (s : Adapter H) (fd id : ℕ)
      → lookup ℕ_discrete fd map ≡ some id
      → ((release_all map s).store id).is_open ≡ false
  unfolding release_all set_desc lookup
  released_by [] s fd id found = absurd (ground (arith, found))
  released_by ((at, j) ∷ map) s fd id found = elim (ℕ_discrete at fd) [
    | yes p ↦
        stays_released map (set_desc j (record (s.store j) { is_open = false }) s) id
          (ground (arith, found, p))
    | no p ↦
        released_by map (set_desc j (record (s.store j) { is_open = false }) s) fd id
          (ground (arith, found, p))
  ]

  -- Behind the destructor, no descriptor of the map is open: all are left to their owners.
  pub is_open-destroy :
      (s : Adapter H) (fd id : ℕ)
      → lookup ℕ_discrete fd s.map ≡ some id
      → ((destroy s).store id).is_open ≡ false
  unfolding destroy
  is_open-destroy s fd id found = released_by s.map s fd id found
