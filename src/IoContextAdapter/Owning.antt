-- ===== src/IoContextAdapter/Owning.antt =====
-- The constructor of src/adapter/IOContextAdapter.cpp, the callbacks that it hands to
-- `ComAPIEventLoop::create`, and what they do behind the destructor.
use plugins_engine.Prelude.{
  ℕ, Bool, true, false, ◌≡◌, refl, some, List, [], ◌∷◌, ℕ_discrete, if◌then◌else◌,
}
use plugins_engine.Prelude.Assoc.{lookup, erase}
use plugins_engine.IoContextAdapter.{
  Adapter, Result, ok, StreamDesc, set_desc, add, modify, del, del_found, release_all, destroy,
}

-- `alive` is what `isAlive` points to, as long as it does.
pub record Owner (H : Type 0) : Type 0 where
  pub adapter : Adapter H
  pub alive : Bool

module _ {H : Type 0} where
  -- The constructor; `memory` is what stands where no descriptor is made.
  pub construct_owner : (ℕ → StreamDesc H) → Owner H
  construct_owner memory = record {
    adapter = record { map = []; store = memory; next_desc = 0; posts = []; closed = [] };
    alive = true;
  }

  -- The first two callbacks, which ask whether the adapter is there, and the third, which does not.
  pub on_add : Bool → Bool → ℕ → ℕ → H → Owner H → Result H
  on_add taken in_memory fd events handler o =
      if o.alive then add taken in_memory fd events handler o.adapter else ok (o.adapter)

  pub on_modify : ℕ → ℕ → Owner H → Result H
  on_modify fd events o = if o.alive then modify fd events o.adapter else ok (o.adapter)

  pub on_del : ℕ → Owner H → Result H
  on_del fd o = del fd o.adapter

  -- The destructor, with that of `isAlive`.
  pub destruct_owner : Owner H → Owner H
  destruct_owner o = record { adapter = destroy o.adapter; alive = false }

  map-release_all : (map : List (ℕ × ℕ)) (s : Adapter H) → (release_all map s).map ≡ s.map
  unfolding release_all set_desc
  map-release_all [] s = refl
  map-release_all ((fd, id) ∷ map) s = map-release_all map _

  -- Behind the destructor a callback that adds or modifies does nothing, but one that deletes a
  -- descriptor that was in the map still changes the adapter that is destroyed.
  pub on_del-destruct_owner :
      (o : Owner H) (fd id : ℕ)
      → lookup ℕ_discrete fd o.adapter.map ≡ some id
      → ((taken in_memory : Bool) (other events : ℕ) (handler : H)
          → (on_add taken in_memory other events handler (destruct_owner o)
              ≡ ok (destroy o.adapter))
            × (on_modify other events (destruct_owner o) ≡ ok (destroy o.adapter)))
        × (on_del fd (destruct_owner o)
            ≡ ok
                (record (set_desc id
                  (record ((destroy o.adapter).store id) { is_open = false })
                  (destroy o.adapter)) { map = erase ℕ_discrete fd o.adapter.map }))
  unfolding on_add on_modify on_del destruct_owner destroy del del_found set_desc
  on_del-destruct_owner o fd id found = (
    λ taken in_memory other events handler. (refl, refl),
    rw (map-release_all o.adapter.map o.adapter, found, del_found) refl,
  )
