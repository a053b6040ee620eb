-- ===== src/IoContextAdapter/Adding.antt =====
-- `add` of src/adapter/IOContextAdapter.cpp.
use plugins_engine.Prelude.{
  ℕ, ◌≡◌, refl, ◌∙◌, Bool, true, false, ◌<◌, Option, none, some, [], ◌∷◌, ◌++◌, ◌==◌, ℕ_discrete,
  arith, ==_refl,
}
use plugins_engine.Prelude.Bits.{masked}
use plugins_engine.Prelude.Assoc.{lookup, lookup-insert}
use plugins_engine.IoContextAdapter.{
  StreamDesc, Adapter, Result, ok, thrown, set_desc, make_desc, event_in, event_out, error_event,
  wait_flag, wait_async, wait_async_id, close_desc, add_found, add,
}

module _ {H : Type 0} where
  -- What an `add` of `fd` leaves that is not in the map, and of one that is, for which the map has the
  -- object `old`.
  pub record Unwatched (s : Adapter H) (fd : ℕ) (t : Adapter H) : Type 0 where
    pub present : lookup ℕ_discrete fd t.map ≡ some s.next_desc
    pub waits_for_nothing : (t.store s.next_desc).waits ≡ []

  pub record Unchanged (s : Adapter H) (fd old : ℕ) (t : Adapter H) : Type 0 where
    pub same_map : t.map ≡ s.map
    pub same_handler : (t.store old).event_handler ≡ (s.store old).event_handler
    pub same_events : (t.store old).events ≡ (s.store old).events
    pub is_closed : t.closed ≡ s.closed ++ (fd ∷ [])

  -- By whether asio takes the descriptor, and by the object that the map held for it.
  abbrev pub AddsNothing : Adapter H → ℕ → Bool → Option ℕ → Result H → Type 0
  AddsNothing s fd false o r = r ≡ thrown s
  AddsNothing s fd true none r = (t : Adapter H) × (r ≡ thrown t) × Unwatched s fd t
  AddsNothing s fd true (some old) r = (t : Adapter H) × (r ≡ ok t) × Unchanged s fd old t

  wait_flag_fields :
      (asked : Bool) (flag : ℕ) (d : StreamDesc H)
      → ((wait_flag asked flag d).event_handler ≡ d.event_handler)
        × ((wait_flag asked flag d).events ≡ d.events)
  unfolding wait_flag
  wait_flag_fields asked flag d = (ground arith, ground arith)

  wait_async_fields :
      (d : StreamDesc H)
      → ((wait_async d).event_handler ≡ d.event_handler) × ((wait_async d).events ≡ d.events)
  unfolding wait_async
  wait_async_fields d =
      let reading : StreamDesc H = wait_flag (masked d.events event_in) event_in d in
      let writing : StreamDesc H = wait_flag (masked reading.events event_out) event_out reading in
      let first = wait_flag_fields (masked d.events event_in) event_in d in
      let second = wait_flag_fields (masked reading.events event_out) event_out reading in
      let third = wait_flag_fields true error_event writing in
      (third.0 ∙ second.0 ∙ first.0, third.1 ∙ second.1 ∙ first.1)

  -- The descriptors of the map have been made.
  abbrev pub IsMade : Adapter H → Option ℕ → Type 0
  IsMade s none = Unit {0}
  IsMade s (some old) = old < s.next_desc

  by_found :
      (in_memory : Bool) (fd events : ℕ) (handler : H) (s : Adapter H) (o : Option ℕ)
      → lookup ℕ_discrete fd s.map ≡ o
      → IsMade s o
      → AddsNothing s fd true o (
          add_found o fd s.next_desc
            (set_desc s.next_desc (make_desc in_memory fd events handler) s))
  unfolding add_found close_desc set_desc wait_async_id make_desc
  by_found in_memory fd events handler s none e made = (
    _,
    refl,
    record {
      present = lookup-insert ℕ_discrete fd fd s.next_desc s.map ∙ rw e (ground arith);
      waits_for_nothing = rw (==_refl s.next_desc) refl;
    },
  )
  by_found in_memory fd events handler s (some old) e made =
      let other : (old == s.next_desc) ≡ false = ground arith in
      let fields = wait_async_fields (s.store old) in
      (
        _,
        refl,
        record {
          same_map = refl;
          same_handler = rw (==_refl old, other) fields.0;
          same_events = rw (==_refl old, other) fields.1;
          is_closed = refl;
        },
      )

  -- `add` never has a new descriptor waited for. Where asio does not take the number, as when it has
  -- it already, `add` throws and changes nothing. Where asio takes it and the map does not have it,
  -- `add` throws too, and leaves it in the map without waiting for any of its events. Where asio takes
  -- a number that the map has, with an object that has been made before, `add` does not throw: it
  -- closes the number and keeps the old handler and the old events in place of the new ones.
  pub add-AddsNothing :
      (taken in_memory : Bool) (fd events : ℕ) (handler : H) (s : Adapter H)
      → IsMade s (lookup ℕ_discrete fd s.map)
      → AddsNothing s fd taken
          (lookup ℕ_discrete fd s.map)
          (add taken in_memory fd events handler s)
  unfolding add
  add-AddsNothing false in_memory fd events handler s made = refl
  add-AddsNothing true in_memory fd events handler s made =
      by_found in_memory fd events handler s (lookup ℕ_discrete fd s.map) refl made
