-- ===== src/IoContextAdapter/Waiting.antt =====
-- How often src/adapter/IOContextAdapter.cpp waits for the events of a descriptor.
use plugins_engine.Prelude.{
  ℕ, ◌+◌, ◌^◌, ◌≡◌, refl, sym, ap₂, ◌∙◌, Bool, true, false, not, ◌||◌, Option, none, some, List, [],
  ◌∷◌, ◌++◌, ◌==◌, if◌then◌else◌, ℕ_discrete, Bool-cases, inl, inr, arith, ==_iff,
}
use Prim.Native.Nat.{bit_or}
use plugins_engine.Prelude.Bits.{masked, masked-pow, test_bit-bit_or}
use plugins_engine.Prelude.Assoc.{lookup}
use plugins_engine.IoContextAdapter.{
  event_in, event_out, error_event, StreamDesc, Adapter, Result, ok, thrown, set_desc, make_desc,
  wait_flag, wait_async, wait_async_id, close_desc, add_found, add, modify_found, modify, del_found,
  del, is_alive, collect, handle_and_wait, wait_if_open, handle_collect_events,
}

abbrev pub count : ℕ → List ℕ → ℕ
count flag [] = 0
count flag (g ∷ flags) = if g == flag then count flag flags + 1 else count flag flags

count-append :
    (flag g : ℕ) (l : List ℕ)
    → count flag (l ++ (g ∷ [])) ≡ (if g == flag then count flag l + 1 else count flag l)
count-append flag g [] = ground arith
count-append flag g (h ∷ l) = ground (arith, count-append flag g l)

masked-bit_or : (k x y : ℕ) → masked (bit_or x y) (2 ^ k) ≡ (masked x (2 ^ k) || masked y (2 ^ k))
masked-bit_or k x y =
    masked-pow k (bit_or x y)
    ∙ test_bit-bit_or k x y
    ∙ ap₂ ◌||◌ (sym (masked-pow k x)) (sym (masked-pow k y))

-- The flag has been waited for once if it is among `waitedEvents`, and otherwise never.
abbrev pub Once : {H : Type 0} → ℕ → StreamDesc H → Type 0
Once flag d = count flag d.waits ≡ (if masked d.waited_events flag then 1 else 0)

abbrev pub WaitsOnce : {H : Type 0} → StreamDesc H → Type 0
WaitsOnce d = Once event_in d × Once event_out d × Once error_event d

module _ {H : Type 0} where
  wait_flag-Once :
      (k g : ℕ) (asked : Bool) (d : StreamDesc H)
      → masked g (2 ^ k) ≡ (g == 2 ^ k)
      → Once (2 ^ k) d
      → Once (2 ^ k) (wait_flag asked g d)
  unfolding wait_flag
  wait_flag-Once k g asked d bits h =
      ground
        (arith, count-append (2 ^ k) g d.waits, masked-bit_or k d.waited_events g, ==_iff g (2 ^ k))

  flag-WaitsOnce :
      (g : ℕ) (asked : Bool) (d : StreamDesc H)
      → masked g 1 ≡ (g == 1)
      → masked g 4 ≡ (g == 4)
      → masked g 16777216 ≡ (g == 16777216)
      → WaitsOnce d
      → WaitsOnce (wait_flag asked g d)
  flag-WaitsOnce g asked d b0 b2 b24 (reads, writes, errs) = (
    wait_flag-Once 0 g asked d b0 reads,
    wait_flag-Once 2 g asked d b2 writes,
    wait_flag-Once 24 g asked d b24 errs,
  )

  wait_async-WaitsOnce : (d : StreamDesc H) → WaitsOnce d → WaitsOnce (wait_async d)
  unfolding wait_async masked
  wait_async-WaitsOnce d h =
      let reading : StreamDesc H = wait_flag (masked d.events event_in) event_in d in
      let writing : StreamDesc H = wait_flag (masked reading.events event_out) event_out reading in
      flag-WaitsOnce error_event true writing refl refl refl (
        flag-WaitsOnce event_out (masked reading.events event_out) reading refl refl refl
          (flag-WaitsOnce event_in (masked d.events event_in) d refl refl refl h))

  -- Every descriptor, whether it is in the map or not.
  abbrev pub AllWaitOnce : Adapter H → Type 0
  AllWaitOnce s = (id : ℕ) → WaitsOnce (s.store id)

  set_desc-AllWaitOnce :
      (id : ℕ) (d : StreamDesc H) (s : Adapter H)
      → WaitsOnce d
      → AllWaitOnce s
      → AllWaitOnce (set_desc id d s)
  unfolding set_desc
  set_desc-AllWaitOnce id d s one h other = elim (Bool-cases (other == id)) [
    | inl p ↦ rw p one
    | inr p ↦ rw p (h other)
  ]

  wait_async_id-AllWaitOnce :
      (id : ℕ) (s : Adapter H) → AllWaitOnce s → AllWaitOnce (wait_async_id id s)
  unfolding wait_async_id
  wait_async_id-AllWaitOnce id s h =
      set_desc-AllWaitOnce id (wait_async (s.store id)) s (wait_async-WaitsOnce (s.store id) (h id))
        h

  -- The state behind a call, which a caller that catches the exception goes on with.
  abbrev pub after : Result H → Adapter H
  after (ok s) = s
  after (thrown s) = s

  add_found-AllWaitOnce :
      (o : Option ℕ) (fd id : ℕ) (s : Adapter H)
      → AllWaitOnce s
      → AllWaitOnce (after (add_found o fd id s))
  unfolding add_found close_desc
  add_found-AllWaitOnce none fd id s h = h
  add_found-AllWaitOnce (some old) fd id s h =
      wait_async_id-AllWaitOnce old (close_desc fd id s)
        (set_desc-AllWaitOnce id (record (s.store id) { is_open = false }) s (h id) h)

  modify_found-AllWaitOnce :
      (o : Option ℕ) (events : ℕ) (s : Adapter H)
      → AllWaitOnce s
      → AllWaitOnce (after (modify_found o events s))
  unfolding modify_found
  modify_found-AllWaitOnce none events s h = h
  modify_found-AllWaitOnce (some id) events s h =
      let changed : StreamDesc H = record (s.store id) { events = events } in
      wait_async_id-AllWaitOnce id (set_desc id changed s)
        (set_desc-AllWaitOnce id changed s (h id) h)

  del_found-AllWaitOnce :
      (o : Option ℕ) (fd : ℕ) (s : Adapter H)
      → AllWaitOnce s
      → AllWaitOnce (after (del_found o fd s))
  unfolding del_found
  del_found-AllWaitOnce none fd s h = h
  del_found-AllWaitOnce (some id) fd s h =
      set_desc-AllWaitOnce id (record (s.store id) { is_open = false }) s (h id) h

  handle_and_wait-AllWaitOnce :
      (err : Bool) (id events : ℕ) (s : Adapter H)
      → AllWaitOnce s
      → AllWaitOnce (handle_and_wait err id events s)
  unfolding handle_and_wait collect
  handle_and_wait-AllWaitOnce err id events s h =
      let kept : AllWaitOnce (set_desc id (collect events (s.store id)) s) =
        set_desc-AllWaitOnce id (collect events (s.store id)) s (h id) h in
      elim (Bool-cases (err || not (is_alive id s))) [
        | inl p ↦ rw p h
        | inr p ↦ elim (Bool-cases (s.store id).event_handler_posted) [
          | inl q ↦ rw (p, q) kept
          | inr q ↦ rw (p, q) kept
        ]
      ]

-- What asio and the event loop call.
pub data Call (H : Type 0) : Type 0 where
  adds : Bool → Bool → ℕ → ℕ → H → Call H
  modifies : ℕ → ℕ → Call H
  deletes : ℕ → Call H
  completes : Bool → ℕ → ℕ → Call H
  collects : Option ℕ → ℕ → Call H

module _ {H : Type 0} (run : H → ℕ → Adapter H → Adapter H) where
  wait_if_open-AllWaitOnce :
      (id : ℕ) (s : Adapter H) → AllWaitOnce s → AllWaitOnce (wait_if_open run id s)
  unfolding wait_if_open
  wait_if_open-AllWaitOnce id s h = elim (Bool-cases (s.store id).is_open) [
    | inl p ↦ rw p (wait_async_id-AllWaitOnce id s h)
    | inr p ↦ rw p h
  ]

  handle_collect_events-AllWaitOnce :
      (polled : Option ℕ) (id : ℕ) (s : Adapter H)
      → ((cb : H) (events : ℕ) (t : Adapter H) → AllWaitOnce t → AllWaitOnce (run cb events t))
      → AllWaitOnce s
      → AllWaitOnce (handle_collect_events run polled id s)
  unfolding handle_collect_events
  handle_collect_events-AllWaitOnce polled id s keeps h = elim (Bool-cases (is_alive id s)) [
    | inl p ↦ rw p (
        wait_if_open-AllWaitOnce id _ (
          keeps _ _ _ (
            set_desc-AllWaitOnce id
              (record (s.store id) { event_handler_posted = false; collected_events = 0 }) s (h id)
              h)))
    | inr p ↦ rw p h
  ]

  abbrev pub call : Call H → Adapter H → Adapter H
  call (adds taken in_memory fd events handler) s = after (add taken in_memory fd events handler s)
  call (modifies fd events) s = after (modify fd events s)
  call (deletes fd) s = after (del fd s)
  call (completes err id events) s = handle_and_wait err id events s
  call (collects polled id) s = handle_collect_events run polled id s

  abbrev pub run_calls : List (Call H) → Adapter H → Adapter H
  run_calls [] s = s
  run_calls (c ∷ calls) s = run_calls calls (call c s)

  call-AllWaitOnce :
      (c : Call H) (s : Adapter H)
      → ((cb : H) (events : ℕ) (t : Adapter H) → AllWaitOnce t → AllWaitOnce (run cb events t))
      → AllWaitOnce s
      → AllWaitOnce (call c s)
  unfolding add modify del make_desc masked
  call-AllWaitOnce (adds false in_memory fd events handler) s keeps h = h
  call-AllWaitOnce (adds true in_memory fd events handler) s keeps h =
      add_found-AllWaitOnce (lookup ℕ_discrete fd s.map) fd s.next_desc _ (
        set_desc-AllWaitOnce s.next_desc (make_desc in_memory fd events handler) s
          (refl, refl, refl) h)
  call-AllWaitOnce (modifies fd events) s keeps h =
      modify_found-AllWaitOnce (lookup ℕ_discrete fd s.map) events s h
  call-AllWaitOnce (deletes fd) s keeps h =
      del_found-AllWaitOnce (lookup ℕ_discrete fd s.map) fd s h
  call-AllWaitOnce (completes err id events) s keeps h =
      handle_and_wait-AllWaitOnce err id events s h
  call-AllWaitOnce (collects polled id) s keeps h =
      handle_collect_events-AllWaitOnce polled id s keeps h

  -- Whatever the event loop asks for, whatever asio completes and whatever the handlers do by these
  -- same calls: for each descriptor `async_wait` is called once at most for reading, for writing and
  -- for errors, namely where the flag is among `waitedEvents`.
  pub run_calls-AllWaitOnce :
      (calls : List (Call H)) (s : Adapter H)
      → ((cb : H) (events : ℕ) (t : Adapter H) → AllWaitOnce t → AllWaitOnce (run cb events t))
      → AllWaitOnce s
      → AllWaitOnce (run_calls calls s)
  run_calls-AllWaitOnce [] s keeps h = h
  run_calls-AllWaitOnce (c ∷ calls) s keeps h =
      run_calls-AllWaitOnce calls (call c s) keeps (call-AllWaitOnce c s keeps h)
