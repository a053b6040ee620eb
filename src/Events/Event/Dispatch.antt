-- ===== src/Events/Event/Dispatch.antt =====
-- Which callbacks `Event::handle` of src/event/event.cpp calls, and in what order.
use plugins_engine.Prelude.{
  ℕ, ◌%◌, ◌/◌, ◌≡◌, refl, sym, ap, ◌∙◌, Bool, true, false, not, ◌&&◌, ◌||◌, Option, some, none,
  List, [], ◌∷◌, ◌++◌, if◌then◌else◌, ◌==◌, arith, append_assoc, append-nil, Bool-cases, inl, inr,
}
use Prim.Native.Nat.{bit_or}
use plugins_engine.Prelude.Bits.{masked, masked_step, masked-pow, test_bit}
use plugins_engine.Events.Event.{
  Event, handle, call, when_masked, epoll_in, epoll_pri, epoll_out, epoll_err, epoll_hup,
  epoll_rdhup,
}

abbrev wait_flags : ℕ
wait_flags = bit_or (bit_or epoll_in epoll_pri) epoll_rdhup

or_shift : (a b c : Bool) → (a && true || (b && true || c)) ≡ (a || b || c)
or_shift true b c = ground arith
or_shift false b c = ground arith

masked-wait : (x : ℕ) → masked x wait_flags ≡ (test_bit x 0 || test_bit x 1 || test_bit x 13)
unfolding test_bit
masked-wait x =
    masked_step x 8195
    ∙ ap (◌||◌ (x % 2 == 1 && true))
        (masked_step (x / 2) 4097 ∙ ap (◌||◌ (x / 2 % 2 == 1 && true)) (masked-pow 11 (x / 2 / 2)))
    ∙ or_shift (x % 2 == 1) (x / 2 % 2 == 1) (test_bit (x / 2 / 2) 11)

module _ {C : Type 0} where
  abbrev pub listed : Option C → List C
  listed none = []
  listed (some cb) = cb ∷ []

  -- The calls that the bits of `events` ask for: IN is bit 0, PRI 1, OUT 2, ERR 3, HUP 4, RDHUP 13.
  abbrev pub expected_calls : Event C → ℕ → List C
  expected_calls e events =
      if test_bit events 3
      then listed e.error_callback
      else (if test_bit events 4 && not (test_bit events 0) then listed e.read_callback else [])
        ++ ((if test_bit events 0 || test_bit events 1 || test_bit events 13
              then listed e.read_callback
              else [])
            ++ (if test_bit events 2 then listed e.write_callback else []))

  -- The callbacks called, in order, where none of them changes the event.
  abbrev pub calls : Event C → ℕ → List C → List C
  calls e = handle (λ trace. e) (λ cb trace. trace ++ (cb ∷ []))

  call-listed :
      (e : Event C) (o : Option C) (trace : List C)
      → call (λ t. e) (λ cb t. t ++ (cb ∷ [])) o trace ≡ trace ++ listed o
  unfolding call
  call-listed e none trace = sym (append-nil trace)
  call-listed e (some cb) trace = refl

  when_masked-listed :
      (e : Event C) (b : Bool) (o : Event C → Option C) (trace : List C)
      → when_masked (λ t. e) (λ cb t. t ++ (cb ∷ [])) b o trace
        ≡ trace ++ (if b then listed (o e) else [])
  unfolding when_masked
  when_masked-listed e true o trace = call-listed e (o e) trace
  when_masked-listed e false o trace = sym (append-nil trace)

  -- An error event calls the error callback alone. Otherwise a hang-up without input calls the read
  -- callback, then input, priority input or the peer's closing call it (again), and then writability
  -- calls the write callback; nothing else is called.
  pub calls-eq-expected_calls :
      (e : Event C) (events : ℕ) (trace : List C)
      → calls e events trace ≡ trace ++ expected_calls e events
  unfolding handle
  calls-eq-expected_calls e events trace =
      rw
        (
          masked-pow 3 events,
          masked-wait events,
          masked-pow 4 events,
          masked-pow 0 events,
          masked-pow 2 events,
        )
        (elim (Bool-cases (test_bit events 3)) [
          | inl error ↦ rw error (call-listed e e.error_callback trace)
          | inr fine ↦ rw fine (simp (when_masked-listed e, append_assoc))
        ])

-- What the callbacks keep, `handle` keeps.
module _ {ℓ} {C W : Type 0} (P : W → Type ℓ) (event_of : W → Event C) (run : C → W → W)
    (keeps : (cb : C) (w : W) → P w → P (run cb w)) where
  call_keeps : (o : Option C) (w : W) → P w → P (call event_of run o w)
  unfolding call
  call_keeps none w h = h
  call_keeps (some cb) w h = keeps cb w h

  when_masked_keeps :
      (b : Bool) (o : Event C → Option C) (w : W) → P w → P (when_masked event_of run b o w)
  unfolding when_masked
  when_masked_keeps true o w h = call_keeps (o (event_of w)) w h
  when_masked_keeps false o w h = h

  pub handle_keeps : (events : ℕ) (w : W) → P w → P (handle event_of run events w)
  unfolding handle
  handle_keeps events w h = elim (Bool-cases (masked events epoll_err)) [
    | inl e ↦ rw e (call_keeps (event_of w).error_callback w h)
    | inr e ↦ rw e (
        when_masked_keeps (masked events epoll_out) (λ e. e.write_callback) _
          (when_masked_keeps (masked events 0x2003) (λ e. e.read_callback) _
            (when_masked_keeps (masked events epoll_hup && not (masked events epoll_in))
              (λ e. e.read_callback) w h)))
  ]
