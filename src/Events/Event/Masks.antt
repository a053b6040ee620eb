-- ===== src/Events/Event/Masks.antt =====
-- The mask of an event, bit by bit: src/event/event.cpp, `enable…`, `isWriting`, `isReading`.
use plugins_engine.Prelude.{
  ℕ, ◌-◌, ◌^◌, ◌<◌, ◌≡◌, refl, sym, ap, ap₂, ◌∙◌, ◌%◌, ◌/◌, ◌==◌, Bool, true, false, ◌&&◌, ◌||◌,
  if◌then◌else◌, arith,
}
use plugins_engine.Prelude.Bits.{
  masked, masked_step, masked-pow, test_bit, test_bit-bit_or, test_bit-bit_and, test_bit-complement,
}
use plugins_engine.Events.Event.{
  Event, with_flag, enable_reading, enable_writing, enable_error_event, is_writing, is_reading,
  read_event_flag, write_event_flag,
}

-- Setting a flag or clearing it gives each bit of the flag the value asked for and leaves the other
-- bits of the 32-bit mask alone.
pub test_bit-with_flag :
    (flag events k : ℕ) (b : Bool)
    → flag < 2 ^ 32
    → k < 32
    → test_bit (with_flag flag b events) k ≡ (if test_bit flag k then b else test_bit events k)
unfolding with_flag
test_bit-with_flag flag events k true h lt = ground (arith, test_bit-bit_or k events flag)
test_bit-with_flag flag events k false h lt =
    ground
      (arith, test_bit-bit_and k events (2 ^ 32 - 1 - flag), test_bit-complement 32 k flag h lt)

pub masked-read : (x : ℕ) → masked x read_event_flag ≡ (test_bit x 0 || test_bit x 1)
unfolding test_bit
masked-read x =
    masked_step x 3 ∙ ap (◌||◌ (x % 2 == 1 && true)) (masked-pow 0 (x / 2)) ∙ ground arith

pub masked-write : (x : ℕ) → masked x write_event_flag ≡ test_bit x 2
masked-write x = masked-pow 2 x

-- A flag seen through the bits of the mask in which it is set or cleared.
module _ (flag events : ℕ) (b : Bool) (small : flag < 2 ^ 32) where
  read_with_flag : masked (with_flag flag b events) read_event_flag ≡ (
      (if test_bit flag 0 then b else test_bit events 0)
      || (if test_bit flag 1 then b else test_bit events 1))
  read_with_flag =
      masked-read (with_flag flag b events)
      ∙ ap₂ ◌||◌ (test_bit-with_flag flag events 0 b small (omega arith))
          (test_bit-with_flag flag events 1 b small (omega arith))

  write_with_flag :
      masked (with_flag flag b events) write_event_flag
      ≡ (if test_bit flag 2 then b else test_bit events 2)
  write_with_flag =
      masked-write (with_flag flag b events)
      ∙ test_bit-with_flag flag events 2 b small (omega arith)

or_self : (b : Bool) → (b || b) ≡ b
or_self true = refl
or_self false = refl

-- `isWriting` and `isReading` report what `enableWriting` and `enableReading` last asked for, and
-- neither of these, nor `enableErrorEvent`, changes what the other reports.
pub is_writing-enable_writing :
    {C : Type 0} (e : Event C) (b : Bool)
    → (is_writing (enable_writing b e) ≡ b)
      × (is_reading (enable_writing b e) ≡ is_reading e)
      × (is_reading (enable_reading b e) ≡ b)
      × (is_writing (enable_reading b e) ≡ is_writing e)
      × (is_writing (enable_error_event b e) ≡ is_writing e)
      × (is_reading (enable_error_event b e) ≡ is_reading e)
unfolding is_writing is_reading enable_writing enable_reading enable_error_event test_bit
is_writing-enable_writing e b = (
  write_with_flag 4 e.events b (omega arith),
  read_with_flag 4 e.events b (omega arith) ∙ sym (masked-read e.events),
  read_with_flag 3 e.events b (omega arith) ∙ or_self b,
  write_with_flag 3 e.events b (omega arith) ∙ sym (masked-write e.events),
  write_with_flag 8 e.events b (omega arith) ∙ sym (masked-write e.events),
  read_with_flag 8 e.events b (omega arith) ∙ sym (masked-read e.events),
)
