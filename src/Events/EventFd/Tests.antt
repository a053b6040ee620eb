-- ===== src/Events/EventFd/Tests.antt =====
-- The event descriptor at a concrete run, and its theorems there.
use plugins_engine.Prelude.{ℕ, ◌≡◌, ◌≢◌, refl, ap, [], some, arith, length}
use plugins_engine.Events.EventFd.{
  EventFd, waiting, create, post_impl, write_value, Steps, posts, writes, done, next,
}
use plugins_engine.Events.EventFd.Delivery.{IsSound, create-IsSound, Steps-IsSound, loop-Executes}

-- Two threads post; the loop wakes at the first `write`, and the second comes behind it.
abbrev two_posted : EventFd ℕ
two_posted = post_impl (some 8) (post_impl (some 7) create)

abbrev one_written : EventFd ℕ
one_written = write_value 1 two_posted

abbrev two_written : EventFd ℕ
two_written = write_value 0 one_written

two_written-Steps : Steps create two_written
unfolding post_impl create write_value
two_written-Steps = next create (post_impl (some 7) create) two_written (posts create (some 7)) (
    next (post_impl (some 7) create) two_posted two_written
      (posts (post_impl (some 7) create) (some 8))
      (next two_posted one_written two_written (writes two_posted 1 (omega arith)) (
        next one_written two_written two_written (writes one_written 0 (omega arith))
          (done two_written))))

Steps-IsSound_example : IsSound two_written
Steps-IsSound_example = Steps-IsSound create two_written two_written-Steps create-IsSound

is_waiting : two_written.phase ≡ waiting
unfolding post_impl create write_value
is_waiting = refl

none_writing : two_written.writing ≡ 0
unfolding write_value
none_writing = refl

some_wait : two_written.callbacks ≢ []
unfolding post_impl create write_value
some_wait e = absurd (omega (arith, ap length e))

two_written-IsSound : IsSound two_written
two_written-IsSound = Steps-IsSound create two_written two_written-Steps create-IsSound

loop-Executes_example :
    (t : EventFd ℕ) × Steps two_written t
    × (t.executed ≡ two_written.posted)
    × (t.phase ≡ waiting)
    × (t.callbacks ≡ [])
loop-Executes_example =
    loop-Executes two_written two_written-IsSound is_waiting none_writing some_wait
