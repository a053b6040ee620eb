-- ===== src/Threads/EventThreadPool/Choice.antt =====
-- Which loops src/thread/eventThreadPool.cpp chooses.
use plugins_engine.Prelude.{
  ℕ, zero, suc, ◌+◌, ◌-◌, ◌*◌, ◌%◌, ◌^◌, ◌<◌, ◌≤◌, ◌≡◌, refl, sym, ap, ◌∙◌, Bool, true, false, not,
  Option, none, some, List, [], ◌∷◌, ◌++◌, length, get_elem?, ltb, ◌==◌, if◌then◌else◌, to_u16,
  arith, length-append,
}
use native.Mathlib.Nat.{mod-lt, mod-eq_of_lt, add-mul-mod_self_right}
use plugins_engine.Prelude.Int.{ℤ, pos, negsuc}
use plugins_engine.Threads.EventThreadPool.{
  EventThreadPool, create, start_threads, init, init_num, next_index, choose,
  get_one_loop_from_pool, negated, rem, to_size, hashed, with_hash, get_one_loop_with_hash, choices,
}

-- A position among `n`, counted round once.
abbrev pub wrap : ℕ → ℕ → ℕ
wrap n i = if ltb i n then i else i - n

abbrev pub is_none : {A : Type 0} → Option A → Bool
is_none none = true
is_none (some a) = false

choose_some :
    {L : Type 0} (loops : List L) (p : EventThreadPool L)
    → 0 < length loops
    → choose loops p
      ≡ (get_elem? p.event_loops (next_index p), record p { thread_index = next_index p })
unfolding choose
choose_some [] p h = absurd (omega arith)
choose_some (_ ∷ _) p h = refl

next_index-wrap :
    {L : Type 0} (p : EventThreadPool L)
    → length p.event_loops < 2 ^ 16
    → p.thread_index < length p.event_loops
    → next_index p ≡ wrap (length p.event_loops) (p.thread_index + 1)
unfolding next_index
next_index-wrap p few h = ground arith

-- Among as many calls of `getOneLoopFromPool` in a row as there are loops, the first takes the loop
-- behind the one of the last call, each takes the loop behind the one before, the last loop is
-- followed by the first, and so each loop is chosen exactly once and no access is out of range.
pub get_elem?-choices :
    {L : Type 0} (n j : ℕ) (p : EventThreadPool L)
    → length p.event_loops < 2 ^ 16
    → p.thread_index < length p.event_loops
    → n ≤ length p.event_loops
    → j < n
    → get_elem? (choices n p) j
      ≡ some (get_elem? p.event_loops (wrap (length p.event_loops) (p.thread_index + 1 + j)))
unfolding choices get_one_loop_from_pool
get_elem?-choices zero j p few h le lt = absurd (omega arith)
get_elem?-choices (suc n) zero p few h le lt =
    ap (λ r. some (r.0)) (choose_some p.event_loops p (omega arith))
    ∙ ap (λ i. some (get_elem? p.event_loops i))
        (next_index-wrap p few h ∙ ap (wrap (length p.event_loops)) (omega arith))
get_elem?-choices {L} (suc n) (suc j) p few h le lt =
    ap (λ r. get_elem? (choices n (r.1)) j) (choose_some p.event_loops p (omega arith))
    ∙ get_elem?-choices n j after few (ground (arith, at)) (omega arith) (omega arith)
    ∙ ap (λ i. some (get_elem? p.event_loops i)) (ground (arith, at))
  where
    after : EventThreadPool L
    after = record p { thread_index = next_index p }

    at : next_index p ≡ wrap (length p.event_loops) (p.thread_index + 1)
    at = next_index-wrap p few h

with_hash_some :
    {L : Type 0} (loops : List L) (hash : ℤ) (p : EventThreadPool L)
    → 0 < length loops
    → with_hash loops hash p ≡ hashed hash p
unfolding with_hash
with_hash_some [] hash p h = absurd (omega arith)
with_hash_some (_ ∷ _) hash p h = refl

get_elem?-within :
    {L : Type 0} (loops : List L) (i : ℕ)
    → i < length loops
    → (loop : L) × (get_elem? loops i ≡ some loop)
get_elem?-within [] i h = absurd (omega arith)
get_elem?-within (loop ∷ loops) zero h = (loop, refl)
get_elem?-within (loop ∷ loops) (suc i) h = get_elem?-within loops i (omega arith)

get_elem?-beyond :
    {L : Type 0} (loops : List L) (i : ℕ) → length loops ≤ i → get_elem? loops i ≡ none
get_elem?-beyond [] i h = refl
get_elem?-beyond (loop ∷ loops) zero h = absurd (omega arith)
get_elem?-beyond (loop ∷ loops) (suc i) h = get_elem?-beyond loops i (omega arith)

get_one_loop_with_hash_full :
    {L : Type 0} (p : EventThreadPool L) (hash : ℤ)
    → length p.event_loops ≡ p.thread_num
    → 0 < p.thread_num
    → get_one_loop_with_hash hash p ≡ get_elem? p.event_loops (to_size (rem hash p.thread_num))
unfolding get_one_loop_with_hash hashed
get_one_loop_with_hash_full p hash full some_thread =
    let divides : (p.thread_num == 0) ≡ false = ground arith in
    with_hash_some p.event_loops hash p (omega arith) ∙ rw divides refl

at_remainder :
    {L : Type 0} (p : EventThreadPool L) (h : ℕ)
    → length p.event_loops ≡ p.thread_num
    → 0 < p.thread_num
    → p.thread_num < 2 ^ 16
    → get_one_loop_with_hash (pos h) p ≡ get_elem? p.event_loops (h % p.thread_num)
at_remainder p h full some_thread few =
    get_one_loop_with_hash_full p (pos h) full some_thread
    ∙ ap (get_elem? p.event_loops) (omega (arith, mod-lt h some_thread))

behind_zero :
    {L : Type 0} (loops : List L) (r : ℕ)
    → 0 < length loops
    → length loops < 2 ^ 16
    → r < length loops
    → is_none (get_elem? loops (to_size (negated r))) ≡ not (r == 0)
behind_zero [] zero some_loop few h = absurd (omega arith)
behind_zero (loop ∷ loops) zero some_loop few h = refl
behind_zero loops (suc r) some_loop few h =
    let differs : (suc r == 0) ≡ false = ground arith in
    rw differs (ap is_none (get_elem?-beyond loops (2 ^ 64 - 1 - r % 2 ^ 64) (omega arith)))

-- `getOneLoopWithHash` in a pool with as many loops as threads, at least one and less than 2^16. Of
-- the hashes that are not negative, those below the number of loops take each loop in its turn, hashes
-- that differ by a multiple of that number take the same loop, and every one takes a loop. A negative
-- hash accesses the vector out of its range exactly if the number of loops does not divide it.
pub get_one_loop_with_hash_lem :
    {L : Type 0} (p : EventThreadPool L) (i h k m : ℕ)
    → length p.event_loops ≡ p.thread_num
    → 0 < p.thread_num
    → p.thread_num < 2 ^ 16
    → i < p.thread_num
    → (get_one_loop_with_hash (pos i) p ≡ get_elem? p.event_loops i)
      × (get_one_loop_with_hash (pos (h + k * p.thread_num)) p ≡ get_one_loop_with_hash (pos h) p)
      × ((loop : L) × (get_one_loop_with_hash (pos h) p ≡ some loop))
      × (is_none (get_one_loop_with_hash (negsuc m) p) ≡ not (suc m % p.thread_num == 0))
get_one_loop_with_hash_lem p i h k m full some_thread few lt =
    let (loop, got) =
      get_elem?-within p.event_loops (h % p.thread_num) (rw full (mod-lt h some_thread)) in
    (
      at_remainder p i full some_thread few ∙ ap (get_elem? p.event_loops) (mod-eq_of_lt lt),
      at_remainder p (h + k * p.thread_num) full some_thread few
          ∙ ap (get_elem? p.event_loops) (add-mul-mod_self_right h k p.thread_num)
          ∙ sym (at_remainder p h full some_thread few),
      (loop, at_remainder p h full some_thread few ∙ got),
      ap is_none (get_one_loop_with_hash_full p (negsuc m) full some_thread)
          ∙ behind_zero p.event_loops (suc m % p.thread_num) (omega arith) (omega arith)
              (rw full (mod-lt (suc m) some_thread)),
    )

start_threads_fields :
    {L : Type 0} (new_loop : ℕ → L) (n : ℕ) (p : EventThreadPool L)
    → (length (start_threads new_loop n p).event_loops ≡ length p.event_loops + n)
      × ((start_threads new_loop n p).thread_num ≡ p.thread_num)
      × ((start_threads new_loop n p).thread_index ≡ p.thread_index)
unfolding start_threads
start_threads_fields new_loop zero p = (omega arith, refl, refl)
start_threads_fields new_loop (suc n) p =
    let rest =
      start_threads_fields new_loop n
        (record p { event_loops = p.event_loops ++ (new_loop (length p.event_loops) ∷ []) }) in
    (
      omega (arith, rest.0, length-append p.event_loops (new_loop (length p.event_loops) ∷ [])),
      rest.1,
      rest.2,
    )

-- A new pool that is initialised with a number has as many loops as threads, which is that number
-- modulo 2^16, and the calls of `getOneLoopFromPool` begin behind the first loop.
pub length-init_num :
    {L : Type 0} (new_loop : ℕ → L) (num : ℕ) (loop : L)
    → (length (init_num new_loop num (create loop)).event_loops ≡ num % 2 ^ 16)
      × ((init_num new_loop num (create loop)).thread_num ≡ num % 2 ^ 16)
      × ((init_num new_loop num (create loop)).thread_index ≡ 0)
unfolding init_num init create
length-init_num new_loop num loop =
    let fields =
      start_threads_fields new_loop (to_u16 num)
        (record (create loop) { thread_num = to_u16 num }) in
    (omega (arith, fields.0), fields.1, fields.2)
