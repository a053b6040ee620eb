-- ===== src/Threads/EventThreadPool/Tests.antt =====
-- A pool of three loops.
use plugins_engine.Prelude.{
  ℕ, ◌+◌, ◌*◌, ◌%◌, ◌≡◌, refl, true, not, ◌==◌, some, [], ◌∷◌, length, get_elem?, arith,
}
use plugins_engine.Prelude.Int.{pos, negsuc}
use plugins_engine.Threads.EventThreadPool.{EventThreadPool, get_one_loop_with_hash, choices}
use plugins_engine.Threads.EventThreadPool.Choice.{
  wrap, is_none, get_elem?-choices, get_one_loop_with_hash_lem,
}

abbrev three_loops : EventThreadPool ℕ
three_loops = record {
  main_loop = 9;
  started = true;
  thread_num = 3;
  thread_index = 1;
  event_loops = 5 ∷ 6 ∷ 7 ∷ [];
}

get_elem?-choices_example :
    get_elem? (choices 3 three_loops) 2
    ≡ some (get_elem? three_loops.event_loops (wrap (length three_loops.event_loops) (1 + 1 + 2)))
get_elem?-choices_example =
    get_elem?-choices 3 2 three_loops (omega arith) (omega arith) (omega arith) (omega arith)

get_one_loop_with_hash_lem_example :
    (get_one_loop_with_hash (pos 2) three_loops ≡ get_elem? three_loops.event_loops 2)
    × (get_one_loop_with_hash (pos (8 + 4 * 3)) three_loops
        ≡ get_one_loop_with_hash (pos 8) three_loops)
    × ((loop : ℕ) × (get_one_loop_with_hash (pos 8) three_loops ≡ some loop))
    × (is_none (get_one_loop_with_hash (negsuc 0) three_loops) ≡ not (1 % 3 == 0))
get_one_loop_with_hash_lem_example =
    get_one_loop_with_hash_lem three_loops 2 8 4 0 refl (omega arith) (omega arith) (omega arith)
