-- ===== src/Concurrency/Examples.antt =====
-- Three items mapped by two workers that take turns.
use muslimrentals.Prelude.{ℕ, ◌+◌, ◌≡◌, refl, ◌≤◌, max, true, some, List, [], ◌∷◌, length}
use muslimrentals.Concurrency.{copies, put, start, turn, step, run_schedule}
use muslimrentals.Concurrency.Workers.{upto}
use muslimrentals.Concurrency.Progress.{
  work, is_finished, running_count, map_concurrent-results, map_concurrent-limit,
  map_concurrent-finishes,
}

abbrev items : List ℕ
items = 10 ∷ 20 ∷ 30 ∷ []

abbrev add : ℕ → ℕ → ℕ
add item i = item + i

-- The second worker finishes the second item and takes the third before the first is done.
abbrev schedule : List ℕ
schedule = 0 ∷ 1 ∷ 1 ∷ 1 ∷ 0 ∷ 1 ∷ 0 ∷ 1 ∷ []

map_concurrent_done :
    is_finished items add (run_schedule items add schedule (start items add 2)) ≡ true
unfolding run_schedule step turn start copies put
map_concurrent_done = refl

map_concurrent-results_example :
    let p = run_schedule items add schedule (start items add 2) in
    (p.results 2 ≡ some 32) × (p.calls ≡ upto 3)
map_concurrent-results_example =
    map_concurrent-results items add 2 schedule 2 30 map_concurrent_done refl

map_concurrent-limit_example :
    running_count (run_schedule items add (0 ∷ 1 ∷ []) (start items add 2)).workers ≤ max 1 2
map_concurrent-limit_example = map_concurrent-limit items add 2 (0 ∷ 1 ∷ [])

map_concurrent-finishes_example :
    let p = run_schedule items add (0 ∷ 1 ∷ []) (start items add 2) in
    (rest : List ℕ) × (length rest ≤ work items add p)
    × (is_finished items add (run_schedule items add rest p) ≡ true)
map_concurrent-finishes_example = map_concurrent-finishes items add 2 (0 ∷ 1 ∷ [])
