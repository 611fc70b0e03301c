-- ===== src/Parallel/Tests.antt =====
-- Three items, two at a time; the second settles first.
use cgov_api.Prelude.{[], ℕ, ◌<◌, ◌≡◌, ◌⊎◌, ◌↔◌, true, String, List, ◌∷◌, length, arith}
use mathlib.Core.List.{Perm}
use cgov_api.Parallel.Items.{items_of, settlements}
use cgov_api.Prelude.{◌++◌}
use cgov_api.Parallel.{
  Settlement, returned, skipped, threw, start_tasks, take_out, start_more, process_next,
  record_result, settle, count_out, initial, process_in_parallel,
}
use cgov_api.Parallel.Invariant.{IsSound}
use cgov_api.Parallel.Completion.{
  HasGathered, AreRunning, process_in_parallel-IsSound, resolves_after_all,
}

abbrev name : String → String
name s = s

abbrev items : List String
items = "a" ∷ "b" ∷ "c" ∷ []

abbrev order : List (ℕ × Settlement ℕ)
order = (1, returned 7) ∷ (1, threw "timeout") ∷ (0, skipped) ∷ []

process_in_parallel-IsSound_example :
    let p = process_in_parallel name 2 items order in
    IsSound 3 2 p
    × ((p.resolved ≡ true) ⊎ (0 < length p.running))
    × Perm
        (items_of (settlements name 2 order (process_next name 2 (initial name 2 items)))
          ++ (p.waiting ++ p.running))
        items
    × HasGathered name 2 items order p
process_in_parallel-IsSound_example = process_in_parallel-IsSound name 2 items order (omega arith)

order-AreRunning : AreRunning name 2 order (process_next name 2 (initial name 2 items))
unfolding settle count_out take_out record_result process_next start_more start_tasks
order-AreRunning = (omega arith, (omega arith, (omega arith, tt)))

resolves_after_all_example :
    ((process_in_parallel name 2 items order).resolved ≡ true) ↔ (length order ≡ length items)
resolves_after_all_example = resolves_after_all name 2 items order order-AreRunning
