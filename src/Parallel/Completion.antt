-- ===== src/Parallel/Completion.antt =====
-- How many tasks of `processInParallel` run, and when its promise is resolved.
use cgov_api.Prelude.{
  [], ℕ, zero, suc, ◌+◌, ◌≤◌, ◌<◌, ◌≡◌, ◌⊎◌, ◌↔◌, inl, inr, refl, true, some, String, List, ◌∷◌,
  ◌++◌, length, arith,
}
use cgov_api.Parallel.{
  Settlement, returned, skipped, threw, Pool, take_out, start_more, process_next, record_result,
  settle, count_out, initial, process_in_parallel, settle_all,
}
use mathlib.Core.List.{Perm}
use cgov_api.Parallel.Items.{items_of, settlements, items_kept}
use cgov_api.Parallel.Items.Results.{results_of, failures_of, results_gathered}
use cgov_api.Parallel.Invariant.{
  start_tasks_lem, IsSound, process_next-IsSound, settle-IsSound, settle_all-IsSound, next_cases,
  take_out-length,
}

-- Each settlement of the list is one of a task that is then running.
abbrev pub AreRunning :
    {A B : Type 0} → (A → String) → ℕ → List (ℕ × Settlement B) → Pool A B → Type 0
AreRunning get_id c [] p = Unit
AreRunning get_id c ((k, s) ∷ more) p =
    (k < length p.running) × AreRunning get_id c more (settle get_id c k s p)

take_out-some :
    {A : Type 0} (k : ℕ) (xs : List A)
    → k < length xs
    → (x : A) × (others : List A) × (take_out k xs ≡ some (x, others))
unfolding take_out
take_out-some k [] h = ground arith
take_out-some zero (x ∷ xs) h = (x, xs, refl)
take_out-some (suc k) (x ∷ xs) h =
    let (y, ys, e) = take_out-some k xs (omega arith) in (y, x ∷ ys, rw e refl)

module _ {A B : Type 0} (get_id : A → String) (c : ℕ) where
  abbrev unsettled : Pool A B → ℕ
  unsettled p = length p.waiting + length p.running

  process_next-unsettled :
      (p : Pool A B) → length p.running ≤ c → unsettled (process_next get_id c p) ≡ unsettled p
  unfolding start_more
  process_next-unsettled p h =
      elim (next_cases get_id c 0 p.waiting p.running p.successful p.failed p.resolved) [
        | inl (idle, e) ↦ rw e refl
        | inr (busy, e) ↦ rw e (start_tasks_lem c p.waiting p.running h).1
      ]

  record_result-unsettled :
      (x : A) (s : Settlement B) (p : Pool A B)
      → (unsettled (record_result get_id c x s p) ≡ unsettled p)
        × (length (record_result get_id c x s p).running ≡ length p.running)
  unfolding record_result
  record_result-unsettled x (returned b) p = (refl, refl)
  record_result-unsettled x skipped p = (refl, refl)
  record_result-unsettled x (threw e) p = (refl, refl)

  settle-unsettled :
      (k : ℕ) (s : Settlement B) (p : Pool A B)
      → k < length p.running
      → length p.running ≤ c
      → unsettled (settle get_id c k s p) + 1 ≡ unsettled p
  unfolding settle count_out
  settle-unsettled k s p lt le =
      let (x, others, e) = take_out-some k p.running lt in
      let q = record_result get_id c x s (record p { running = others }) in
      let (same, count) = record_result-unsettled x s (record p { running = others }) in
      rw e (
        omega (
          arith,
          take_out-length k p.running x others e,
          same,
          count,
          process_next-unsettled q (omega (arith, take_out-length k p.running x others e, count)),
        ))

  settle_all-unsettled :
      (items : ℕ) (order : List (ℕ × Settlement B)) (p : Pool A B)
      → IsSound items c p
      → AreRunning get_id c order p
      → unsettled (settle_all get_id c order p) + length order ≡ unsettled p
  unfolding settle_all
  settle_all-unsettled items [] p h r = omega arith
  settle_all-unsettled items ((k, s) ∷ more) p h (lt, r) = omega (
    arith,
    settle-unsettled k s p lt h.0,
    settle_all-unsettled items more (settle get_id c k s p) (settle-IsSound get_id c items k s p h)
        r,
  )

  -- The results and the failures of the pool are those of the items that settled, in their order.
  abbrev pub HasGathered : List A → List (ℕ × Settlement B) → Pool A B → Type 0
  HasGathered xs order p =
      let settled = settlements get_id c order (process_next get_id c (initial get_id c xs)) in
      (p.successful ≡ results_of settled) × (p.failed ≡ failures_of get_id settled)

  -- With a concurrency of at least 1, whatever tasks have settled and however: no more than
  -- `concurrency` tasks run, and none waits while fewer do; the promise is resolved exactly when nothing
  -- waits or runs, and until then a task runs; the items that have settled, those that wait and those
  -- that run are the items, each as often as it was given; and the results and failures are those of
  -- the items that have settled, in the order in which they did.
  pub process_in_parallel-IsSound :
      (xs : List A) (order : List (ℕ × Settlement B))
      → 0 < c
      → let p = process_in_parallel get_id c xs order in
        IsSound (length xs) c p
        × ((p.resolved ≡ true) ⊎ (0 < length p.running))
        × Perm
            (items_of (settlements get_id c order (process_next get_id c (initial get_id c xs)))
              ++ (p.waiting ++ p.running))
            xs
        × HasGathered xs order p
  unfolding process_in_parallel
  process_in_parallel-IsSound xs order pos_c =
      let start = process_next get_id c (initial get_id c xs) in
      let h = settle_all-IsSound get_id c (length xs) order start (
        process_next-IsSound get_id c (length xs) (initial get_id c xs)
          (omega arith, refl, omega arith)) in
      (
        h,
        ground (arith, h, pos_c),
        items_kept get_id c xs order,
        results_gathered get_id c xs order,
      )

  -- When running tasks have settled one after the other, the promise is resolved exactly when there have
  -- been as many settlements as items.
  pub resolves_after_all :
      (xs : List A) (order : List (ℕ × Settlement B))
      → AreRunning get_id c order (process_next get_id c (initial get_id c xs))
      → ((process_in_parallel get_id c xs order).resolved ≡ true) ↔ (length order ≡ length xs)
  unfolding process_in_parallel
  resolves_after_all xs order r =
      let start = process_next get_id c (initial get_id c xs) in
      let sound =
        (process_next-IsSound get_id c (length xs) (initial get_id c xs)
          (omega arith, refl, omega arith)) in
      let h = settle_all-IsSound get_id c (length xs) order start sound in
      let left = settle_all-unsettled (length xs) order start sound r in
      let whole = process_next-unsettled (initial {B = B} get_id c xs) (omega arith) in
      (λ e. omega (arith, left, whole, h.2.0 e), λ e. h.2.1 (omega (arith, left, whole, e)))
