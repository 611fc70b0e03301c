-- ===== src/Parallel/Items/Results.antt =====
-- What `processInParallel` gathers of the items that settle.
use mathlib.Core.List.{append_assoc, append-nil}
use cgov_api.Prelude.{[], ℕ, ◌≡◌, inl, inr, refl, sym, ap, ◌∙◌, String, List, ◌∷◌, ◌++◌, get_elem?}
use cgov_api.Parallel.{
  Settlement, returned, skipped, threw, Pool, Failure, start_more, process_next, record_result,
  count_out, settle, initial, settle_all,
}
use cgov_api.Parallel.Invariant.{next_cases}
use cgov_api.Parallel.Items.{settled_by, settlements, take_out_lem}

module _ {A : Type 0} where
  abbrev pub results_of : {B : Type 0} → List (A × Settlement B) → List B
  results_of [] = []
  results_of ((x, returned b) ∷ more) = b ∷ results_of more
  results_of ((x, skipped) ∷ more) = results_of more
  results_of ((x, threw e) ∷ more) = results_of more

  abbrev pub failures_of : {B : Type 0} → (A → String) → List (A × Settlement B) → List Failure
  failures_of get_id [] = []
  failures_of get_id ((x, returned b) ∷ more) = failures_of get_id more
  failures_of get_id ((x, skipped) ∷ more) = failures_of get_id more
  failures_of get_id ((x, threw e) ∷ more) =
      record { id = get_id x; error = e } ∷ failures_of get_id more

module _ {A B : Type 0} (get_id : A → String) (c : ℕ) where
  -- The pool `q` has gathered what `p` has, and that of the settlements.
  abbrev Gathers : Pool A B → List (A × Settlement B) → Pool A B → Type 0
  Gathers p ps q =
      (q.successful ≡ p.successful ++ results_of ps)
      × (q.failed ≡ p.failed ++ failures_of get_id ps)

  process_next-gathered :
      (p : Pool A B)
      → ((process_next get_id c p).successful ≡ p.successful)
        × ((process_next get_id c p).failed ≡ p.failed)
  unfolding start_more
  process_next-gathered p =
      elim (next_cases get_id c 0 p.waiting p.running p.successful p.failed p.resolved) [
        | inl (idle, e) ↦ rw e (refl, refl)
        | inr (busy, e) ↦ rw e (refl, refl)
      ]

  record_result-gathered :
      (x : A) (s : Settlement B) (p : Pool A B)
      → Gathers p ((x, s) ∷ []) (record_result get_id c x s p)
  unfolding record_result
  record_result-gathered x (returned b) p = (refl, sym (append-nil p.failed))
  record_result-gathered x skipped p = (sym (append-nil p.successful), sym (append-nil p.failed))
  record_result-gathered x (threw e) p = (sym (append-nil p.successful), refl)

  settle-gathered :
      (k : ℕ) (s : Settlement B) (p : Pool A B)
      → Gathers p (settled_by s (get_elem? p.running k)) (settle get_id c k s p)
  unfolding settle count_out
  settle-gathered k s p = elim (take_out_lem k p.running) [
    | inl (nothing, absent) ↦
        rw (nothing, absent) (sym (append-nil p.successful), sym (append-nil p.failed))
    | inr (x, others, e, found, same) ↦
        let (results, failures) =
          process_next-gathered (record_result get_id c x s (record p { running = others })) in
        let (result, failure) = record_result-gathered x s (record p { running = others }) in
        rw (e, found) (results ∙ result, failures ∙ failure)
  ]

  results_of-append :
      (ps qs : List (A × Settlement B)) → results_of (ps ++ qs) ≡ results_of ps ++ results_of qs
  results_of-append [] qs = refl
  results_of-append ((x, returned b) ∷ ps) qs = ap (λ l. b ∷ l) (results_of-append ps qs)
  results_of-append ((x, skipped) ∷ ps) qs = results_of-append ps qs
  results_of-append ((x, threw e) ∷ ps) qs = results_of-append ps qs

  failures_of-append :
      (ps qs : List (A × Settlement B))
      → failures_of get_id (ps ++ qs) ≡ failures_of get_id ps ++ failures_of get_id qs
  failures_of-append [] qs = refl
  failures_of-append ((x, returned b) ∷ ps) qs = failures_of-append ps qs
  failures_of-append ((x, skipped) ∷ ps) qs = failures_of-append ps qs
  failures_of-append ((x, threw e) ∷ ps) qs =
      ap (λ l. record { id = get_id x; error = e } ∷ l) (failures_of-append ps qs)

  settle_all-gathered :
      (order : List (ℕ × Settlement B)) (p : Pool A B)
      → Gathers p (settlements get_id c order p) (settle_all get_id c order p)
  unfolding settlements settle_all
  settle_all-gathered [] p = (sym (append-nil p.successful), sym (append-nil p.failed))
  settle_all-gathered ((k, s) ∷ more) p =
      let first = settled_by s (get_elem? p.running k) in
      let later = settlements get_id c more (settle get_id c k s p) in
      let (result, failure) = settle-gathered k s p in
      let (results, failures) = settle_all-gathered more (settle get_id c k s p) in
      (
        results
            ∙ ap (λ l. l ++ results_of later) result
            ∙ append_assoc p.successful (results_of first) (results_of later)
            ∙ ap (λ l. p.successful ++ l) (sym (results_of-append first later)),
        failures
            ∙ ap (λ l. l ++ failures_of get_id later) failure
            ∙ append_assoc p.failed (failures_of get_id first) (failures_of get_id later)
            ∙ ap (λ l. p.failed ++ l) (sym (failures_of-append first later)),
      )

  pub results_gathered :
      (xs : List A) (order : List (ℕ × Settlement B))
      → let start = process_next get_id c (initial get_id c xs) in
        let p = settle_all get_id c order start in
        (p.successful ≡ results_of (settlements get_id c order start))
        × (p.failed ≡ failures_of get_id (settlements get_id c order start))
  results_gathered xs order =
      let start = process_next get_id c (initial get_id c xs) in
      let (results, failures) = settle_all-gathered order start in
      let (no_results, no_failures) = process_next-gathered (initial get_id c xs) in
      (
        results ∙ ap (λ l. l ++ results_of (settlements get_id c order start)) no_results,
        failures ∙ ap (λ l. l ++ failures_of get_id (settlements get_id c order start)) no_failures,
      )
