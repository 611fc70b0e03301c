-- ===== src/Parallel.antt =====
-- `processInParallel` of src/services/ingestion/parallel.ts. The processor is a parameter: a task settles
-- when it pleases, with a result, with null or with an error. The handlers that push its result and
-- that count it out are one step here. The items not yet started stand for `items` and
-- `currentIndex`, the running ones for `activeCount`.
pub mod Invariant
pub mod Items
pub mod Completion
mod Tests
use cgov_api.Prelude.{
  [], ℕ, zero, suc, Bool, true, false, Option, none, some, String, List, ◌∷◌, ◌++◌, length, ltb,
  if◌then◌else◌,
}

pub data Settlement {ℓ} (B : Type ℓ) : Type ℓ where
  returned : B → Settlement B
  skipped : Settlement B
  threw : String → Settlement B

pub record Failure : Type 0 where
  pub id : String
  pub error : String

pub record Pool {ℓ κ} (A : Type ℓ) (B : Type κ) : Type (ℓ ⊔ κ) where
  pub waiting : List A
  pub running : List A
  pub successful : List B
  pub failed : List Failure
  pub resolved : Bool

module _ {ℓ} {A : Type ℓ} where
  -- The `while` loop, by the items that are left.
  pub start_tasks : ℕ → List A → List A → List A × List A
  start_tasks concurrency [] running = ([], running)
  start_tasks concurrency (x ∷ waiting) running =
      if ltb (length running) concurrency
      then start_tasks concurrency waiting (running ++ x ∷ [])
      else (x ∷ waiting, running)

  -- The running task at a place, and the others.
  pub take_out : ℕ → List A → Option (A × List A)
  take_out k [] = none
  take_out zero (x ∷ xs) = some (x, xs)
  take_out (suc k) (x ∷ xs) = elim (take_out k xs) [ none ↦ none | some (y, ys) ↦ some (y, x ∷ ys) ]

module _ {ℓ κ} {A : Type ℓ} {B : Type κ} (get_id : A → String) (concurrency : ℕ) where
  pub start_more : Pool A B → Pool A B
  unfolding start_tasks
  start_more p =
      let (waiting, running) = start_tasks concurrency p.waiting p.running in
      record p { waiting = waiting; running = running }

  pub process_next : Pool A B → Pool A B
  unfolding start_more
  process_next p = elim p.waiting [
    | [] ↦ elim p.running [ [] ↦ record p { resolved = true } | x ∷ xs ↦ start_more p ]
    | x ∷ xs ↦ start_more p
  ]

  record_result : A → Settlement B → Pool A B → Pool A B
  record_result x (returned b) p = record p { successful = p.successful ++ b ∷ [] }
  record_result x skipped p = p
  record_result x (threw e) p = record p {
    failed = p.failed ++ record { id = get_id x; error = e } ∷ [];
  }

  count_out : Settlement B → Pool A B → Option (A × List A) → Pool A B
  unfolding process_next record_result
  count_out s p none = p
  count_out s p (some (x, others)) =
      process_next (record_result x s (record p { running = others }))

  -- A running task settles.
  pub settle : ℕ → Settlement B → Pool A B → Pool A B
  unfolding count_out take_out
  settle k s p = count_out s p (take_out k p.running)

  abbrev pub initial : List A → Pool A B
  initial items = record {
    waiting = items;
    running = [];
    successful = [];
    failed = [];
    resolved = false;
  }

  pub settle_all : List (ℕ × Settlement B) → Pool A B → Pool A B
  settle_all [] p = p
  settle_all ((k, s) ∷ more) p = settle_all more (settle k s p)

  -- The pool after tasks have settled in the order of a list.
  pub process_in_parallel : List A → List (ℕ × Settlement B) → Pool A B
  unfolding settle_all
  process_in_parallel items order = settle_all order (process_next (initial items))
