-- ===== src/Database/Failures.antt =====
-- The failures that the circuit remembers, and what one execution adds to them.
use mathlib.Core.List.{append_assoc}
use cgov_api.Prelude.{
  [], Bool-cases, max, ℕ, zero, suc, ◌+◌, ◌-◌, ◌≤◌, ◌≡◌, ◌⊎◌, inl, inr, refl, ap, ◌∙◌, Bool, true,
  false, List, ◌∷◌, ◌++◌, filter, ltb, arith, if◌then◌else◌, not,
}
use cgov_api.Database.{
  leb, Settings, Circuit, is_recent, prune_failures, record_db_failure, Attempt, done, failed,
  Execution, circuit_open, threw, last_call, give_up, after_last, after_attempt, retry_db, attempts,
  execute_with_db_resilience,
}

-- The failures happen one after the other.
abbrev pub IsAscending : ℕ → List ℕ → Type 0
IsAscending from [] = Unit {0}
IsAscending from (t ∷ ts) = (from ≤ t) × IsAscending t ts

pub record_all : Settings → List ℕ → Circuit → Circuit
record_all settings [] c = c
record_all settings (t ∷ ts) c = record_all settings ts (record_db_failure settings t c)

abbrev last : ℕ → List ℕ → ℕ
last t [] = t
last t (u ∷ us) = last u us

last_ascends : (t : ℕ) (us : List ℕ) → IsAscending t us → t ≤ last t us
last_ascends t [] h = omega arith
last_ascends t (u ∷ us) h = omega (arith, h.0, last_ascends u us h.1)

module _ (window : ℕ) where
  -- What is forgotten at one time is forgotten later too.
  filter-prune :
      (now later : ℕ) (ts us : List ℕ)
      → now ≤ later
      → filter (is_recent window later) (filter (is_recent window now) ts ++ us)
        ≡ filter (is_recent window later) (ts ++ us)
  unfolding is_recent
  filter-prune now later [] us h = refl
  filter-prune now later (t ∷ ts) us h = ground (arith, h, filter-prune now later ts us h)

recorded_while_recent :
    (settings : Settings) (t : ℕ) (ts : List ℕ) (c : Circuit)
    → IsAscending t ts
    → (record_all settings (t ∷ ts) c).failure_timestamps
      ≡ filter (is_recent settings.circuit_window_ms (last t ts)) (c.failure_timestamps ++ t ∷ ts)
unfolding record_all record_db_failure prune_failures
recorded_while_recent settings t [] c h = refl
recorded_while_recent settings t (u ∷ us) c h =
    let window = settings.circuit_window_ms in
    recorded_while_recent settings u us (record_db_failure settings t c) h.1
    ∙ filter-prune window t (last u us) (c.failure_timestamps ++ t ∷ []) (u ∷ us)
        (last_ascends t (u ∷ us) h)
    ∙ ap (filter (is_recent window (last u us)))
        (append_assoc c.failure_timestamps (t ∷ []) (u ∷ us))

-- The time `u` is at most the window before `now`, or after it.
abbrev pub in_window : ℕ → ℕ → ℕ → Bool
in_window window now u = leb now (u + window)

is_recent-in_window : (window now u : ℕ) → is_recent window now u ≡ in_window window now u
unfolding is_recent
is_recent-in_window window now u = elim (Bool-cases (leb now (u + window))) [
  | inl near ↦ rw near (ground (arith, near))
  | inr far ↦ rw far (ground (arith, far))
]

filter-in_window :
    (window now : ℕ) (ts : List ℕ)
    → filter (is_recent window now) ts ≡ filter (in_window window now) ts
filter-in_window window now [] = refl
filter-in_window window now (t ∷ ts) =
    rw (is_recent-in_window window now t, filter-in_window window now ts) refl

-- Failures that are recorded one after the other are remembered, in their order, exactly if they lie no
-- more than the window before the last of them, and so are those that were remembered before.
pub recorded_failures_lem :
    (settings : Settings) (t : ℕ) (ts : List ℕ) (c : Circuit)
    → IsAscending t ts
    → (record_all settings (t ∷ ts) c).failure_timestamps
      ≡ filter (in_window settings.circuit_window_ms (last t ts)) (c.failure_timestamps ++ t ∷ ts)
recorded_failures_lem settings t ts c h =
    recorded_while_recent settings t ts c h
    ∙ filter-in_window settings.circuit_window_ms (last t ts) (c.failure_timestamps ++ t ∷ ts)

module _ {A : Type 0} (settings : Settings) (c : Circuit) where
  -- The circuit is unchanged, or one failure was recorded for a transient error that is thrown; and
  -- the calls are no more than allowed.
  abbrev pub IsBounded : ℕ → Execution A × Circuit × ℕ → Type 0
  IsBounded most (result, c', calls) =
      ((c' ≡ c) ⊎ ((result ≡ threw true) × ((at : ℕ) × (c' ≡ record_db_failure settings at c))))
      × (calls ≤ most)

  after_last-IsBounded :
      (attempt : ℕ) (a : Attempt A) → IsBounded attempt (after_last settings c attempt a)
  unfolding after_last give_up
  after_last-IsBounded attempt (done a) = (inl refl, omega arith)
  after_last-IsBounded attempt (failed true now) = (inr (refl, (now, refl)), omega arith)
  after_last-IsBounded attempt (failed false now) = (inl refl, omega arith)

  after_attempt-IsBounded :
      (attempt most : ℕ) (rest : Execution A × Circuit × ℕ) (a : Attempt A)
      → attempt ≤ most
      → IsBounded most rest
      → IsBounded most (after_attempt c attempt rest a)
  unfolding after_attempt
  after_attempt-IsBounded attempt most rest (done a) le h = (inl refl, le)
  after_attempt-IsBounded attempt most rest (failed true now) le h = h
  after_attempt-IsBounded attempt most rest (failed false now) le h = (inl refl, le)

  retry_db-IsBounded :
      (run : ℕ → Attempt A) (left attempt most : ℕ)
      → attempt + left ≡ most
      → IsBounded most (retry_db settings run left attempt c)
  unfolding retry_db
  retry_db-IsBounded run zero attempt most e =
      let (recorded, calls) = after_last-IsBounded attempt (run attempt) in
      (recorded, omega (arith, calls, e))
  retry_db-IsBounded run (suc left) attempt most e =
      after_attempt-IsBounded attempt most _ (run attempt) (omega (arith, e))
        (retry_db-IsBounded run left (attempt + 1) most (omega (arith, e)))

  attempts-IsBounded :
      (run : ℕ → Attempt A) (n : ℕ) → IsBounded (max 1 n) (attempts settings run n c)
  unfolding attempts
  attempts-IsBounded run zero = (inl refl, omega arith)
  attempts-IsBounded run (suc left) =
      let (recorded, calls) = retry_db-IsBounded run left 1 (1 + left) refl in
      (recorded, omega (arith, calls))

  -- An execution records at most one failure, and then it throws a transient error; it calls the
  -- operation at most as often as the retries allow (or once), and while the circuit is open, with the
  -- protection enabled, never.
  pub execution_lem :
      (run : ℕ → Attempt A) (now : ℕ)
      → let (result, c', calls) = execute_with_db_resilience settings run now c in
        IsBounded (max 1 settings.retry_max_attempts) (result, c', calls)
        × ((settings.enabled ≡ false) ⊎ (c.open_until ≤ now) ⊎ (calls ≡ 0))
  unfolding execute_with_db_resilience
  execution_lem run now = of_setting settings.enabled (ltb now c.open_until) refl refl
    where
      of_setting :
          (on is_open : Bool)
          → settings.enabled ≡ on
          → ltb now c.open_until ≡ is_open
          → let ended =
              if not on
              then (last_call (run 1), c, 1)
              else if is_open
              then (circuit_open (c.open_until - now), c, 0)
              else attempts settings run settings.retry_max_attempts c in
            IsBounded (max 1 settings.retry_max_attempts) ended
            × ((settings.enabled ≡ false) ⊎ (c.open_until ≤ now) ⊎ (ended.2 ≡ 0))
      of_setting false is_open off e = ((inl refl, omega arith), inl off)
      of_setting true true on e = ((inl refl, omega arith), inr (inr refl))
      of_setting true false on e =
          (attempts-IsBounded run settings.retry_max_attempts, inr (inl (ground (arith, e))))
