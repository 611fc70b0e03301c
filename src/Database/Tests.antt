-- ===== src/Database/Tests.antt =====
-- The semaphore and the circuit on small inputs.
use cgov_api.Prelude.{
  [], ◌==◌, if◌then◌else◌, ℕ, max, ◌≤◌, ◌≡◌, ◌⊎◌, true, false, List, ◌∷◌, filter, arith,
}
use cgov_api.Database.{
  Settings, Circuit, create_semaphore, Attempt, done, failed, execute_with_db_resilience,
}
use cgov_api.Database.Callers.{Event, arrive, leave, happen_all, IsOrderly, semaphore_IsOrderly}
use cgov_api.Database.Failures.{
  record_all, IsBounded, recorded_failures_lem, execution_lem, in_window,
}

-- Three callers come to one place, with room for one to wait; then the first leaves.
abbrev events : List Event
events = arrive 1 ∷ arrive 2 ∷ arrive 3 ∷ leave ∷ []

semaphore_IsOrderly_example :
    IsOrderly 1 1
      (happen_all 1 1 (record { semaphore = create_semaphore; admitted = []; taken = [] }) events)
semaphore_IsOrderly_example = semaphore_IsOrderly 1 1 events (omega arith)

abbrev settings : Settings
settings = record {
  enabled = true;
  retry_max_attempts = 3;
  circuit_threshold = 2;
  circuit_window_ms = 100;
  circuit_cooldown_ms = 500;
}

abbrev circuit : Circuit
circuit = record { open_until = 0; failure_timestamps = 5 ∷ [] }

recorded_failures_lem_example :
    (record_all settings (90 ∷ 130 ∷ 200 ∷ []) circuit).failure_timestamps
    ≡ filter (in_window 100 200) (5 ∷ 90 ∷ 130 ∷ 200 ∷ [])
recorded_failures_lem_example =
    recorded_failures_lem settings 90 (130 ∷ 200 ∷ []) circuit (omega arith, (omega arith, tt))

-- The operation fails until its third call.
abbrev flaky : ℕ → Attempt ℕ
flaky n = if n == 3 then done 7 else failed true 10

execution_lem_example :
    let (result, c, calls) = execute_with_db_resilience settings flaky 20 circuit in
    IsBounded settings circuit (max 1 3) (result, c, calls)
    × ((true ≡ false) ⊎ (0 ≤ 20) ⊎ (calls ≡ 0))
execution_lem_example = execution_lem settings circuit flaky 20
