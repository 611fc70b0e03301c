-- ===== src/Database.antt =====
-- src/services/prisma.ts: the semaphore of the writes, the circuit that opens after a burst of failures,
-- and the retries of `executeWithDbResilience`. The settings, which the environment gives, the clock,
-- the delays and the operations are arguments. `isDbTransientError` looks for codes and words in an
-- error; here an error says whether it is transient. An execution is modelled alone on the circuit, and
-- the callers of the semaphore by their arrivals and releases.
pub mod Callers
pub mod Failures
mod Tests
use cgov_api.Prelude.{
  [], ℕ, zero, suc, ◌+◌, ◌-◌, Bool, Option, none, some, List, ◌∷◌, ◌++◌, length, filter, ltb, leb,
  if◌then◌else◌, not,
}

-- A waiting caller is its number.
pub record Semaphore : Type 0 where
  pub active : ℕ
  pub saturated_count : ℕ
  pub queue : List ℕ

pub data Admission : Type 0 where
  entered waits overflows : Admission

abbrev pub create_semaphore : Semaphore
create_semaphore = record { active = 0; saturated_count = 0; queue = [] }

pub acquire_semaphore : ℕ → ℕ → ℕ → Semaphore → Semaphore × Admission
acquire_semaphore limit max_queue_depth caller s =
    if ltb s.active limit
    then (record s { active = s.active + 1 }, entered)
    else (let saturated = record s { saturated_count = s.saturated_count + 1 } in
        if leb max_queue_depth (length s.queue)
        then (saturated, overflows)
        else (record saturated { queue = s.queue ++ caller ∷ [] }, waits))

-- The next caller of the queue becomes active at once.
hand_over : ℕ → ℕ → List ℕ → Semaphore × Option ℕ
hand_over active saturated_count [] =
    (record { active = active; saturated_count = saturated_count; queue = [] }, none)
hand_over active saturated_count (next ∷ queue) =
    (record { active = active + 1; saturated_count = saturated_count; queue = queue }, some next)

pub release_semaphore : Semaphore → Semaphore × Option ℕ
unfolding hand_over
release_semaphore s = hand_over (s.active - 1) s.saturated_count s.queue

pub record Settings : Type 0 where
  pub enabled : Bool
  pub retry_max_attempts : ℕ
  pub circuit_threshold : ℕ
  pub circuit_window_ms : ℕ
  pub circuit_cooldown_ms : ℕ

pub record Circuit : Type 0 where
  pub open_until : ℕ
  pub failure_timestamps : List ℕ

-- A time that lies ahead of the clock counts as recent.
pub is_recent : ℕ → ℕ → ℕ → Bool
is_recent window now t = leb (now - t) window

pub prune_failures : ℕ → ℕ → List ℕ → List ℕ
unfolding is_recent
prune_failures window now times = filter (is_recent window now) times

pub record_db_failure : Settings → ℕ → Circuit → Circuit
unfolding prune_failures
record_db_failure settings now c =
    let times = prune_failures settings.circuit_window_ms now (c.failure_timestamps ++ now ∷ []) in
    record {
      open_until =
          if leb settings.circuit_threshold (length times)
          then now + settings.circuit_cooldown_ms
          else c.open_until;
      failure_timestamps = times;
    }

pub record DbPressure : Type 0 where
  pub active : Bool
  pub remaining_ms : ℕ
  pub observed_errors : ℕ
  pub write_in_flight : ℕ
  pub write_queue_depth : ℕ
  pub semaphore_saturated : ℕ

-- It forgets old failures.
unfoldable pub get_db_pressure_state : Settings → ℕ → Circuit → Semaphore → DbPressure × Circuit
unfolding prune_failures
get_db_pressure_state settings now c s =
    let times = prune_failures settings.circuit_window_ms now c.failure_timestamps in
    (
      record {
        active = ltb now c.open_until;
        remaining_ms = c.open_until - now;
        observed_errors = length times;
        write_in_flight = s.active;
        write_queue_depth = length s.queue;
        semaphore_saturated = s.saturated_count;
      },
      record c { failure_timestamps = times },
    )

-- One call of the operation: its value, or an error at a reading of the clock.
pub data Attempt (A : Type 0) : Type 0 where
  done : A → Attempt A
  failed : Bool → ℕ → Attempt A

pub data Execution (A : Type 0) : Type 0 where
  circuit_open : ℕ → Execution A
  returned : A → Execution A
  threw : Bool → Execution A

give_up : Settings → Bool → ℕ → Circuit → Circuit
unfolding record_db_failure
give_up settings transient now c = if transient then record_db_failure settings now c else c

module _ {A : Type 0} where
  -- What the caller gets of one call that is the last.
  last_call : Attempt A → Execution A
  last_call (done a) = returned a
  last_call (failed transient now) = threw transient

  -- What follows an attempt, the last one and one before it, with the calls made.
  after_last : Settings → Circuit → ℕ → Attempt A → Execution A × Circuit × ℕ
  unfolding give_up
  after_last settings c attempt (done a) = (returned a, c, attempt)
  after_last settings c attempt (failed transient now) =
      (threw transient, give_up settings transient now c, attempt)

  after_attempt : Circuit → ℕ → Execution A × Circuit × ℕ → Attempt A → Execution A × Circuit × ℕ
  after_attempt c attempt rest (done a) = (returned a, c, attempt)
  after_attempt c attempt rest (failed transient now) =
      if not transient then (threw transient, c, attempt) else rest

  -- The loop from an attempt on, with the attempts that are left after it.
  pub retry_db :
      Settings → (ℕ → Attempt A) → (left attempt : ℕ) → Circuit → Execution A × Circuit × ℕ
  unfolding after_last after_attempt
  retry_db settings run zero attempt c = after_last settings c attempt (run attempt)
  retry_db settings run (suc left) attempt c =
      after_attempt c attempt (retry_db settings run left (attempt + 1) c) (run attempt)

  -- `for (attempt = 1; attempt <= max; …)`, and the call after it where the loop has no turn.
  attempts : Settings → (ℕ → Attempt A) → ℕ → Circuit → Execution A × Circuit × ℕ
  unfolding retry_db last_call
  attempts settings run zero c = (last_call (run 1), c, 1)
  attempts settings run (suc left) c = retry_db settings run left 1 c

  -- The semaphore stands around this; the last component is the number of calls.
  pub execute_with_db_resilience :
      Settings → (ℕ → Attempt A) → ℕ → Circuit → Execution A × Circuit × ℕ
  unfolding attempts last_call
  execute_with_db_resilience settings run now c =
      if not settings.enabled
      then (last_call (run 1), c, 1)
      else if ltb now c.open_until
      then (circuit_open (c.open_until - now), c, 0)
      else attempts settings run settings.retry_max_attempts c
