-- ===== src/FailFast.antt =====
-- src/services/ingestion/dbFailFast.ts: the ingestion stops asking the database for a while after an
-- error of the connection, or while the circuit of Database is open. The settings, which the
-- environment gives, and the clock are arguments. `String.prototype.toUpperCase` and `toLowerCase` are
-- parameters.
pub mod Blocking
mod Tests
use text.Mathlib.Text.{◌==◌ as str_eq, find?}
use cgov_api.Prelude.{
  [], ℕ, ◌+◌, max, Bool, false, not, ◌||◌, String, List, ◌∷◌, if◌then◌else◌, ltb, is_some,
}
use cgov_api.Database.{Settings, Circuit, Semaphore, DbPressure, get_db_pressure_state}

-- The texts of an error; one that is absent is empty.
pub record DbError : Type 0 where
  pub code : String
  pub message : String

pub record FailFastSettings : Type 0 where
  pub enabled : Bool
  pub cooldown_ms : ℕ
  pub to_upper : String → String
  pub to_lower : String → String

abbrev connectivity_codes : List String
connectivity_codes = "P1001" ∷ "P1002" ∷ "P1017" ∷ "P2024" ∷ []

abbrev connectivity_messages : List String
connectivity_messages =
    "can't reach database server" ∷ "database server is running" ∷ "connection" ∷ "timed out"
    ∷ "too many connections" ∷ "connection pool" ∷ "db circuit open" ∷ []

-- `String.prototype.includes`.
includes : String → String → Bool
includes s t = is_some (find? s t)

is_one_of : String → List String → Bool
is_one_of s [] = false
is_one_of s (t ∷ ts) = str_eq s t || is_one_of s ts

includes_any : String → List String → Bool
unfolding includes
includes_any s [] = false
includes_any s (t ∷ ts) = includes s t || includes_any s ts

pub is_db_connectivity_error : FailFastSettings → DbError → Bool
unfolding is_one_of includes_any
is_db_connectivity_error settings e =
    is_one_of (settings.to_upper e.code) connectivity_codes
    || includes_any (settings.to_lower e.message) connectivity_messages

pub until_with_pressure : ℕ → DbPressure → ℕ → ℕ
until_with_pressure now pressure until =
    if pressure.active then max until (now + pressure.remaining_ms) else until

-- The answer, `dbFailFastUntilMs` afterwards, and the circuit, whose old failures are forgotten.
pub should_fail_fast_for_db :
    FailFastSettings → Settings → ℕ → Circuit → Semaphore → ℕ → Bool × ℕ × Circuit
unfolding until_with_pressure
should_fail_fast_for_db settings db now c s until =
    if not settings.enabled
    then (false, until, c)
    else (let (pressure, c') = get_db_pressure_state db now c s in
        let until' = until_with_pressure now pressure until in (ltb now until', until', c'))

pub record_db_failure_for_fail_fast : FailFastSettings → ℕ → DbError → ℕ → ℕ
unfolding is_db_connectivity_error
record_db_failure_for_fail_fast settings now e until =
    if not settings.enabled || not (is_db_connectivity_error settings e)
    then until
    else max until (now + settings.cooldown_ms)
