-- ===== src/Lock.antt =====
-- src/services/ingestion/syncLock.ts: job locks as leases in the table `sync_status`.
-- A call's transaction is one step on the table, which is a function from job names to rows; the
-- columns that no call here reads or writes are left out. A date is a number of milliseconds. The
-- clock and the environment are arguments.
pub mod Lease
pub mod Exclusion
pub mod Strictness
mod Tests
use text.Mathlib.Text.{◌==◌ as str_eq}
use cgov_api.Prelude.{
  ℕ, ◌+◌, ◌*◌, Bool, true, false, Option, none, some, String, ltb, not, ◌&&◌, ◌or_else◌,
  if◌then◌else◌,
}

pub record SyncStatus : Type 0 where
  pub display_name : Option String
  pub is_running : Bool
  pub started_at : Option ℕ
  pub completed_at : Option ℕ
  pub expires_at : Option ℕ
  pub locked_by : Option String
  pub last_result : Option String
  pub items_processed : Option ℕ
  pub error_message : Option String

abbrev pub Table : Type 0
Table = String → Option SyncStatus

abbrev pub write : Table → String → SyncStatus → Table
write table job row j = if str_eq j job then some row else table j

-- An upper bound for the lease of a job that names none.
abbrev pub default_lock_ttl_ms : ℕ
default_lock_ttl_ms = 15 * 60 * 1000

abbrev or_text : Option String → String → String
or_text none b = b
or_text (some a) b = if str_eq a "" then b else a

-- `process.env.HOSTNAME || options?.source || "api-instance"`
pub holder_name : Option String → Option String → String
holder_name hostname source = or_text hostname (or_text source "api-instance")

pub record Request : Type 0 where
  pub job_name : String
  pub display_name : String
  pub ttl_ms : Option ℕ
  pub hostname : Option String
  pub source : Option String

-- `expires_at !== null && expires_at < now`; in the filter `{ lt: now }` null does not match.
pub is_past : Option ℕ → ℕ → Bool
is_past none now = false
is_past (some e) now = ltb e now

pub expire : SyncStatus → ℕ → SyncStatus
expire row now = record row {
  is_running = false;
  completed_at = some now;
  last_result = some "expired";
  error_message = some "Lock expired - previous run may have crashed";
}

pub claim : SyncStatus → Request → ℕ → SyncStatus
unfolding holder_name
claim row r now = record row {
  display_name = some r.display_name;
  is_running = true;
  started_at = some now;
  completed_at = none;
  expires_at = some (now + (r.ttl_ms or_else default_lock_ttl_ms));
  locked_by = some (holder_name r.hostname r.source);
  error_message = none;
}

-- The row that the `INSERT` makes, with the columns it names.
pub inserted_row : Request → SyncStatus
inserted_row r = record {
  display_name = some r.display_name;
  is_running = false;
  started_at = none;
  completed_at = none;
  expires_at = none;
  locked_by = none;
  last_result = none;
  items_processed = none;
  error_message = none;
}

-- `INSERT … ON CONFLICT DO NOTHING`, then `SELECT … FOR UPDATE`.
ensure_row : Table → Request → SyncStatus
unfolding inserted_row
ensure_row table r = table r.job_name or_else inserted_row r

-- The transaction of a strict lock.
pub acquire_strict : Table → Request → ℕ → Table × Bool
unfolding ensure_row is_past expire claim
acquire_strict table r now =
    let row = ensure_row table r in
    let inserted = write table r.job_name row in
    let expired = row.is_running && is_past row.expires_at now in
    let row' = if expired then expire row now else row in
    if row.is_running && not expired
    then (inserted, false)
    else (write inserted r.job_name (claim row' r now), true)

-- `updateMany` on the rows of the job that run past their lease.
expire_stale : Option SyncStatus → ℕ → Option SyncStatus
unfolding is_past expire
expire_stale none now = none
expire_stale (some row) now =
    if row.is_running && is_past row.expires_at now then some (expire row now) else some row

runs : Option SyncStatus → Bool
runs none = false
runs (some row) = row.is_running

-- The row after `upsert`: it creates one with the named columns, or updates the one that is there.
upsert_claim : Option SyncStatus → Request → ℕ → SyncStatus
unfolding claim inserted_row
upsert_claim none r now = claim (inserted_row r) r now
upsert_claim (some row) r now = claim row r now

abbrev put : Table → String → Option SyncStatus → Table
put table job row j = if str_eq j job then row else table j

-- The transaction of a lock that is not strict.
acquire_lenient : Table → Request → ℕ → Table × Bool
unfolding expire_stale runs upsert_claim
acquire_lenient table r now =
    let status = expire_stale (table r.job_name) now in
    let swept = put table r.job_name status in
    if runs status
    then (swept, false)
    else (write swept r.job_name (upsert_claim status r now), true)

-- `strictSyncLockEnabled` is read from the environment when the module loads.
unfoldable pub acquire_job_lock : Bool → Table → Request → ℕ → Table × Bool
unfolding acquire_strict acquire_lenient
acquire_job_lock strict table r now =
    if not strict then acquire_lenient table r now else acquire_strict table r now

pub data ReleaseResult : Type 0 where
  success partial failed expired : ReleaseResult

result_text : ReleaseResult → String
result_text success = "success"
result_text partial = "partial"
result_text failed = "failed"
result_text expired = "expired"

-- Without a row the update throws.
unfoldable pub release_job_lock :
    Table → String → ReleaseResult → Option ℕ → Option String → ℕ → Option Table
unfolding result_text
release_job_lock table job result items error now = elim (table job) [
  | none ↦ none
  | some row ↦ some (
      write table job (record row {
        is_running = false;
        completed_at = some now;
        expires_at = none;
        last_result = some (result_text result);
        items_processed = items;
        error_message = error;
      }))
]

pub is_job_lock_active : Table → String → Bool
unfolding runs
is_job_lock_active table job = runs (table job)
