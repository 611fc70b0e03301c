-- ===== src/Lock/Lease.antt =====
-- The lease that `acquireJobLock` of src/services/ingestion/syncLock.ts writes, and the operations of
-- the instances on the table.
use cgov_api.Prelude.{
  [], ℕ, ◌+◌, ◌≤◌, ◌<◌, ◌≡◌, ◌≢◌, refl, sym, ◌∙◌, Bool, true, false, Option, none, some, String,
  List, ◌∷◌, arith, eq_iff, eq_refl, ◌or_else◌, if◌then◌else◌, ◌&&◌,
}
use cgov_api.Lock.{
  SyncStatus, Table, Request, default_lock_ttl_ms, acquire_strict, acquire_job_lock, ensure_row,
  is_past, expire, claim, ReleaseResult, release_job_lock,
}
use cgov_api.Lock.Strictness.{strict-eq-lenient}

abbrev pub lease_end : Request → ℕ → ℕ
lease_end r now = now + (r.ttl_ms or_else default_lock_ttl_ms)

-- The job is marked as running, with a lease that ends at `e`.
pub record IsHeld (table : Table) (job : String) (e : ℕ) : Type 0 where
  pub row : SyncStatus
  pub present : table job ≡ some row
  pub running : row.is_running ≡ true
  pub expiry : row.expires_at ≡ some e

pub IsHeld-transfer :
    {table other : Table} {job : String} {e : ℕ}
    → other job ≡ table job
    → IsHeld table job e
    → IsHeld other job e
IsHeld-transfer same h = record {
  row = h.row;
  present = same ∙ h.present;
  running = h.running;
  expiry = h.expiry;
}

module _ (table : Table) (r : Request) (now : ℕ) where
  module _ (row : SyncStatus) (e : ℕ) (present : table r.job_name ≡ some row)
      (running : row.is_running ≡ true) (expiry : row.expires_at ≡ some e) where
    pub strict_over : e < now → (acquire_strict table r now).1 ≡ true
    unfolding acquire_strict
    strict_over h = ground arith

    pub strict_busy : now ≤ e → (acquire_strict table r now).1 ≡ false
    unfolding acquire_strict
    strict_busy h = ground arith

    pub strict_busy_row : now ≤ e → (j : String) → (acquire_strict table r now).0 j ≡ table j
    unfolding acquire_strict
    strict_busy_row h j = ground (arith, eq_iff j r.job_name)

  pub strict_other : (j : String) → j ≢ r.job_name → (acquire_strict table r now).0 j ≡ table j
  unfolding acquire_strict
  strict_other j ne = ground (arith, eq_iff j r.job_name)

  pub strict_taken :
      (acquire_strict table r now).1 ≡ true
      → IsHeld (acquire_strict table r now).0 r.job_name (lease_end r now)
  unfolding acquire_strict
  strict_taken h =
      let row = ensure_row table r in
      let old = if row.is_running && is_past row.expires_at now then expire row now else row in
      record {
        row = claim old r now;
        present = ground (arith, eq_refl r.job_name);
        running = refl;
        expiry = refl;
      }

module _ (strict : Bool) (table : Table) (r : Request) (now : ℕ) where
  pub acquire_as_strict :
      ((acquire_job_lock strict table r now).1 ≡ (acquire_strict table r now).1)
      × ((j : String)
          → (acquire_job_lock strict table r now).0 j ≡ (acquire_strict table r now).0 j)
  unfolding acquire_job_lock
  acquire_as_strict = of_mode strict
    where
      of_mode :
          (b : Bool)
          → ((acquire_job_lock b table r now).1 ≡ (acquire_strict table r now).1)
            × ((j : String)
                → (acquire_job_lock b table r now).0 j ≡ (acquire_strict table r now).0 j)
      of_mode true = (refl, λ j. refl)
      of_mode false =
          let (answer, rows) = strict-eq-lenient table r now in (sym answer, λ j. sym (rows j))

-- What the instances do to the table.
pub data Op : Type 0 where
  attempt : Bool → Request → ℕ → Op
  finish : String → ReleaseResult → Option ℕ → Option String → ℕ → Op

unfoldable pub table_after : Option Table → Table → Table
table_after none table = table
table_after (some t) table = t

unfoldable pub perform : Table → Op → Table
unfolding table_after
perform table (attempt strict r now) = (acquire_job_lock strict table r now).0
perform table (finish job result items error now) =
    table_after (release_job_lock table job result items error now) table

unfoldable pub perform_all : Table → List Op → Table
unfolding perform
perform_all table [] = table
perform_all table (op ∷ ops) = perform_all (perform table op) ops

-- The operation comes before the lease ends, and does not release the job.
abbrev pub IsWithin : String → ℕ → Op → Type 0
IsWithin job e (attempt strict r now) = now ≤ e
IsWithin job e (finish other result items error now) = job ≢ other
