-- ===== src/Lock/Strictness.antt =====
-- The two transactions of `acquireJobLock` compared, each run alone.
use cgov_api.Prelude.{ℕ, ◌≡◌, refl, true, false, Option-cases, inl, inr, String, arith, eq_iff}
use cgov_api.Lock.{Table, Request, acquire_strict, acquire_lenient, acquire_job_lock}

-- Run alone, a lock that is strict and one that is not answer alike, and leave the same rows.
pub strict-eq-lenient :
    (table : Table) (r : Request) (now : ℕ)
    → ((acquire_job_lock true table r now).1 ≡ (acquire_job_lock false table r now).1)
      × ((j : String)
          → (acquire_job_lock true table r now).0 j ≡ (acquire_job_lock false table r now).0 j)
unfolding acquire_job_lock acquire_strict acquire_lenient
strict-eq-lenient table r now = elim (Option-cases (table r.job_name)) [
  | inl e ↦ rw e (refl, λ j. ground (arith, e, eq_iff j r.job_name))
  | inr (row, e) ↦ rw e (ground arith, λ j. ground (arith, e, eq_iff j r.job_name))
]
