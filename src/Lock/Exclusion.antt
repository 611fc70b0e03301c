-- ===== src/Lock/Exclusion.antt =====
-- Who gets a job lock, while a lease runs and after it.
use package.text.Mathlib.Text.{◌==◌ as str_eq}
use cgov_api.Prelude.{
  [], ℕ, ◌≤◌, ◌<◌, ◌≡◌, ◌≢◌, refl, sym, ◌∙◌, subst, Bool, true, false, Option, some, Option-cases,
  Bool-cases, inl, inr, String, List, ◌∷◌, All, arith, eq_iff, eq_refl,
}
use cgov_api.Lock.{
  Table, Request, acquire_strict, acquire_job_lock, ReleaseResult, release_job_lock,
  is_job_lock_active,
}
use cgov_api.Lock.Lease.{
  lease_end, IsHeld, IsHeld-transfer, strict_over, strict_busy, strict_busy_row, strict_other,
  strict_taken, acquire_as_strict, Op, attempt, finish, perform, perform_all, table_after, IsWithin,
}

attempt-row :
    (strict : Bool) (table : Table) (r : Request) (now : ℕ) (job : String) (e : ℕ)
    → IsHeld table job e
    → now ≤ e
    → (acquire_job_lock strict table r now).0 job ≡ table job
attempt-row strict table r now job e h before =
    (acquire_as_strict strict table r now).1 job ∙ elim (Bool-cases (str_eq r.job_name job)) [
      | inl same ↦
          let e' = (eq_iff r.job_name job).0 same in
          strict_busy_row table r now h.row e (subst (λ k. table k ≡ some h.row) (sym e') h.present)
            h.running h.expiry before job
      | inr other ↦ strict_other table r now job (λ q. ground (arith, eq_iff r.job_name job, q))
    ]

finish-row :
    (table : Table) (other job : String) (result : ReleaseResult) (items : Option ℕ)
    (error : Option String) (now : ℕ)
    → job ≢ other
    → table_after (release_job_lock table other result items error now) table job ≡ table job
unfolding release_job_lock table_after
finish-row table other job result items error now ne = ground (arith, eq_iff job other)

pub perform-IsHeld :
    (table : Table) (op : Op) (job : String) (e : ℕ)
    → IsWithin job e op
    → IsHeld table job e
    → IsHeld (perform table op) job e
unfolding perform
perform-IsHeld table (attempt strict r now) job e before h =
    IsHeld-transfer (attempt-row strict table r now job e h before) h
perform-IsHeld table (finish other result items error now) job e ne h =
    IsHeld-transfer (finish-row table other job result items error now ne) h

pub perform_all-IsHeld :
    (table : Table) (ops : List Op) (job : String) (e : ℕ)
    → All (IsWithin job e) ops
    → IsHeld table job e
    → IsHeld (perform_all table ops) job e
unfolding perform_all
perform_all-IsHeld table [] job e w h = h
perform_all-IsHeld table (op ∷ ops) job e w h =
    perform_all-IsHeld (perform table op) ops job e w.1 (perform-IsHeld table op job e w.0 h)

pub IsHeld-busy :
    (strict : Bool) (table : Table) (r : Request) (now e : ℕ)
    → IsHeld table r.job_name e
    → now ≤ e
    → (acquire_job_lock strict table r now).1 ≡ false
IsHeld-busy strict table r now e h before =
    (acquire_as_strict strict table r now).0
    ∙ strict_busy table r now h.row e h.present h.running h.expiry before

pub acquire-IsHeld :
    (strict : Bool) (table : Table) (r : Request) (now : ℕ)
    → (acquire_job_lock strict table r now).1 ≡ true
    → IsHeld (acquire_job_lock strict table r now).0 r.job_name (lease_end r now)
acquire-IsHeld strict table r now taken =
    let (answer, rows) = acquire_as_strict strict table r now in
    IsHeld-transfer (rows r.job_name) (strict_taken table r now (sym answer ∙ taken))

-- After a lock was acquired, and whatever other attempts and releases of other jobs follow up to the
-- end of its lease, an attempt at the same job up to then is refused.
pub lease_excludes :
    (strict strict' : Bool) (table : Table) (r r' : Request) (now later : ℕ) (ops : List Op)
    → (acquire_job_lock strict table r now).1 ≡ true
    → r'.job_name ≡ r.job_name
    → All (IsWithin r.job_name (lease_end r now)) ops
    → later ≤ lease_end r now
    → (acquire_job_lock strict'
        (perform_all (acquire_job_lock strict table r now).0 ops)
        r'
        later).1
      ≡ false
lease_excludes strict strict' table r r' now later ops taken same within before =
    let held = acquire-IsHeld strict table r now taken in
    let kept = perform_all-IsHeld _ ops r.job_name (lease_end r now) within held in
    IsHeld-busy strict' _ r' later (lease_end r now)
      (subst
        (λ j. IsHeld (perform_all (acquire_job_lock strict table r now).0 ops) j (lease_end r now))
        (sym same) kept)
      before

-- A held job is given to the next run as soon as its lease is over.
pub acquire_after_expiry :
    (strict : Bool) (table : Table) (r : Request) (now e : ℕ)
    → IsHeld table r.job_name e
    → e < now
    → ((acquire_job_lock strict table r now).1 ≡ true)
      × IsHeld (acquire_job_lock strict table r now).0 r.job_name (lease_end r now)
acquire_after_expiry strict table r now e h over =
    let (answer, rows) = acquire_as_strict strict table r now in
    let taken = strict_over table r now h.row e h.present h.running h.expiry over in
    (answer ∙ taken, IsHeld-transfer (rows r.job_name) (strict_taken table r now taken))

strict_after_release :
    (table t : Table) (r : Request) (result : ReleaseResult) (items : Option ℕ)
    (error : Option String) (now later : ℕ)
    → release_job_lock table r.job_name result items error now ≡ some t
    → (acquire_strict t r later).1 ≡ true
unfolding release_job_lock acquire_strict
strict_after_release table t r result items error now later released =
    elim (Option-cases (table r.job_name)) [
      | inl e ↦ ground (arith, e, released)
      | inr (row, e) ↦ ground (arith, e, released, eq_refl r.job_name)
    ]

release_present :
    (table : Table) (job : String) (result : ReleaseResult) (items : Option ℕ)
    (error : Option String) (now e : ℕ)
    → IsHeld table job e
    → (t : Table) × (release_job_lock table job result items error now ≡ some t)
unfolding release_job_lock
release_present table job result items error now e h = rw (h.present, release_job_lock) (_, refl)

-- After the release of a held job it is not active, and the rows of the other jobs are as before.
pub release_frees :
    (table : Table) (job : String) (result : ReleaseResult) (items : Option ℕ)
    (error : Option String) (now e : ℕ)
    → IsHeld table job e
    → (t : Table) × (release_job_lock table job result items error now ≡ some t)
      × (is_job_lock_active t job ≡ false)
      × ((j : String) → j ≢ job → t j ≡ table j)
unfolding release_job_lock is_job_lock_active
release_frees table job result items error now e h =
    rw (h.present, release_job_lock)
      (_, refl, rw (eq_refl job) refl, λ j ne. ground (arith, eq_iff j job))

pub same_row-active :
    (table other : Table) (job : String)
    → other job ≡ table job
    → is_job_lock_active other job ≡ is_job_lock_active table job
unfolding is_job_lock_active
same_row-active table other job e = rw e refl

-- A release does not look at who holds the lease: whenever a job is held, a release by any run, also
-- one whose own lease is over, succeeds and lets the next attempt through, at any time.
pub release_ignores_holder :
    (strict : Bool) (table : Table) (r : Request) (result : ReleaseResult) (items : Option ℕ)
    (error : Option String) (now later e : ℕ)
    → IsHeld table r.job_name e
    → (t : Table) × (release_job_lock table r.job_name result items error now ≡ some t)
      × ((acquire_job_lock strict t r later).1 ≡ true)
release_ignores_holder strict table r result items error now later e h =
    let (t, released) = release_present table r.job_name result items error now e h in
    (
      t,
      released,
      (acquire_as_strict strict t r later).0
          ∙ strict_after_release table t r result items error now later released,
    )
