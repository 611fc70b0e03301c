-- ===== src/Lock/Tests.antt =====
-- The job lock on an empty table.
use cgov_api.Prelude.{[], ◌≡◌, ◌≢◌, eq_iff, refl, true, false, none, some, String, List, ◌∷◌, arith}
use cgov_api.Lock.{Table, Request, acquire_strict, acquire_job_lock, release_job_lock, success}
use cgov_api.Lock.Strictness.{strict-eq-lenient}
use cgov_api.Lock.Lease.{IsHeld, Op, attempt, finish, perform_all}
use cgov_api.Lock.Exclusion.{lease_excludes, release_ignores_holder}

abbrev empty_table : Table
empty_table job = none

abbrev sync : Request
sync = record {
  job_name = "proposal-sync";
  display_name = "Proposal Sync";
  ttl_ms = some 1000;
  hostname = none;
  source = some "cron";
}

abbrev other_sync : Request
other_sync = record sync { source = some "api" }

-- The table after `sync` was acquired at 100.
abbrev held_table : Table
held_table = (acquire_job_lock true empty_table sync 100).0

acquired : (acquire_job_lock true empty_table sync 100).1 ≡ true
unfolding acquire_job_lock acquire_strict
acquired = refl

held : IsHeld held_table "proposal-sync" 1100
unfolding acquire_job_lock acquire_strict
held = record { row = _; present = refl; running = refl; expiry = refl }

-- Another attempt and the release of another job.
abbrev between : List Op
between = attempt false other_sync 500 ∷ finish "voter-sync" success none none 600 ∷ []

other_job : ◌≢◌ {A = String} "proposal-sync" "voter-sync"
other_job e = ground (arith, (eq_iff "proposal-sync" "voter-sync").1 e)

strict-eq-lenient_example :
    ((acquire_job_lock true held_table other_sync 2000).1
      ≡ (acquire_job_lock false held_table other_sync 2000).1)
    × ((j : String)
        → (acquire_job_lock true held_table other_sync 2000).0 j
          ≡ (acquire_job_lock false held_table other_sync 2000).0 j)
strict-eq-lenient_example = strict-eq-lenient held_table other_sync 2000

lease_excludes_example :
    (acquire_job_lock false (perform_all held_table between) other_sync 1100).1 ≡ false
lease_excludes_example =
    lease_excludes true false empty_table sync other_sync 100 1100 between acquired refl
      (omega arith, (other_job, tt)) (omega arith)

release_ignores_holder_example :
    (t : Table) × (release_job_lock held_table "proposal-sync" success none none 150 ≡ some t)
    × ((acquire_job_lock true t other_sync 200).1 ≡ true)
release_ignores_holder_example =
    release_ignores_holder true held_table other_sync success none none 150 200 1100 held
