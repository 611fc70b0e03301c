-- ===== src/Jobs/Tests.antt =====
-- A tick of one job with the heavy lane, on an empty table of locks.
use cgov_api.Prelude.{
  [], ℕ, ◌≡◌, ◌≢◌, refl, true, false, none, some, String, ◌∷◌, arith, eq_iff, ◌&&◌,
}
use cgov_api.Lock.{Table, Request, acquire_job_lock, release_job_lock}
use cgov_api.Lock.Lease.{IsHeld, attempt, perform_all}
use cgov_api.Jobs.{Call, acquire_call, lane_call, Tick, threw, tick, answered}
use cgov_api.Jobs.Locked.{Proceeds, IsLocked, tick-IsLocked, held_lock_skips}
use cgov_api.Jobs.Release.{ReleasesWork}
use cgov_api.Jobs.Freed.{RunsInTime, IsFreed, tick_frees}

abbrev empty_table : Table
empty_table job = none

abbrev lock : Request
lock = record {
  job_name = "voter-sync";
  display_name = "Voter Sync";
  ttl_ms = some 1000;
  hostname = none;
  source = none;
}

abbrev lane : Request
lane = record lock { job_name = "koios-heavy-job-lane" }

abbrev clock : Call → ℕ
clock acquire_call = 100
clock lane_call = 110
clock _ = 500

-- The run throws, after another instance tried to take the lock.
abbrev job_tick : Tick
job_tick = record {
  strict = true;
  lock = lock;
  lane = lane;
  lane_enabled = true;
  use_koios_heavy_lane = true;
  skip_db_pressure = true;
  skip_koios_pressure = true;
  db_skips = false;
  koios_skips = false;
  before_acquire = some (answered true);
  during = attempt true lock 300 ∷ [];
  run_end = threw "timeout";
  fails = λ c. none;
  clock = clock;
}

works : ReleasesWork job_tick
works = record {
  lock_release = refl;
  lane_release = refl;
  failed_lane = refl;
  failed_release = refl;
}

other_lock : ◌≢◌ {A = String} "koios-heavy-job-lane" "voter-sync"
other_lock e = ground (arith, (eq_iff "koios-heavy-job-lane" "voter-sync").1 e)

timely : RunsInTime job_tick
timely = record {
  apart = other_lock;
  lane_in_time = omega arith;
  lock_kept = (omega arith, tt);
  lane_kept = (omega arith, tt);
}

ran : (tick job_tick false empty_table).0.ran ≡ true
unfolding tick acquire_job_lock release_job_lock perform_all
ran = refl

tick-IsLocked_example :
    (false ≡ false)
    × ((true && false) ≡ false)
    × ((true && false) ≡ false)
    × Proceeds (some (answered true))
    × IsLocked job_tick empty_table
tick-IsLocked_example = tick-IsLocked job_tick false empty_table ran

tick_frees_example : IsFreed job_tick (tick job_tick false empty_table).0.table
tick_frees_example = tick_frees job_tick works timely false empty_table ran

-- The table after another instance took the lock.
abbrev held_table : Table
held_table = (acquire_job_lock true empty_table lock 50).0

held : IsHeld held_table "voter-sync" 1050
unfolding acquire_job_lock
held = record { row = _; present = refl; running = refl; expiry = refl }

held_lock_skips_example : (tick job_tick false held_table).0.ran ≡ false
held_lock_skips_example = held_lock_skips job_tick false held_table 1050 held (omega arith)
