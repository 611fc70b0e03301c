-- ===== src/Jobs.antt =====
-- src/jobs/runIngestionCronJob.ts, with dbPressureGuard.ts and koiosPressureGuard.ts beside it: one
-- tick of a job, on the table of locks. A call of the database can throw; `fails` says with which
-- message, and `clock` when each call is made. The run is a parameter: how it ends, and what the
-- instances do to the table meanwhile. The jitter only sleeps.
pub mod Locked
pub mod Freed
pub mod Release
mod Tests
use cgov_api.Prelude.{
  ℕ, Bool, true, false, Option, none, some, String, List, leb, ◌&&◌, ◌or_else◌, if◌then◌else◌, not,
}
use cgov_api.Database.{DbPressure}
use cgov_api.Lock.{
  Table, Request, acquire_job_lock, ReleaseResult, success, failed, release_job_lock,
}
use cgov_api.Lock.Lease.{Op, perform_all}

pub should_skip_for_db_pressure : Bool → ℕ → DbPressure → Bool
should_skip_for_db_pressure skip_when_degraded queue_skip_threshold p =
    if not skip_when_degraded
    then false
    else if p.active
    then true
    else leb queue_skip_threshold p.write_queue_depth

pub should_skip_for_koios_pressure : Bool → Bool → Bool
should_skip_for_koios_pressure skip_when_degraded active =
    if not skip_when_degraded then false else active

-- The calls of the database, in the order of the text.
pub data Call : Type 0 where
  acquire_call lane_call busy_release_call release_call lane_release_call : Call
  failed_lane_call failed_release_call : Call

pub data RunEnd : Type 0 where
  finished : Option ℕ → Option ReleaseResult → RunEnd
  threw : String → RunEnd

pub data Answer : Type 0 where
  answered : Bool → Answer
  raised : String → Answer

-- The options of a job, and what one tick of it meets.
pub record Tick : Type 0 where
  pub strict : Bool
  pub lock : Request
  pub lane : Request
  pub lane_enabled : Bool
  pub use_koios_heavy_lane : Bool
  pub skip_db_pressure : Bool
  pub skip_koios_pressure : Bool
  pub db_skips : Bool
  pub koios_skips : Bool
  pub before_acquire : Option Answer
  pub during : List Op
  pub run_end : RunEnd
  pub fails : Call → Option String
  pub clock : Call → ℕ

pub record State : Type 0 where
  pub table : Table
  pub lock_acquired : Bool
  pub lane_acquired : Bool
  -- `options.run` was called.
  pub ran : Bool

pub data Ended : Type 0 where
  returned : Ended
  thrown : String → Ended

-- A release throws where the call fails, or where there is no row.
call_ended : Option String → Option Table → Option Table
call_ended none written = written
call_ended (some message) written = none

pub release_call_of :
    Tick → Call → String → ReleaseResult → Option ℕ → Option String → Table → Option Table
unfolding call_ended
release_call_of k c job result items error table =
    call_ended (k.fails c) (release_job_lock table job result items error (k.clock c))

thrown_text : Tick → Call → String
thrown_text k c = k.fails c or_else "Record to update not found."

-- `releaseKoiosHeavyJobLane`
release_lane : Tick → Call → ReleaseResult → Option String → Table → Option Table
unfolding release_call_of
release_lane k c result error table =
    if not k.lane_enabled
    then some table
    else release_call_of k c k.lane.job_name result none error table

-- `acquireKoiosHeavyJobLane`
pub acquire_lane : Tick → Table → Table × Bool
acquire_lane k table =
    if not k.lane_enabled
    then (table, true)
    else acquire_job_lock k.strict table k.lane (k.clock lane_call)

-- A lock is given back, or the release throws.
lane_given_back : Tick → State → Option Table → State × Ended
unfolding thrown_text
lane_given_back k s none = (s, thrown (thrown_text k lane_release_call))
lane_given_back k s (some table) = (record s { table = table; lane_acquired = false }, returned)

after_release : Tick → State → State × Ended
unfolding release_lane lane_given_back
after_release k s =
    if s.lane_acquired
    then lane_given_back k s (release_lane k lane_release_call success none s.table)
    else (s, returned)

lock_given_back : Tick → State → Option Table → State × Ended
unfolding after_release thrown_text
lock_given_back k s none = (s, thrown (thrown_text k release_call))
lock_given_back k s (some table) =
    after_release k (record s { table = table; lock_acquired = false })

after_run : Tick → State → RunEnd → State × Ended
unfolding lock_given_back release_call_of
after_run k s (threw message) = (s, thrown message)
after_run k s (finished items result) = lock_given_back k s (
    release_call_of k release_call k.lock.job_name (result or_else success) (some (items or_else 0))
      none s.table)

-- The run itself, with what happens to the table meanwhile.
pub with_run : Tick → State → State × Ended
unfolding after_run
with_run k s = after_run k (record s { table = perform_all s.table k.during; ran = true }) k.run_end

-- Without the lane the lock is given back.
pub busy_given_back : Tick → State → Option Table → State × Ended
unfolding thrown_text
busy_given_back k s none = (s, thrown (thrown_text k busy_release_call))
busy_given_back k s (some table) = (record s { table = table; lock_acquired = false }, returned)

pub on_lane : Tick → State → Bool → State × Ended
unfolding with_run busy_given_back release_call_of
on_lane k s true = with_run k s
on_lane k s false =
    busy_given_back k s
      (release_call_of k busy_release_call k.lock.job_name success (some 0) none s.table)

pub on_lane_call : Tick → State → Option String → State × Ended
unfolding acquire_lane on_lane
on_lane_call k s (some message) = (s, thrown message)
on_lane_call k s none =
    let (table, taken) = acquire_lane k s.table in
    on_lane k (record s { table = table; lane_acquired = taken }) taken

pub with_lane : Tick → State → State × Ended
unfolding on_lane_call with_run
with_lane k s =
    if not k.use_koios_heavy_lane then with_run k s else on_lane_call k s (k.fails lane_call)

pub on_lock : Tick → State → Bool → State × Ended
unfolding with_lane
on_lock k s true = with_lane k s
on_lock k s false = (s, returned)

pub on_lock_call : Tick → State → Option String → State × Ended
unfolding on_lock
on_lock_call k s (some message) = (s, thrown message)
on_lock_call k s none =
    let (table, taken) = acquire_job_lock k.strict s.table k.lock (k.clock acquire_call) in
    on_lock k (record s { table = table; lock_acquired = taken }) taken

pub with_lock : Tick → State → State × Ended
unfolding on_lock_call
with_lock k s = on_lock_call k s (k.fails acquire_call)

pub after_answer : Tick → State → Option Answer → State × Ended
unfolding with_lock
after_answer k s none = with_lock k s
after_answer k s (some (answered proceed)) = if not proceed then (s, returned) else with_lock k s
after_answer k s (some (raised message)) = (s, thrown message)

-- The block of `try`.
pub try_block : Tick → State → State × Ended
unfolding after_answer
try_block k s =
    if k.skip_db_pressure && k.db_skips
    then (s, returned)
    else if k.skip_koios_pressure && k.koios_skips
    then (s, returned)
    else after_answer k s k.before_acquire

-- In `catch`: a release that throws is only logged.
lane_given_up : State → Option Table → State
lane_given_up s none = s
lane_given_up s (some table) = record s { table = table; lane_acquired = false }

give_up_lane : Tick → String → State → State
unfolding release_lane lane_given_up
give_up_lane k message s =
    if s.lane_acquired
    then lane_given_up s (release_lane k failed_lane_call failed (some message) s.table)
    else s

lock_given_up : State → Option Table → State
lock_given_up s none = s
lock_given_up s (some table) = record s { table = table }

give_up_lock : Tick → String → State → State
unfolding release_call_of lock_given_up
give_up_lock k message s =
    if s.lock_acquired
    then lock_given_up s
        (release_call_of k failed_release_call k.lock.job_name failed none (some message) s.table)
    else s

pub catch_block : Tick → State × Ended → State
unfolding give_up_lane give_up_lock
catch_block k (s, returned) = s
catch_block k (s, thrown message) = give_up_lock k message (give_up_lane k message s)

abbrev pub start : Table → State
start table = record { table = table; lock_acquired = false; lane_acquired = false; ran = false }

-- The callback of the schedule, with `isRunning` before it and after it.
pub tick : Tick → Bool → Table → State × Bool
unfolding try_block catch_block
tick k is_running table =
    if is_running then (start table, true) else (catch_block k (try_block k (start table)), false)
