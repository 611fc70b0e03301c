-- ===== src/Jobs/Freed.antt =====
-- The table after a tick that ran its job.
use cgov_api.Prelude.{
  if◌then◌else◌, not, ℕ, ◌≤◌, ◌≡◌, ◌≢◌, refl, sym, ◌∙◌, Bool, true, false, Option, none, some,
  String, All, inl, inr, ◌⊎◌, arith, ◌&&◌,
}
use cgov_api.Lock.{Table, acquire_job_lock, is_job_lock_active}
use cgov_api.Lock.Lease.{perform, IsHeld, IsWithin, lease_end, perform_all, attempt}
use cgov_api.Lock.Exclusion.{acquire-IsHeld, perform-IsHeld, perform_all-IsHeld}
use cgov_api.Jobs.{
  acquire_call, lane_call, Tick, State, Ended, acquire_lane, on_lane, on_lane_call, with_run,
  with_lane, on_lock, on_lock_call, with_lock, Answer, answered, raised, after_answer, try_block,
  catch_block, start, tick,
}
use cgov_api.Jobs.Locked.{busy-ran, catch-ran}
use cgov_api.Jobs.Release.{ReleasesWork, LaneNeeded, IsFree, with_run-IsFree}

-- The leases that the tick takes.
abbrev pub lock_end : Tick → ℕ
lock_end k = lease_end k.lock (k.clock acquire_call)

abbrev pub lane_end : Tick → ℕ
lane_end k = lease_end k.lane (k.clock lane_call)

-- The lane is another lock than the job's and is acquired within the job's lease; the run ends within
-- both leases, and meanwhile nobody else releases the lock or the lane.
pub record RunsInTime (k : Tick) : Type 0 where
  pub apart : k.lane.job_name ≢ k.lock.job_name
  pub lane_in_time : k.clock lane_call ≤ lock_end k
  pub lock_kept : All (IsWithin k.lock.job_name (lock_end k)) k.during
  pub lane_kept : All (IsWithin k.lane.job_name (lane_end k)) k.during

-- The job's lock is not active, nor the lane if the job uses it.
abbrev pub IsFreed : Tick → Table → Type 0
IsFreed k t =
    (is_job_lock_active t k.lock.job_name ≡ false)
    × ((k.use_koios_heavy_lane ≡ false)
        ⊎ (k.lane_enabled ≡ false)
        ⊎ (is_job_lock_active t k.lane.job_name ≡ false))

module _ (k : Tick) (works : ReleasesWork k) (timely : RunsInTime k) where
  abbrev Free : Table → Bool → Type 0
  Free = IsFree k works timely.apart (lock_end k) (lane_end k)

  abbrev Needed : Bool → Table → Type 0
  Needed = LaneNeeded k works timely.apart (lock_end k) (lane_end k)

  run-Free :
      (table : Table) (taken on_lane ran : Bool)
      → taken ≡ true
      → IsHeld table k.lock.job_name (lock_end k)
      → Needed on_lane table
      → Free
          (catch_block k (
            with_run k (record {
              table = table;
              lock_acquired = taken;
              lane_acquired = on_lane;
              ran = ran;
            }))).table
          on_lane
  run-Free table taken on_lane ran h held needed =
      with_run-IsFree k works timely.apart (lock_end k) (lane_end k) table taken on_lane ran h
        (perform_all-IsHeld table k.during k.lock.job_name (lock_end k) timely.lock_kept held)
        (kept on_lane needed)
    where
      kept : (b : Bool) → Needed b table → Needed b (perform_all table k.during)
      kept false needed = tt
      kept true (inl off) = inl off
      kept true (inr lane) =
          inr (perform_all-IsHeld table k.during k.lane.job_name (lane_end k) timely.lane_kept lane)

  -- The lane is acquired, and the lock stays held.
  abbrev KeepsLock : Table × Bool → Type 0
  KeepsLock (t, taken) = taken ≡ true → IsHeld t k.lock.job_name (lock_end k) × Needed true t

  lane-KeepsLock :
      (table : Table) (b : Bool)
      → k.lane_enabled ≡ b
      → IsHeld table k.lock.job_name (lock_end k)
      → KeepsLock (
          if not b
          then (table, true)
          else acquire_job_lock k.strict table k.lane (k.clock lane_call))
  unfolding perform
  lane-KeepsLock table false off held = λ taken. (held, inl off)
  lane-KeepsLock table true on held = λ taken. (
    perform-IsHeld table (attempt k.strict k.lane (k.clock lane_call)) k.lock.job_name (lock_end k)
        timely.lane_in_time held,
    inr (acquire-IsHeld k.strict table k.lane (k.clock lane_call) taken),
  )

  acquire_lane-KeepsLock :
      (table : Table) → IsHeld table k.lock.job_name (lock_end k) → KeepsLock (acquire_lane k table)
  unfolding acquire_lane
  acquire_lane-KeepsLock table held = lane-KeepsLock table k.lane_enabled refl held

  on_lane-Free :
      (table : Table) (taken on : Bool)
      → taken ≡ true
      → KeepsLock (table, on)
      → (on_lane k
          (record { table = table; lock_acquired = taken; lane_acquired = on; ran = false })
          on).0.ran
        ≡ true
      → IsFreed k
          (catch_block k (
            on_lane k
              (record { table = table; lock_acquired = taken; lane_acquired = on; ran = false })
              on)).table
  unfolding on_lane
  on_lane-Free table taken true h keeps ran =
      let (held, needed) = keeps refl in
      let (inactive, lane) = run-Free table taken true false h held needed in
      (inactive, elim lane [ inl off ↦ absurd (ground (arith, off)) | inr free ↦ inr free ])
  on_lane-Free table taken false h keeps ran = absurd (ground (arith, busy-ran k _ _, ran))

  abbrev locked_state : Table → Bool → State
  locked_state table taken = record {
    table = table;
    lock_acquired = taken;
    lane_acquired = false;
    ran = false;
  }

  module _ (table : Table) (taken : Bool) (h : taken ≡ true)
      (held : IsHeld table k.lock.job_name (lock_end k)) where
    on_lane_call-Free :
        (call : Option String)
        → (on_lane_call k (locked_state table taken) call).0.ran ≡ true
        → IsFreed k (catch_block k (on_lane_call k (locked_state table taken) call)).table
    unfolding on_lane_call
    on_lane_call-Free (some message) ran = absurd (ground (arith, ran))
    on_lane_call-Free none ran =
        on_lane-Free (acquire_lane k table).0 taken (acquire_lane k table).1 h
          (acquire_lane-KeepsLock table held) ran

    with_lane-Free :
        (with_lane k (locked_state table taken)).0.ran ≡ true
        → IsFreed k (catch_block k (with_lane k (locked_state table taken))).table
    unfolding with_lane
    with_lane-Free ran = of_use k.use_koios_heavy_lane refl ran
      where
        of_use :
            (used : Bool)
            → k.use_koios_heavy_lane ≡ used
            → let ended =
                if not used
                then with_run k (locked_state table taken)
                else on_lane_call k (locked_state table taken) (k.fails lane_call) in
              ended.0.ran ≡ true → IsFreed k (catch_block k ended).table
        of_use true used ran = on_lane_call-Free (k.fails lane_call) ran
        of_use false unused ran = ((run-Free table taken false false h held tt).0, inl unused)

  on_lock-Free :
      (table : Table) (taken : Bool)
      → (taken ≡ true → IsHeld table k.lock.job_name (lock_end k))
      → (on_lock k (locked_state table taken) taken).0.ran ≡ true
      → IsFreed k (catch_block k (on_lock k (locked_state table taken) taken)).table
  unfolding on_lock
  on_lock-Free table true held ran = with_lane-Free table true refl (held refl) ran
  on_lock-Free table false held ran = absurd (ground (arith, ran))

  on_lock_call-Free :
      (table : Table) (call : Option String)
      → (on_lock_call k (start table) call).0.ran ≡ true
      → IsFreed k (catch_block k (on_lock_call k (start table) call)).table
  unfolding on_lock_call
  on_lock_call-Free table (some message) ran = absurd (ground (arith, ran))
  on_lock_call-Free table none ran =
      on_lock-Free _ _ (acquire-IsHeld k.strict table k.lock (k.clock acquire_call)) ran

  after_answer-Free :
      (table : Table) (answer : Option Answer)
      → (after_answer k (start table) answer).0.ran ≡ true
      → IsFreed k (catch_block k (after_answer k (start table) answer)).table
  unfolding after_answer with_lock
  after_answer-Free table none ran = on_lock_call-Free table (k.fails acquire_call) ran
  after_answer-Free table (some (answered true)) ran =
      on_lock_call-Free table (k.fails acquire_call) ran
  after_answer-Free table (some (answered false)) ran = absurd (ground (arith, ran))
  after_answer-Free table (some (raised message)) ran = absurd (ground (arith, ran))

  if-Free :
      (b : Bool) (s t : State × Ended)
      → s.0.ran ≡ false
      → (t.0.ran ≡ true → IsFreed k (catch_block k t).table)
      → (if b then s else t).0.ran ≡ true
      → IsFreed k (catch_block k (if b then s else t)).table
  if-Free true s t idle free ran = absurd (ground (arith, idle, ran))
  if-Free false s t idle free ran = free ran

  -- A tick that ran its job leaves neither the job's lock nor the heavy lane active, whether the run
  -- ended or threw, if no release throws and the run kept within the leases that it took.
  pub tick_frees :
      (is_running : Bool) (table : Table)
      → (tick k is_running table).0.ran ≡ true
      → IsFreed k (tick k is_running table).0.table
  unfolding tick try_block
  tick_frees true table ran = absurd (ground (arith, ran))
  tick_frees false table ran =
      let go = after_answer k (start table) k.before_acquire in
      let stopped : State × Ended = (start table, Ended.returned) in
      let koios = k.skip_koios_pressure && k.koios_skips in
      if-Free (k.skip_db_pressure && k.db_skips) stopped (if koios then stopped else go) refl
        (if-Free koios stopped go refl (after_answer-Free table k.before_acquire))
        (sym (catch-ran k (try_block k (start table))) ∙ ran)
