-- ===== src/Jobs/Release.antt =====
-- How a run gives back the lock and the lane, when it ends and when it throws.
use cgov_api.Prelude.{
  ◌or_else◌, ℕ, ◌≡◌, ◌≢◌, refl, sym, ap, ◌∙◌, Bool, true, false, Option, none, some, String,
  Bool-cases, inl, inr, ◌⊎◌, arith, if◌then◌else◌, not,
}
use cgov_api.Lock.{Table, ReleaseResult, success, failed, release_job_lock, is_job_lock_active}
use cgov_api.Lock.Lease.{IsHeld, IsHeld-transfer, perform_all}
use cgov_api.Lock.Exclusion.{release_frees, same_row-active}
use cgov_api.Jobs.{
  lock_given_back, lane_given_back, give_up_lane, give_up_lock, lane_given_up, lock_given_up,
  with_run, Call, release_call, lane_release_call, failed_lane_call, failed_release_call, Tick,
  State, RunEnd, finished, threw, call_ended, release_call_of, release_lane, after_release,
  after_run, catch_block,
}

-- No release throws for a reason of the database.
pub record ReleasesWork (k : Tick) : Type 0 where
  pub lock_release : k.fails release_call ≡ none
  pub lane_release : k.fails lane_release_call ≡ none
  pub failed_lane : k.fails failed_lane_call ≡ none
  pub failed_release : k.fails failed_release_call ≡ none

-- What a release does to the table.
record Freed (job : String) (table t : Table) : Type 0 where
  pub inactive : is_job_lock_active t job ≡ false
  pub others : (j : String) → j ≢ job → t j ≡ table j

module _ (k : Tick) (c : Call) (works : k.fails c ≡ none) (result : ReleaseResult)
    (error : Option String) (table : Table) where
  call_frees :
      (job : String) (items : Option ℕ) (e : ℕ)
      → IsHeld table job e
      → (t : Table) × (release_call_of k c job result items error table ≡ some t)
        × Freed job table t
  unfolding release_call_of
  call_frees job items e held =
      let (t, released, inactive, others) =
        release_frees table job result items error (k.clock c) e held in
      (
        t,
        ap (λ f. call_ended f (release_job_lock table job result items error (k.clock c))) works
            ∙ released,
        record { inactive = inactive; others = others },
      )

  open_lane :
      (b : Bool)
      → k.lane_enabled ≡ b
      → release_lane k c result error table ≡ (
          if not b then some table else release_call_of k c k.lane.job_name result none error table)
  unfolding release_lane
  open_lane b e =
      ap
        (λ b.
          if not b then some table else release_call_of k c k.lane.job_name result none error table)
        e

  -- Without the lane nothing changes.
  lane_call_frees :
      (e : ℕ)
      → (k.lane_enabled ≡ false) ⊎ IsHeld table k.lane.job_name e
      → (t : Table) × (release_lane k c result error table ≡ some t)
        × ((j : String) → j ≢ k.lane.job_name → t j ≡ table j)
        × ((k.lane_enabled ≡ false) ⊎ (is_job_lock_active t k.lane.job_name ≡ false))
  unfolding release_lane
  lane_call_frees e (inl off) = (table, open_lane false off, (λ j ne. refl), inl off)
  lane_call_frees e (inr held) = elim (Bool-cases k.lane_enabled) [
    | inr off ↦ (table, open_lane false off, (λ j ne. refl), inl off)
    | inl on ↦
        let (t, released, freed) = call_frees k.lane.job_name none e held in
        (t, open_lane true on ∙ released, freed.others, inr freed.inactive)
  ]

module _ (k : Tick) (works : ReleasesWork k) (apart : k.lane.job_name ≢ k.lock.job_name)
    (e e' : ℕ) where
  abbrev running : Table → Bool → State
  running table on_lane = record {
    table = table;
    lock_acquired = true;
    lane_acquired = on_lane;
    ran = true;
  }

  abbrev pub LaneHeld : Table → Type 0
  LaneHeld table = (k.lane_enabled ≡ false) ⊎ IsHeld table k.lane.job_name e'

  abbrev pub LaneNeeded : Bool → Table → Type 0
  LaneNeeded false table = Unit {0}
  LaneNeeded true table = LaneHeld table

  -- Neither the lock nor a lane that was acquired is active.
  abbrev pub IsFree : Table → Bool → Type 0
  IsFree table on_lane =
      (is_job_lock_active table k.lock.job_name ≡ false)
      × ((on_lane ≡ false)
          ⊎ (k.lane_enabled ≡ false)
          ⊎ (is_job_lock_active table k.lane.job_name ≡ false))

  LaneHeld-transfer :
      (table t : Table) → t k.lane.job_name ≡ table k.lane.job_name → LaneHeld table → LaneHeld t
  LaneHeld-transfer table t same (inl off) = inl off
  LaneHeld-transfer table t same (inr held) = inr (IsHeld-transfer same held)

  finished-IsFree :
      (table : Table) (on_lane : Bool) (items : Option ℕ) (result : Option ReleaseResult)
      → IsHeld table k.lock.job_name e
      → LaneNeeded on_lane table
      → IsFree
          (catch_block k (after_run k (running table on_lane) (finished items result))).table
          on_lane
  unfolding catch_block after_run lock_given_back after_release lane_given_back
  finished-IsFree table false items result held lane =
      let (t, released, freed) =
        call_frees k release_call works.lock_release (result or_else success) none table
          k.lock.job_name (some (items or_else 0)) e held in
      rw released (freed.inactive, inl refl)
  finished-IsFree table true items result held lane =
      let (t, released, freed) =
        call_frees k release_call works.lock_release (result or_else success) none table
          k.lock.job_name (some (items or_else 0)) e held in
      let (u, lane_released, others, lane_free) =
        lane_call_frees k lane_release_call works.lane_release success none t e'
          (LaneHeld-transfer table t (freed.others k.lane.job_name apart) lane) in
      rw (released, lane_released)
        (
          same_row-active t u k.lock.job_name (others k.lock.job_name (λ q. apart (sym q)))
              ∙ freed.inactive,
          inr lane_free,
        )

  still_free :
      (t u : Table)
      → (k.lane_enabled ≡ false) ⊎ (is_job_lock_active t k.lane.job_name ≡ false)
      → u k.lane.job_name ≡ t k.lane.job_name
      → (k.lane_enabled ≡ false) ⊎ (is_job_lock_active u k.lane.job_name ≡ false)
  still_free t u (inl off) same = inl off
  still_free t u (inr free) same = inr (same_row-active t u k.lane.job_name same ∙ free)

  threw-IsFree :
      (table : Table) (on_lane : Bool) (message : String)
      → IsHeld table k.lock.job_name e
      → LaneNeeded on_lane table
      → IsFree (catch_block k (after_run k (running table on_lane) (threw message))).table on_lane
  unfolding catch_block after_run give_up_lane give_up_lock lane_given_up lock_given_up
  threw-IsFree table false message held lane =
      let (t, released, freed) =
        call_frees k failed_release_call works.failed_release failed (some message) table
          k.lock.job_name none e held in
      rw released (freed.inactive, inl refl)
  threw-IsFree table true message held lane =
      let (t, lane_released, others, lane_free) =
        lane_call_frees k failed_lane_call works.failed_lane failed (some message) table e' lane in
      let (u, released, freed) =
        call_frees k failed_release_call works.failed_release failed (some message) t
          k.lock.job_name none e
          (IsHeld-transfer (others k.lock.job_name (λ q. apart (sym q))) held) in
      rw (lane_released, released)
        (freed.inactive, inr (still_free t u lane_free (freed.others k.lane.job_name apart)))

  after_run-IsFree :
      (table : Table) (on_lane : Bool) (end : RunEnd)
      → IsHeld table k.lock.job_name e
      → LaneNeeded on_lane table
      → IsFree (catch_block k (after_run k (running table on_lane) end)).table on_lane
  after_run-IsFree table on_lane (finished items result) held lane =
      finished-IsFree table on_lane items result held lane
  after_run-IsFree table on_lane (threw message) held lane =
      threw-IsFree table on_lane message held lane

  pub with_run-IsFree :
      (table : Table) (taken on_lane ran : Bool)
      → taken ≡ true
      → IsHeld (perform_all table k.during) k.lock.job_name e
      → LaneNeeded on_lane (perform_all table k.during)
      → IsFree
          (catch_block k (
            with_run k (record {
              table = table;
              lock_acquired = taken;
              lane_acquired = on_lane;
              ran = ran;
            }))).table
          on_lane
  unfolding with_run
  with_run-IsFree table true on_lane ran taken held lane =
      after_run-IsFree (perform_all table k.during) on_lane k.run_end held lane
  with_run-IsFree table false on_lane ran taken held lane = absurd (ground (arith, taken))
