-- ===== src/Jobs/Locked.antt =====
-- A tick runs its job only with the locks it asks for.
use cgov_api.Prelude.{
  if◌then◌else◌, ◌&&◌, ℕ, ◌≤◌, ◌≡◌, refl, sym, ◌∙◌, Bool, true, false, Option, none, some,
  Bool-cases, inl, inr, String, arith, ◌⊎◌,
}
use cgov_api.Lock.{Table, acquire_job_lock}
use cgov_api.Lock.Lease.{IsHeld}
use cgov_api.Lock.Exclusion.{IsHeld-busy}
use cgov_api.Jobs.{
  Tick, State, Ended, returned, thrown, Answer, answered, raised, with_lane, with_lock, try_block,
  catch_block, start, tick, acquire_call, lane_call, after_answer, acquire_lane, busy_given_back,
  lane_given_up, lock_given_up, on_lane, on_lane_call, on_lock, on_lock_call, give_up_lane,
  give_up_lock,
}

lane_given_up-ran : (s : State) (t : Option Table) → (lane_given_up s t).ran ≡ s.ran
unfolding lane_given_up
lane_given_up-ran s none = refl
lane_given_up-ran s (some table) = refl

lock_given_up-ran : (s : State) (t : Option Table) → (lock_given_up s t).ran ≡ s.ran
unfolding lock_given_up
lock_given_up-ran s none = refl
lock_given_up-ran s (some table) = refl

if-ran : (b : Bool) (s t : State) → s.ran ≡ t.ran → (if b then s else t).ran ≡ t.ran
if-ran true s t e = e
if-ran false s t e = refl

pub catch-ran : (k : Tick) (e : State × Ended) → (catch_block k e).ran ≡ e.0.ran
unfolding catch_block give_up_lock give_up_lane
catch-ran k (s, returned) = refl
catch-ran k (s, thrown message) =
    if-ran _ _ (give_up_lane k message s) (lock_given_up-ran (give_up_lane k message s) _)
    ∙ if-ran s.lane_acquired _ s (lane_given_up-ran s _)

pub busy-ran : (k : Tick) (s : State) (t : Option Table) → (busy_given_back k s t).0.ran ≡ s.ran
unfolding busy_given_back
busy-ran k s none = refl
busy-ran k s (some table) = refl

-- The heavy lane is not asked for, or it was acquired on this table.
abbrev pub HasLane : Tick → Table → Type 0
HasLane k table = (k.use_koios_heavy_lane ≡ false) ⊎ ((acquire_lane k table).1 ≡ true)

pub on_lane-HasLane :
    (k : Tick) (s : State) (taken : Bool)
    → s.ran ≡ false
    → (on_lane k s taken).0.ran ≡ true
    → taken ≡ true
unfolding on_lane
on_lane-HasLane k s true idle h = refl
on_lane-HasLane k s false idle h = absurd (ground (arith, busy-ran k s _, idle, h))

pub on_lane_call-HasLane :
    (k : Tick) (s : State) (call : Option String)
    → s.ran ≡ false
    → (on_lane_call k s call).0.ran ≡ true
    → (acquire_lane k s.table).1 ≡ true
unfolding on_lane_call
on_lane_call-HasLane k s (some message) idle h = absurd (ground (arith, idle, h))
on_lane_call-HasLane k s none idle h = on_lane-HasLane k _ _ idle h

with_lane-HasLane :
    (k : Tick) (s : State) → s.ran ≡ false → (with_lane k s).0.ran ≡ true → HasLane k s.table
unfolding with_lane
with_lane-HasLane k s idle h = elim (Bool-cases k.use_koios_heavy_lane) [
  | inl used ↦ inr (on_lane_call-HasLane k s (k.fails lane_call) idle (ground (arith, used, h)))
  | inr unused ↦ inl unused
]

-- The lock was acquired on the table, and then the lane if it is asked for.
abbrev pub IsLocked : Tick → Table → Type 0
IsLocked k table =
    let (table', taken) = acquire_job_lock k.strict table k.lock (k.clock acquire_call) in
    (taken ≡ true) × HasLane k table'

pub on_lock-IsLocked :
    (k : Tick) (s : State) (taken : Bool)
    → s.ran ≡ false
    → (on_lock k s taken).0.ran ≡ true
    → (taken ≡ true) × HasLane k s.table
unfolding on_lock
on_lock-IsLocked k s true idle h = (refl, with_lane-HasLane k s idle h)
on_lock-IsLocked k s false idle h = absurd (ground (arith, idle, h))

on_lock_call-IsLocked :
    (k : Tick) (s : State) (call : Option String)
    → s.ran ≡ false
    → (on_lock_call k s call).0.ran ≡ true
    → IsLocked k s.table
unfolding on_lock_call
on_lock_call-IsLocked k s (some message) idle h = absurd (ground (arith, idle, h))
on_lock_call-IsLocked k s none idle h = on_lock-IsLocked k _ _ idle h

-- The test before the lock is not there, or it says to go on.
abbrev pub Proceeds : Option Answer → Type 0
Proceeds none = Unit {0}
Proceeds (some (answered proceed)) = proceed ≡ true
Proceeds (some (raised message)) = ⊥

after_answer-IsLocked :
    (k : Tick) (s : State) (answer : Option Answer)
    → s.ran ≡ false
    → (after_answer k s answer).0.ran ≡ true
    → Proceeds answer × IsLocked k s.table
unfolding after_answer with_lock
after_answer-IsLocked k s none idle h = (tt, on_lock_call-IsLocked k s _ idle h)
after_answer-IsLocked k s (some (answered true)) idle h = (refl, on_lock_call-IsLocked k s _ idle h)
after_answer-IsLocked k s (some (answered false)) idle h = absurd (ground (arith, idle, h))
after_answer-IsLocked k s (some (raised message)) idle h = absurd (ground (arith, idle, h))

-- A job is run only by a tick that found none running here, that no guard stopped, and that acquired
-- the job's lock and, if it asks for it, the heavy lane.
pub tick-IsLocked :
    (k : Tick) (is_running : Bool) (table : Table)
    → (tick k is_running table).0.ran ≡ true
    → (is_running ≡ false)
      × ((k.skip_db_pressure && k.db_skips) ≡ false)
      × ((k.skip_koios_pressure && k.koios_skips) ≡ false)
      × Proceeds k.before_acquire
      × IsLocked k table
unfolding tick try_block
tick-IsLocked k true table h = absurd (ground (arith, h))
tick-IsLocked k false table h =
    let ran = sym (catch-ran k (try_block k (start table))) ∙ h in
    elim (Bool-cases (k.skip_db_pressure && k.db_skips)) [
      | inl skip ↦ absurd (ground (arith, skip, ran))
      | inr db ↦ elim (Bool-cases (k.skip_koios_pressure && k.koios_skips)) [
        | inl skip ↦ absurd (ground (arith, db, skip, ran))
        | inr koios ↦
            let (proceeds, locked) =
              after_answer-IsLocked k (start table) k.before_acquire refl
                (ground (arith, db, koios, ran)) in
            (refl, db, koios, proceeds, locked)
      ]
    ]

-- While another instance holds the job's lock, up to the end of its lease, a tick does not run the job.
pub held_lock_skips :
    (k : Tick) (is_running : Bool) (table : Table) (e : ℕ)
    → IsHeld table k.lock.job_name e
    → k.clock acquire_call ≤ e
    → (tick k is_running table).0.ran ≡ false
held_lock_skips k is_running table e held before =
    elim (Bool-cases (tick k is_running table).0.ran) [
      | inl ran ↦
          let (_, _, _, _, locked) = tick-IsLocked k is_running table ran in
          let busy = IsHeld-busy k.strict table k.lock (k.clock acquire_call) e held before in
          absurd (ground (arith, locked.0, busy))
      | inr idle ↦ idle
    ]
