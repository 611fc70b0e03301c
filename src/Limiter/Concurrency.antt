-- ===== src/Limiter/Concurrency.antt =====
-- `ConcurrencyLimiter` of src/services/koios/limiters.ts, with its event loop: a waiter whose promise
-- `release` has resolved goes on in a later turn, and other tasks may run before. The most that may
-- run is a number or a function, which is called at each `acquire` and whose answer may change, as
-- that of the adaptive cap in src/services/koios.ts does; here it is given the time of the call.
pub mod Admission
mod Tests
use cgov_api.Prelude.{[], ℕ, ◌+◌, ◌-◌, List, ◌∷◌, ◌++◌, leb, max, if◌then◌else◌}

pub data MaxConcurrent : Type 0 where
  constant : ℕ → MaxConcurrent
  computed : (ℕ → ℕ) → MaxConcurrent

configured : MaxConcurrent → ℕ → ℕ
configured (constant n) now = n
configured (computed f) now = f now

-- A task is its number; `woken` are the tasks that are resolved and have not gone on.
pub record Limiter : Type 0 where
  pub max_concurrent : MaxConcurrent
  pub active_count : ℕ
  pub queue : List ℕ
  pub woken : List ℕ

-- `Math.max(1, Math.floor(configured))`, of a whole number.
pub get_max_concurrent : MaxConcurrent → ℕ → ℕ
unfolding configured
get_max_concurrent m now = max 1 (configured m now)

-- `acquire` up to its first pause: the task is counted at once, or queued.
pub acquire : Limiter → ℕ → ℕ → Limiter
unfolding get_max_concurrent
acquire l now task =
    if leb (get_max_concurrent l.max_concurrent now) l.active_count
    then record l { queue = l.queue ++ task ∷ [] }
    else record l { active_count = l.active_count + 1 }

-- `acquire` behind its pause, where it does not ask again.
pub resume : Limiter → Limiter
resume l = elim l.woken [
  | [] ↦ l
  | task ∷ tasks ↦ record l { active_count = l.active_count + 1; woken = tasks }
]

pub release : Limiter → Limiter
release l = elim l.queue [
  | [] ↦ record l { active_count = l.active_count - 1 }
  | task ∷ tasks ↦ record l {
    active_count = l.active_count - 1;
    queue = tasks;
    woken = l.woken ++ task ∷ [];
  }
]

pub data Turn : Type 0 where
  starts : (now task : ℕ) → Turn
  ends resumes : Turn

pub turn : Limiter → Turn → Limiter
unfolding acquire release resume
turn l (starts now task) = acquire l now task
turn l ends = release l
turn l resumes = resume l

pub run : Limiter → List Turn → Limiter
unfolding turn
run l [] = l
run l (t ∷ ts) = run (turn l t) ts

-- `new ConcurrencyLimiter(name, maxConcurrent)`
pub fresh : MaxConcurrent → Limiter
fresh m = record { max_concurrent = m; active_count = 0; queue = []; woken = [] }
