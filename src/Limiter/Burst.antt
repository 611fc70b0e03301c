-- ===== src/Limiter/Burst.antt =====
-- `BurstLimiter` of src/services/koios/limiters.ts. The reservations run one after another (the
-- promise chain), so a limiter is the list of its timestamps, oldest first. The clock is the list of
-- its successive readings; a loop whose readings run out has not ended.
pub mod Window
pub mod Rate
mod Tests
use cgov_api.Prelude.{
  [], ℕ, zero, suc, ◌+◌, ◌-◌, Option, none, some, List, ◌∷◌, ◌++◌, length, ltb, leb, max,
  if◌then◌else◌,
}

pub record BurstLimiter : Type 0 where
  pub max_requests : ℕ
  pub window_ms : ℕ
  pub timestamps : List ℕ

-- `while (… now - this.timestamps[0] >= this.windowMs) this.timestamps.shift()`
pub trim : ℕ → ℕ → List ℕ → List ℕ
trim window now [] = []
trim window now (t ∷ ts) =
    let rest = trim window now ts in if leb (t + window) now then rest else t ∷ ts

-- `Math.max(1, this.windowMs - (now - oldest))`; `oldest` is missing only if nothing is allowed at
-- all, and the wait is then not a number, which `setTimeout` takes for 1.
pub to_wait : ℕ → ℕ → List ℕ → ℕ
to_wait window now [] = 1
to_wait window now (oldest ∷ ts) = max 1 (window + oldest - now)

-- The loop of `acquire`: each round reads the clock, and the round that succeeds reads it again for
-- the timestamp. It gives the timestamps, the readings that are left and the time waited.
pub acquire_loop : ℕ → ℕ → List ℕ → List ℕ → ℕ → Option (List ℕ × List ℕ × ℕ)
unfolding trim to_wait
acquire_loop limit window ts [] waited = none
acquire_loop limit window ts (now ∷ []) waited = none
acquire_loop limit window ts (now ∷ stamp ∷ clock) waited =
    let kept = trim window now ts in
    let again = acquire_loop limit window kept (stamp ∷ clock) (waited + to_wait window now kept) in
    if ltb (length kept) limit then some (kept ++ stamp ∷ [], clock, waited) else again

unfoldable pub acquire : BurstLimiter → List ℕ → Option (BurstLimiter × List ℕ × ℕ)
unfolding acquire_loop
acquire l clock = elim (acquire_loop l.max_requests l.window_ms l.timestamps clock 0) [
  | none ↦ none
  | some (ts, rest, waited) ↦ some (record l { timestamps = ts }, rest, waited)
]

newest : List ℕ → ℕ
newest [] = 0
newest (t ∷ []) = t
newest (t ∷ u ∷ ts) = newest (u ∷ ts)

-- Several calls, one after another: the timestamps that they were granted, behind `stamps`.
pub acquire_many : ℕ → BurstLimiter → List ℕ → List ℕ → Option (List ℕ)
unfolding acquire newest
acquire_many zero l clock stamps = some stamps
acquire_many (suc n) l clock stamps = elim (acquire l clock) [
  | none ↦ none
  | some (l', rest, waited) ↦ acquire_many n l' rest (stamps ++ newest l'.timestamps ∷ [])
]

-- `new BurstLimiter(maxRequests, windowMs)`
pub fresh : ℕ → ℕ → BurstLimiter
fresh limit window = record { max_requests = limit; window_ms = window; timestamps = [] }
