-- ===== src/Limiter/Burst/Tests.antt =====
-- Two requests in each window of 10.
use cgov_api.Prelude.{[], ℕ, ◌+◌, ◌≤◌, ◌≡◌, ◌≢◌, refl, none, some, List, ◌∷◌, length, arith}
use cgov_api.Limiter.Burst.{BurstLimiter, trim, to_wait, acquire, acquire_many, fresh}
use cgov_api.Limiter.Burst.Window.{IsMonotone, IsSpaced}
use cgov_api.Limiter.Burst.Rate.{acquire_many_rate, acquire_returns}

-- The third call finds the window full at 3, and waits until 11.
abbrev clock : List ℕ
clock = 1 ∷ 1 ∷ 2 ∷ 2 ∷ 3 ∷ 11 ∷ 12 ∷ []

clock-IsMonotone : IsMonotone 0 clock
clock-IsMonotone = (
  omega arith,
  (omega arith, (omega arith, (omega arith, (omega arith, (omega arith, (omega arith, tt)))))),
)

abbrev stamps : List ℕ
stamps = 1 ∷ 2 ∷ 12 ∷ []

granted : acquire_many 3 (fresh 2 10) clock [] ≡ some stamps
unfolding acquire_many fresh
granted = refl

acquire_many_rate_example : IsSpaced 2 10 stamps × (length stamps ≡ 3)
acquire_many_rate_example = acquire_many_rate 3 2 10 clock stamps clock-IsMonotone granted

abbrev full : BurstLimiter
full = record { max_requests = 2; window_ms = 10; timestamps = 1 ∷ 2 ∷ [] }

asked : 3 + to_wait 10 3 (trim 10 3 (1 ∷ 2 ∷ [])) ≤ 11
unfolding to_wait trim
asked = omega arith

acquire_returns_example : acquire full (3 ∷ 11 ∷ 12 ∷ []) ≢ none
acquire_returns_example = acquire_returns full 3 11 12 [] (omega arith) (omega arith) asked
