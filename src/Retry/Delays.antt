-- ===== src/Retry/Delays.antt =====
-- How long `withRetry` of src/services/ingestion/utils.ts waits.
use cgov_api.Prelude.{
  [], ℕ, zero, suc, ◌+◌, ◌≤◌, ◌≡◌, max, Option, none, some, List, ◌∷◌, All, Bool-cases, inl, inr,
  arith,
}
use cgov_api.Prelude.Int.{pos, negsuc}
use cgov_api.Retry.{
  RetryOptions, RetryError, Run, Environment, before_call, handle, retry_loop, with_retry,
  retry_delay, retry_jitter, delay_after, jitter_of, capped_after, Outcome-cases,
}

module _ (o : RetryOptions) (cap jitter : ℕ) (capped : o.max_retry_after_ms ≡ some cap)
    (spread : o.non_429_jitter_max_ms ≡ some jitter) where
  abbrev longest : ℕ
  longest = max o.max_delay cap + jitter

  abbrev pub AreShort : List ℕ → Type 0
  AreShort = All (λ w. w ≤ longest)

  retry_delay_le : (e : RetryError) (attempt : ℕ) → retry_delay o e attempt ≤ max o.max_delay cap
  unfolding retry_delay delay_after capped_after
  retry_delay_le e attempt = elim e.retry_after [
    | none ↦ ground arith
    | some (negsuc n) ↦ ground arith
    | some (pos n) ↦ rw capped (ground arith)
  ]

  retry_jitter_le :
      (e : RetryError) (draw : ℕ → ℕ) → ((m : ℕ) → draw m ≤ m) → retry_jitter o e draw ≤ jitter
  unfolding retry_jitter jitter_of
  retry_jitter_le e draw fair = rw spread (ground (arith, fair jitter))

  module _ {ℓ} {A : Type ℓ} (env : Environment A) (fair : (i m : ℕ) → env.draw i m ≤ m) where
    handle_bounded :
        (attempt : ℕ) (e : RetryError) (calls : ℕ) (waits : List ℕ) (next : List ℕ → Run A)
        → AreShort waits
        → ((w : ℕ) → w ≤ longest → AreShort (next (w ∷ waits)).waits)
        → AreShort (handle o env attempt e calls waits next).waits
    unfolding handle
    handle_bounded attempt e calls waits next ws bounded = ground (
      arith,
      bounded (retry_delay o e attempt + retry_jitter o e (env.draw attempt)) (
          omega
            (arith, retry_delay_le e attempt, retry_jitter_le e (env.draw attempt) (fair attempt))),
      ws,
    )

    loop_bounded :
        (left attempt : ℕ) (last : Option RetryError) (calls : ℕ) (waits : List ℕ)
        → AreShort waits
        → AreShort (retry_loop o env left attempt last calls waits).waits
    unfolding retry_loop
    loop_bounded zero attempt last calls waits ws = ws
    loop_bounded (suc left) attempt last calls waits ws =
        elim (Bool-cases (env.is_aborted attempt before_call)) [
          | inl a ↦ rw a ws
          | inr a ↦ elim (Outcome-cases (env.operation attempt)) [
            | inl (x, t) ↦ rw (a, t) ws
            | inr (e, t) ↦
                rw (a, t)
                  (handle_bounded attempt e (calls + 1) waits
                    (retry_loop o env left (attempt + 1) (some e) (calls + 1)) ws
                    (λ w short.
                      loop_bounded left (attempt + 1) (some e) (calls + 1) (w ∷ waits) (short, ws)))
          ]
        ]

    -- With a cap on `Retry-After` and a draw within the jitter's bound, no wait is longer than the
    -- longer of the cap and the largest delay, and the largest jitter on top.
    pub waits_bounded : AreShort (with_retry o env).waits
    unfolding with_retry
    waits_bounded = loop_bounded (o.max_retries + 1) 0 none 0 [] tt
