-- ===== src/Retry/Attempts.antt =====
-- How often `withRetry` calls the operation, and what it ends with.
use cgov_api.Prelude.{
  [], ℕ, zero, suc, ◌+◌, ◌≤◌, ◌<◌, ◌≡◌, refl, ap, sym, subst, true, false, Option, none, some, List,
  ◌∷◌, length, Bool-cases, ◌⊎◌, inl, inr, arith,
}
use cgov_api.Retry.{
  RetryOptions, RetryError, classify_retry_error, get_max_retries_for_error, fails_fast, returned,
  threw, Outcome-cases, Result, ok, failed, Run, Point, before_call, in_handler, before_delay,
  before_hook, while_waiting, Environment, handle, retry_loop, with_retry, last_thrown, retry_delay,
  retry_jitter,
}

-- `run` adds at most `left` calls to `calls`, and each call but perhaps the last is followed by
-- one wait.
abbrev pub IsPaced {ℓ} : {A : Type ℓ} → Run A → ℕ → Type 0
IsPaced run most =
    (run.calls ≤ most) × (length run.waits ≤ run.calls) × (run.calls ≤ length run.waits + 1)

suc_plus : (n : ℕ) → suc n ≡ n + 1
suc_plus n = omega arith

step_sum : (a b : ℕ) → a + 1 + b ≡ a + suc b
step_sum a b = omega arith

module _ {ℓ} {A : Type ℓ} (o : RetryOptions) (env : Environment A) where
  open env use {operation, is_aborted}

  handle-IsPaced :
      (attempt : ℕ) (e : RetryError) (calls most : ℕ) (waits : List ℕ) (next : List ℕ → Run A)
      → length waits + 1 ≡ calls
      → calls ≤ most
      → ((w : ℕ) → IsPaced (next (w ∷ waits)) most)
      → IsPaced (handle o env attempt e calls waits next) most
  unfolding handle
  handle-IsPaced attempt e calls most waits next h le paced =
      ground (arith, paced (retry_delay o e attempt + retry_jitter o e (env.draw attempt)))

  loop-IsPaced :
      (left attempt : ℕ) (last : Option RetryError) (calls : ℕ) (waits : List ℕ)
      → length waits ≡ calls
      → IsPaced (retry_loop o env left attempt last calls waits) (calls + left)
  unfolding retry_loop
  loop-IsPaced zero attempt last calls waits h = omega arith
  loop-IsPaced (suc left) attempt last calls waits h =
      elim (Bool-cases (is_aborted attempt before_call)) [
        | inl a ↦ rw a (omega arith)
        | inr a ↦ elim (Outcome-cases (operation attempt)) [
          | inl (x, t) ↦ rw (a, t) (omega arith)
          | inr (e, t) ↦
              rw (a, t)
                (handle-IsPaced attempt e (calls + 1) (calls + suc left) waits
                  (retry_loop o env left (attempt + 1) (some e) (calls + 1)) (omega arith)
                  (omega arith)
                  (λ w.
                    subst
                      (λ m.
                        IsPaced
                          (retry_loop o env left (attempt + 1) (some e) (calls + 1) (w ∷ waits)) m)
                      (step_sum calls left)
                      (loop-IsPaced left (attempt + 1) (some e) (calls + 1) (w ∷ waits)
                        (omega arith))))
        ]
      ]

  -- The attempt throws an error that the handler neither reports at once nor interrupts.
  abbrev pub IsRetried : ℕ → RetryError → Type ℓ
  IsRetried i e =
      (operation i ≡ threw e)
      × (fails_fast e ≡ false)
      × (i < get_max_retries_for_error o (classify_retry_error e))
      × ((p : Point) → is_aborted i p ≡ false)

  step_retried :
      (left i : ℕ) (e : RetryError) (last : Option RetryError) (calls : ℕ) (waits : List ℕ)
      → IsRetried i e
      → (w : ℕ) × (retry_loop o env (suc left) i last calls waits
          ≡ retry_loop o env left (i + 1) (some e) (calls + 1) (w ∷ waits))
  unfolding retry_loop handle
  step_retried left i e last calls waits (t, f, m, a) = (
    retry_delay o e i + retry_jitter o e (env.draw i),
    rw (a before_call, t)
        (rw (a in_handler, f, a before_delay, a before_hook, a while_waiting) (ground (arith, m))),
  )

  -- The operation is called at most once more than `max_retries` says, and every call but perhaps the
  -- last is followed by exactly one wait.
  pub with_retry-IsPaced : IsPaced (with_retry o env) (o.max_retries + 1)
  unfolding with_retry
  with_retry-IsPaced =
      subst (IsPaced (retry_loop o env (o.max_retries + 1) 0 none 0 [])) (omega arith)
        (loop-IsPaced (o.max_retries + 1) 0 none 0 [] refl)

  -- The attempt is the last: it returns, or it throws an error that is reported at once or that has no
  -- retries left.
  abbrev pub IsFinal : ℕ → Result A → Type ℓ
  IsFinal i r =
      ((p : Point) → is_aborted i p ≡ false)
      × (((a : A) × (operation i ≡ returned a) × (r ≡ ok a))
          ⊎ ((e : RetryError) × (operation i ≡ threw e)
              × (r ≡ failed e)
              × ((fails_fast e ≡ true)
                  ⊎ (get_max_retries_for_error o (classify_retry_error e) ≤ i))))

  -- The run ends with `r` after so many more calls and waits.
  abbrev pub IsEnd : Run A → Result A → ℕ → ℕ → Type ℓ
  IsEnd run r calls waits = (run.result ≡ r) × (run.calls ≡ calls) × (length run.waits ≡ waits)

  final_step :
      (left i : ℕ) (last : Option RetryError) (calls : ℕ) (waits : List ℕ) (r : Result A)
      → IsFinal i r
      → IsEnd (retry_loop o env (suc left) i last calls waits) r (calls + 1) (length waits)
  unfolding retry_loop handle
  final_step left i last calls waits r (quiet, inl (a, t, e)) =
      rw (quiet before_call, t) (sym e, refl, refl)
  final_step left i last calls waits r (quiet, inr (e, t, f, inl fast)) =
      rw (quiet before_call, t) (rw (quiet in_handler, fast) (sym f, refl, refl))
  final_step left i last calls waits r (quiet, inr (e, t, f, inr spent)) =
      rw (quiet before_call, t) (rw (quiet in_handler) (ground (arith, spent, f)))

  loop-IsEnd :
      (err : ℕ → RetryError) (n left i j : ℕ) (last : Option RetryError) (calls c : ℕ)
      (waits : List ℕ) (w : ℕ) (r : Result A)
      → n < left
      → j ≡ i + n
      → c ≡ calls + n + 1
      → w ≡ length waits + n
      → ((k : ℕ) → i ≤ k → k < j → IsRetried k (err k))
      → IsFinal j r
      → IsEnd (retry_loop o env left i last calls waits) r c w
  loop-IsEnd err n zero i j last calls c waits w r lt ej ec ew h f = ground arith
  loop-IsEnd err zero (suc left) i j last calls c waits w r lt ej ec ew h f =
      let (result, count, times) =
        final_step left i last calls waits r (subst (λ k. IsFinal k r) (omega arith) f) in
      (result, omega arith, omega arith)
  loop-IsEnd err (suc n) (suc left) i j last calls c waits w r lt ej ec ew h f =
      let (x, e) = step_retried left i (err i) last calls waits (h i (omega arith) (omega arith)) in
      rw e (
        loop-IsEnd err n left (i + 1) j (some (err i)) (calls + 1) c (x ∷ waits) w r (omega arith)
          (omega arith) (omega arith) (omega arith) (λ k low high. h k (omega arith) high) f)

  spent :
      (e f : RetryError) (i calls c : ℕ) (waits : List ℕ) (w : ℕ)
      → e ≡ f
      → c ≡ calls
      → w ≡ length waits
      → IsEnd (retry_loop o env zero i (some e) calls waits) (failed f) c w
  unfolding retry_loop last_thrown
  spent e f i calls c waits w ee ec ew = (ap failed ee, sym ec, sym ew)

  loop_exhausted :
      (err : ℕ → RetryError) (n i j : ℕ) (last : Option RetryError) (calls c : ℕ) (waits : List ℕ)
      (w : ℕ)
      → j ≡ i + n
      → c ≡ calls + n + 1
      → w ≡ length waits + n + 1
      → ((k : ℕ) → i ≤ k → k ≤ j → IsRetried k (err k))
      → IsEnd (retry_loop o env (suc n) i last calls waits) (failed (err j)) c w
  loop_exhausted err zero i j last calls c waits w ej ec ew h =
      let (x, e) = step_retried zero i (err i) last calls waits (h i (omega arith) (omega arith)) in
      rw e (
        spent (err i) (err j) (i + 1) (calls + 1) c (x ∷ waits) w (ap err (omega arith))
          (omega arith) (omega arith))
  loop_exhausted err (suc n) i j last calls c waits w ej ec ew h =
      let (x, e) =
        step_retried (suc n) i (err i) last calls waits (h i (omega arith) (omega arith)) in
      rw e (
        loop_exhausted err n (i + 1) j (some (err i)) (calls + 1) c (x ∷ waits) w (omega arith)
          (omega arith) (omega arith) (λ k low high. h k (omega arith) high))

  -- Attempts that are retried are followed by the next one, until the first that returns, that throws
  -- an error to report at once, or that has no retries left: it gives the result, one call for each
  -- attempt up to it and one wait for each before it.
  pub ends_at_first_final :
      (err : ℕ → RetryError) (n : ℕ) (r : Result A)
      → n ≤ o.max_retries
      → ((k : ℕ) → k < n → IsRetried k (err k))
      → IsFinal n r
      → IsEnd (with_retry o env) r (n + 1) n
  unfolding with_retry
  ends_at_first_final err n r le h f =
      loop-IsEnd err n (o.max_retries + 1) 0 n none 0 (n + 1) [] n r (omega arith) (omega arith)
        (omega arith) (omega arith) (λ k low high. h k high) f

  -- Where every error is of a class whose own limit is above `max_retries`, that limit adds no call: the
  -- operation is called once more than `max_retries` says, and the run waits after the last call too
  -- before it throws the last error.
  pub override_adds_no_call :
      (err : ℕ → RetryError)
      → ((k : ℕ) → k ≤ o.max_retries → IsRetried k (err k))
      → IsEnd
          (with_retry o env)
          (failed (err o.max_retries))
          (o.max_retries + 1)
          (o.max_retries + 1)
  unfolding with_retry
  override_adds_no_call err h =
      subst
        (λ m.
          IsEnd (retry_loop o env m 0 none 0 []) (failed (err o.max_retries)) (o.max_retries + 1)
            (o.max_retries + 1))
        (suc_plus o.max_retries)
        (loop_exhausted err o.max_retries 0 o.max_retries none 0 (o.max_retries + 1) []
          (o.max_retries + 1) (omega arith) (omega arith) (omega arith) (λ k low high. h k high))
