-- ===== src/Retry.antt =====
-- `withRetry` of src/services/ingestion/utils.ts. The operation, the abort signal and the random
-- jitter are parameters: what the operation does on each attempt, whether the signal is aborted at
-- each point where the code looks, and the jitter drawn. Hooks do not throw.
pub mod Attempts
pub mod Delays
mod Tests
use text.Mathlib.Text.{◌==◌ as str_eq}
use cgov_api.Prelude.{
  [], ◌≡◌, refl, ◌⊎◌, inl, inr, ℕ, zero, suc, ◌+◌, ◌*◌, ◌^◌, Bool, true, false, Option, none, some,
  String, List, ◌∷◌, ltb, leb, ◌==◌, min, not, ◌&&◌, ◌||◌, ◌or_else◌, if◌then◌else◌,
}
use cgov_api.Prelude.Int.{ℤ, pos, negsuc}

pub record RetryOptions : Type 0 where
  pub max_retries : ℕ
  pub base_delay : ℕ
  pub max_delay : ℕ
  pub non_429_jitter_max_ms : Option ℕ
  pub max_retries_for_rate_limit : Option ℕ
  pub max_retries_for_timeouts : Option ℕ
  pub max_retries_for_network_errors : Option ℕ
  pub max_retry_after_ms : Option ℕ

pub data RetryErrorClass : Type 0 where
  rate_limit timeout network server client unknown : RetryErrorClass

-- What the code reads of an error: the response's status, the code in upper case, whether the message
-- in lower case has a text, the number that `parseInt` reads in `Retry-After`, and the answer of
-- `isDeterministicGitHubUnresolvedError`.
pub record RetryError : Type 0 where
  pub status : Option ℕ
  pub code : String
  pub mentions : String → Bool
  pub retry_after : Option ℤ
  pub is_unresolved : Bool

abbrev pub status_or_zero : RetryError → ℕ
status_or_zero e = e.status or_else 0

classify_by_code : RetryError → RetryErrorClass
classify_by_code e =
    if str_eq e.code "ECONNABORTED"
      || str_eq e.code "ETIMEDOUT"
      || e.mentions "timeout"
      || e.mentions "aborted"
    then timeout
    else if str_eq e.code "ECONNRESET"
        || str_eq e.code "EPIPE"
        || str_eq e.code "ENOTFOUND"
        || str_eq e.code "EAI_AGAIN"
        || str_eq e.code "ECONNREFUSED"
        || e.mentions "socket hang up"
        || e.mentions "fetch failed"
    then network
    else unknown

-- A status that is missing or 0 passes none of the tests.
pub classify_retry_error : RetryError → RetryErrorClass
unfolding classify_by_code
classify_retry_error e =
    let s = status_or_zero e in
    if s == 429
    then rate_limit
    else if leb 500 s
    then server
    else if leb 400 s
    then client
    else classify_by_code e

pub get_max_retries_for_error : RetryOptions → RetryErrorClass → ℕ
get_max_retries_for_error o rate_limit = o.max_retries_for_rate_limit or_else o.max_retries
get_max_retries_for_error o timeout = o.max_retries_for_timeouts or_else o.max_retries
get_max_retries_for_error o network = o.max_retries_for_network_errors or_else o.max_retries
get_max_retries_for_error o server = o.max_retries
get_max_retries_for_error o client = o.max_retries
get_max_retries_for_error o unknown = o.max_retries

is_client : RetryErrorClass → Bool
is_client client = true
is_client _ = false

is_rate_limit : RetryErrorClass → Bool
is_rate_limit rate_limit = true
is_rate_limit _ = false

-- `retryAfterSeconds * 1000`, under the cap if there is one.
capped_after : ℕ → Option ℕ → ℕ
capped_after seconds none = seconds * 1000
capped_after seconds (some cap) = min (seconds * 1000) cap

delay_after : RetryOptions → Option ℤ → ℕ → ℕ
unfolding capped_after
delay_after o none backoff = backoff
delay_after o (some (negsuc n)) backoff = backoff
delay_after o (some (pos n)) backoff =
    if n == 0 then backoff else capped_after n o.max_retry_after_ms

pub retry_delay : RetryOptions → RetryError → ℕ → ℕ
unfolding delay_after is_rate_limit
retry_delay o e attempt =
    let backoff = min (o.base_delay * 2 ^ attempt) o.max_delay in
    if is_rate_limit (classify_retry_error e) then delay_after o e.retry_after backoff else backoff

-- `getRetryJitterMs`, with the draw `floor(Math.random() * (max + 1))` as a function of `max`.
jitter_of : (ℕ → ℕ) → Option ℕ → ℕ
jitter_of draw none = 0
jitter_of draw (some m) = if m == 0 then 0 else draw m

pub retry_jitter : RetryOptions → RetryError → (ℕ → ℕ) → ℕ
unfolding jitter_of
retry_jitter o e draw =
    if status_or_zero e == 429 then 0 else jitter_of draw o.non_429_jitter_max_ms

-- The error is thrown at once: an unresolved repository, or a 4xx other than 429.
pub fails_fast : RetryError → Bool
unfolding is_client
fails_fast e =
    e.is_unresolved
    || is_client (classify_retry_error e)
      && leb 400 (status_or_zero e)
      && ltb (status_or_zero e) 500
      && not (status_or_zero e == 429)

pub data Outcome {ℓ} (A : Type ℓ) : Type ℓ where
  returned : A → Outcome A
  threw : RetryError → Outcome A

pub Outcome-cases {ℓ} :
    {A : Type ℓ} (x : Outcome A) → ((a : A) × (x ≡ returned a)) ⊎ ((e : RetryError) × (x ≡ threw e))
Outcome-cases (returned a) = inl (a, refl)
Outcome-cases (threw e) = inr (e, refl)

pub data Result {ℓ} (A : Type ℓ) : Type ℓ where
  ok : A → Result A
  failed : RetryError → Result A
  aborted : Result A
  -- `lastError || new Error(…)` with no last error
  no_attempt : Result A

-- The result, the number of calls of the operation, and the waits, the last one first.
pub record Run {ℓ} (A : Type ℓ) : Type ℓ where
  pub result : Result A
  pub calls : ℕ
  pub waits : List ℕ

-- Where an attempt looks at the signal: before the call, in the handler, before the delay is
-- computed, before the hook, and while it waits (if it waits at all).
pub data Point : Type 0 where
  before_call in_handler before_delay before_hook while_waiting : Point

pub record Environment {ℓ} (A : Type ℓ) : Type ℓ where
  pub operation : ℕ → Outcome A
  pub is_aborted : ℕ → Point → Bool
  pub draw : ℕ → ℕ → ℕ

module _ {ℓ} {A : Type ℓ} (o : RetryOptions) (env : Environment A) where
  abbrev pub stop : Result A → ℕ → List ℕ → Run A
  stop result calls waits = record { result = result; calls = calls; waits = waits }

  last_thrown : Option RetryError → Result A
  last_thrown none = no_attempt
  last_thrown (some e) = failed e

  -- The handler, up to the end of its wait; `next` is the rest of the loop.
  handle : ℕ → RetryError → ℕ → List ℕ → (List ℕ → Run A) → Run A
  handle attempt e calls waits next =
      let wait = retry_delay o e attempt + retry_jitter o e (env.draw attempt) in
      if env.is_aborted attempt in_handler
      then stop aborted calls waits
      else if fails_fast e
      then stop (failed e) calls waits
      else if leb (get_max_retries_for_error o (classify_retry_error e)) attempt
      then stop (failed e) calls waits
      else if env.is_aborted attempt before_delay
          || env.is_aborted attempt before_hook
          || (env.is_aborted attempt while_waiting && ltb 0 wait)
      then stop aborted calls waits
      else next (wait ∷ waits)

  -- The loop, by the attempts that are left.
  pub retry_loop : ℕ → ℕ → Option RetryError → ℕ → List ℕ → Run A
  unfolding handle last_thrown
  retry_loop zero attempt last calls waits = stop (last_thrown last) calls waits
  retry_loop (suc left) attempt last calls waits =
      if env.is_aborted attempt before_call
      then stop aborted calls waits
      else elim (env.operation attempt) [
        | returned a ↦ stop (ok a) (calls + 1) waits
        | threw e ↦
            handle attempt e (calls + 1) waits (retry_loop left (attempt + 1) (some e) (calls + 1))
      ]

  pub with_retry : Run A
  unfolding retry_loop
  with_retry = retry_loop (o.max_retries + 1) 0 none 0 []
