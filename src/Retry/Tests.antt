-- ===== src/Retry/Tests.antt =====
-- Two retries, a rate limit with a limit of its own, and an operation that fails and then returns.
use cgov_api.Prelude.{ℕ, zero, suc, ◌<◌, refl, false, none, some, inl, arith}
use cgov_api.Retry.{
  RetryOptions, RetryError, classify_retry_error, get_max_retries_for_error, fails_fast, returned,
  threw, ok, failed, Environment, with_retry, is_client,
}
use cgov_api.Retry.Attempts.{
  IsPaced, IsRetried, IsEnd, with_retry-IsPaced, ends_at_first_final, override_adds_no_call,
}
use cgov_api.Retry.Delays.{AreShort, waits_bounded}

abbrev options : RetryOptions
options = record {
  max_retries = 2;
  base_delay = 100;
  max_delay = 1000;
  non_429_jitter_max_ms = some 50;
  max_retries_for_rate_limit = some 8;
  max_retries_for_timeouts = none;
  max_retries_for_network_errors = none;
  max_retry_after_ms = some 5000;
}

abbrev too_many : RetryError
too_many = record {
  status = some 429;
  code = "";
  mentions = λ s. false;
  retry_after = none;
  is_unresolved = false;
}

abbrev recovering : Environment ℕ
recovering = record {
  operation = λ i. elim i [ zero ↦ threw too_many | suc n ↦ returned 7 ];
  is_aborted = λ i p. false;
  draw = λ i m. 0;
}

abbrev limited : Environment ℕ
limited = record recovering { operation = λ i. threw too_many }

retried : (k : ℕ) → k < 3 → IsRetried options limited k too_many
unfolding fails_fast classify_retry_error get_max_retries_for_error is_client
retried k h = (refl, refl, omega arith, λ p. refl)

IsRetried-once : (k : ℕ) → k < 1 → IsRetried options recovering k too_many
unfolding fails_fast classify_retry_error get_max_retries_for_error is_client
IsRetried-once zero h = (refl, refl, omega arith, λ p. refl)
IsRetried-once (suc k) h = ground arith

with_retry-IsPaced_example : IsPaced (with_retry options limited) 3
with_retry-IsPaced_example = with_retry-IsPaced options limited

ends_at_first_final_example : IsEnd options recovering (with_retry options recovering) (ok 7) 2 1
ends_at_first_final_example =
    ends_at_first_final options recovering (λ k. too_many) 1 (ok 7) (omega arith) IsRetried-once
      ((λ p. refl), inl (7, refl, refl))

override_adds_no_call_example :
    IsEnd options limited (with_retry options limited) (failed too_many) 3 3
override_adds_no_call_example =
    override_adds_no_call options limited (λ k. too_many) (λ k h. retried k (omega arith))

waits_bounded_example : AreShort options 5000 50 refl refl (with_retry options limited).waits
waits_bounded_example = waits_bounded options 5000 50 refl refl limited (λ i m. omega arith)
