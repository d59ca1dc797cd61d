-- ===== src/Retry/Policy.antt =====
-- `classifyRetryable` and `planRetry`: which failures are retried.
use usezombie.Prelude.{ℕ, ◌≤◌, ◌≡◌, true, false, some, List, arith, Option-cases, inl, inr}
use usezombie.Http.{ApiError, Thrown, api}
use usezombie.Retry.{
  RetryReason, backoff_delay, retry_after_of, announce_retry, classify_status, classify_retryable,
  is_idempotent_method, is_string, Runtime, AttemptContext, Event, plan_retry,
}

-- The gate for server errors: when a failure with a status of 500 or more is retried, and the method
-- is none of GET, PUT, DELETE and HEAD, then the failure's code is "TIMEOUT".
pub plan_retry_safe :
    (precision : ℕ) (err : ApiError) (cfg : Runtime) (ctx : AttemptContext) (random status : ℕ)
    (step : ℕ × List Event)
    → plan_retry precision (api err) cfg ctx random ≡ some step
    → is_idempotent_method cfg.method ≡ false
    → err.status ≡ some status
    → ctx.status ≡ some status
    → 500 ≤ status
    → is_string "TIMEOUT" err.code ≡ true
unfolding plan_retry classify_retryable classify_status
plan_retry_safe precision err cfg ctx random status step e unsafe s s' h = ground arith

-- What a planned retry says of the failure, and what it consists of.
pub plan_retry-eq-some :
    (precision : ℕ) (err : Thrown ApiError) (cfg : Runtime) (ctx : AttemptContext) (random : ℕ)
    (step : ℕ × List Event)
    → plan_retry precision err cfg ctx random ≡ some step
    → (reason : RetryReason) × (classify_retryable err ≡ some reason)
      × (step.0
          ≡ backoff_delay precision cfg.base_delay_ms cfg.cap_delay_ms ctx.attempt
              (retry_after_of err)
              random)
      × (step.1 ≡ announce_retry cfg.on_retry ctx reason)
unfolding plan_retry
plan_retry-eq-some precision err cfg ctx random step e =
    elim (Option-cases (classify_retryable err)) [
      | inl no_reason ↦ absurd (ground arith)
      | inr (reason, found) ↦ (reason, found, ground arith, ground arith)
    ]
