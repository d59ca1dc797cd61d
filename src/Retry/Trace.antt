-- ===== src/Retry/Trace.antt =====
-- What the loop of `apiRequestWithRetry` reports and how long it sleeps.
use usezombie.Prelude.{
  ℕ, suc, ◌+◌, ◌-◌, ◌*◌, ◌≤◌, ◌<◌, ◌≡◌, refl, Bool, true, false, Option, none, some, List, [], ◌∷◌,
  ◌++◌, arith,
}
use usezombie.Json.{Json}
use usezombie.Http.{ApiError, Thrown, Outcome, returned, threw}
use usezombie.Retry.{
  RetryReason, announce_retry, Runtime, Attempts, AttemptInfo, Event, attempted, retrying, slept,
  Run, retry_loop, finish, emit_terminal_attempt, status_of, AttemptContext, retry_after_of,
  Options, resolve_retry_runtime, api_request_with_retry,
}
use usezombie.Retry.Backoff.{backoff_delay_jitter}
use usezombie.Retry.Policy.{plan_retry-eq-some}
use usezombie.Retry.Loop.{decision, retry_loop_induction}

abbrev pub sleeps : List Event → ℕ
sleeps [] = 0
sleeps (slept _ ∷ es) = suc (sleeps es)
sleeps (_ ∷ es) = sleeps es

abbrev pub slept_total : List Event → ℕ
slept_total [] = 0
slept_total (slept d ∷ es) = d + slept_total es
slept_total (_ ∷ es) = slept_total es

abbrev pub retries : List Event → ℕ
retries [] = 0
retries (retrying _ ∷ es) = suc (retries es)
retries (_ ∷ es) = retries es

-- The reports of attempts, in order.
abbrev pub reports : List Event → List AttemptInfo
reports [] = []
reports (attempted info ∷ es) = info ∷ reports es
reports (_ ∷ es) = reports es

module _ (precision : ℕ) (cfg : Runtime) (world : Attempts) where
  -- One report, of the last request; one notice and one sleep for each request but the last.
  pub record IsTrace (a : ℕ) (r : Run Json ApiError) : Type 0 where
    pub info : AttemptInfo
    pub one_report : reports r.trace ≡ info ∷ []
    pub of_last : info.attempt ≡ r.requests
    pub counted : info.retry_count ≡ r.requests - 1
    pub is_terminal : info.terminal ≡ true
    pub noticed : retries r.trace + a + 1 ≡ r.requests
    pub waited : sleeps r.trace + a + 1 ≡ r.requests

  module _ (with_attempt : cfg.on_attempt ≡ true) (with_retry : cfg.on_retry ≡ true) where
    finish-IsTrace :
        (o : Outcome Json ApiError) (a : ℕ) (status : Option ℕ)
        → IsTrace a (finish precision cfg world o (a + 1) status)
    unfolding emit_terminal_attempt
    finish-IsTrace o a status = rw with_attempt (record {
      info = record {
        attempt = a + 1;
        status = status;
        duration_ms = world.duration_ms (a + 1);
        retry_count = a + 1 - 1;
        terminal = true;
      };
      one_report = refl;
      of_last = refl;
      counted = refl;
      is_terminal = refl;
      noticed = omega arith;
      waited = omega arith;
    })

    step-IsTrace :
        (a : ℕ) (r : Run Json ApiError) (err : Thrown ApiError) (step : ℕ × List Event)
        → decision precision cfg world (a + 1) err ≡ some step
        → IsTrace (a + 1) r
        → IsTrace a (record r { trace = (step.1 ++ slept step.0 ∷ []) ++ r.trace })
    step-IsTrace a r err step e v =
        let (reason, _, _, same) = plan_retry-eq-some precision err cfg _ _ step e in
        rw (same, with_retry)
          (record {
            info = v.info;
            one_report = v.one_report;
            of_last = v.of_last;
            counted = v.counted;
            is_terminal = v.is_terminal;
            noticed = let n = v.noticed in omega arith;
            waited = let n = v.waited in omega arith;
          })

    retry_loop-IsTrace :
        (fuel a : ℕ) (r : Run Json ApiError)
        → retry_loop precision cfg world fuel a ≡ some r
        → IsTrace a r
    retry_loop-IsTrace =
        retry_loop_induction precision cfg world IsTrace
          (λ a v _. finish-IsTrace (returned v) a (some 200))
          (λ a err _ _. finish-IsTrace (threw err) a (status_of err))
          (λ a err step r _ e v. step-IsTrace a r err step e v)

-- With both hooks given, a call with a valid configuration reports one attempt, the last, with as
-- many retries as there were requests before it; and it gives one notice of a retry and sleeps once
-- for each request but the last.
pub trace_lem :
    (precision : ℕ) (options : Options) (world : Attempts) (cfg : Runtime) (r : Run Json ApiError)
    → resolve_retry_runtime options ≡ some cfg
    → options.on_attempt ≡ true
    → options.on_retry ≡ true
    → api_request_with_retry precision options world ≡ some r
    → IsTrace precision cfg world 0 r
unfolding api_request_with_retry resolve_retry_runtime
trace_lem precision options world cfg r e hook notice ran =
    retry_loop-IsTrace precision cfg world (ground arith) (ground arith) cfg.max_attempts 0 r
      (rw (e, api_request_with_retry) at ran)

module _ (precision : ℕ) (cfg : Runtime) (world : Attempts)
    (below_one : (k : ℕ) → world.random k < precision)
    (no_floor : (k : ℕ) (err : Thrown ApiError)
      → world.outcome k ≡ threw err
      → retry_after_of err ≡ none) where
  IsShort : ℕ → Run Json ApiError → Type 0
  IsShort a r =
      slept_total r.trace + (a + 1) * (cfg.cap_delay_ms * (6 * precision))
      ≤ r.requests * (cfg.cap_delay_ms * (6 * precision))

  announce_retry-slept_total :
      (told : Bool) (ctx : AttemptContext) (reason : RetryReason) (delay : ℕ) (rest : List Event)
      → slept_total ((announce_retry told ctx reason ++ slept delay ∷ []) ++ rest)
        ≡ delay + slept_total rest
  announce_retry-slept_total true ctx reason delay rest = refl
  announce_retry-slept_total false ctx reason delay rest = refl

  step-IsShort :
      (a : ℕ) (err : Thrown ApiError) (step : ℕ × List Event) (r : Run Json ApiError)
      → world.outcome (a + 1) ≡ threw err
      → decision precision cfg world (a + 1) err ≡ some step
      → IsShort (a + 1) r
      → IsShort a (record r { trace = (step.1 ++ slept step.0 ∷ []) ++ r.trace })
  unfolding IsShort
  step-IsShort a err step r o e v =
      let (reason, _, delay, same) = plan_retry-eq-some precision err cfg _ _ step e in
      let jitter =
        backoff_delay_jitter precision cfg.base_delay_ms cfg.cap_delay_ms (a + 1) _
          (below_one (a + 1)) in
      let short : step.0 ≤ cfg.cap_delay_ms * (6 * precision) =
        rw (delay, no_floor (a + 1) err o) jitter.2 in
      rw (same, announce_retry-slept_total cfg.on_retry _ reason step.0 r.trace) (omega arith)

  retry_loop-IsShort :
      (fuel a : ℕ) (r : Run Json ApiError)
      → retry_loop precision cfg world fuel a ≡ some r
      → IsShort a r
  unfolding IsShort emit_terminal_attempt
  retry_loop-IsShort =
      retry_loop_induction precision cfg world IsShort (λ a v _. ground arith)
        (λ a err _ _. ground arith) step-IsShort

-- When no failure carries a Retry-After and the random numbers are below 1, a call with a valid
-- configuration sleeps in all at most 1.2 times the cap for each request but the last.
pub slept_total_bound :
    (precision : ℕ) (options : Options) (world : Attempts) (cfg : Runtime) (r : Run Json ApiError)
    → ((k : ℕ) → world.random k < precision)
    → ((k : ℕ) (err : Thrown ApiError) → world.outcome k ≡ threw err → retry_after_of err ≡ none)
    → resolve_retry_runtime options ≡ some cfg
    → api_request_with_retry precision options world ≡ some r
    → slept_total r.trace + cfg.cap_delay_ms * (6 * precision)
      ≤ r.requests * (cfg.cap_delay_ms * (6 * precision))
unfolding api_request_with_retry IsShort
slept_total_bound precision options world cfg r below_one no_floor e ran =
    let short : IsShort precision cfg world below_one no_floor 0 r =
      retry_loop-IsShort precision cfg world below_one no_floor cfg.max_attempts 0 r
        (rw (e, api_request_with_retry) at ran) in
    omega (arith, short)
