-- ===== src/Retry/Dashboard/Parity.antt =====
-- How far the dashboard's retries agree with the command line client's, which they say they mirror.
use usezombie.Prelude.{
  ◌==◌, str_eq, ℕ, zero, suc, ◌+◌, ◌≡◌, ◌∙◌, refl, sym, String, false, Option, none, some, List, [],
  ◌∷◌, ◌++◌, arith, Option-cases, inl, inr,
}
use usezombie.Json.{Json, nat, null, bool, num, arr, str, obj, Fields, find_field, nullish}
use usezombie.Http.{
  Thrown, api, js, primitive, JsError, Outcome, returned, threw, Response, or_else, or_value,
  parse_retry_after_header_value,
}
use usezombie.Http
use usezombie.Retry
use usezombie.Retry.{
  is_string, is_retryable_status, attempts_in_range, default_max_attempts, get_or, Run, before,
  has_retry_opt_out, AttemptContext, Event, slept,
}
use usezombie.Http.Envelope.{response_error_problem}
use usezombie.Retry.Dashboard.{
  ApiError, request, responded, ResolvedRetry, Options, Attempts, classify_retryable, plan_retry,
  retry_loop, request_with_retry, resolve_retry_config, status_of,
}

-- The two clients' view of one failure of the server, which does not opt out of retries in its body.
pub record IsSame (d : ApiError) (c : Http.ApiError) : Type 0 where
  pub status : c.status ≡ some d.status
  pub code : is_string "TIMEOUT" c.code ≡ is_string "TIMEOUT" (some d.code)
  pub retry_after : c.retry_after_ms ≡ d.retry_after_ms
  pub no_opt_out : has_retry_opt_out c.body ≡ false

pub data Twins : Outcome (Option Json) ApiError → Outcome Json Http.ApiError → Type 0 where
  both_return : {v : Option Json} {w : Json} → Twins (returned v) (returned w)
  both_api : {d : ApiError} {c : Http.ApiError} → IsSame d c → Twins (threw (api d)) (threw (api c))
  both_js : {e : JsError} → Twins (threw (js e)) (threw (js e))
  both_primitive : Twins (threw primitive) (threw primitive)

-- The same environment, request by request.
pub record IsSameWorld (d : Attempts) (c : Retry.Attempts) : Type 0 where
  pub outcome : (k : ℕ) → Twins (d.outcome k) (c.outcome k)
  pub duration_ms : (k : ℕ) → d.duration_ms k ≡ c.duration_ms k
  pub random : (k : ℕ) → d.random k ≡ c.random k

-- The command line client's options for the dashboard's.
abbrev pub cli_options : Options → Retry.Options
cli_options o = record {
  retry = some (record {
    max_attempts = o.max_attempts;
    base_delay_ms = o.base_delay_ms;
    cap_delay_ms = o.cap_delay_ms;
  });
  method = o.method;
  no_retry = o.no_retry;
  on_attempt = o.on_attempt;
  on_retry = o.on_retry;
}

abbrev cli_runtime : ResolvedRetry → String → Retry.Runtime
cli_runtime cfg method = record {
  max_attempts = cfg.max_attempts;
  base_delay_ms = cfg.base_delay_ms;
  cap_delay_ms = cfg.cap_delay_ms;
  on_attempt = cfg.on_attempt;
  on_retry = cfg.on_retry;
  method = method;
}

classify_api :
    (d : ApiError) (c : Http.ApiError)
    → IsSame d c
    → classify_retryable (api d) ≡ Retry.classify_retryable (api c)
unfolding classify_retryable Retry.classify_retryable Retry.classify_status
classify_api d c s = ground arith

-- One round of the loops: the same delay and the same notice.
plan_api :
    (precision : ℕ) (d : ApiError) (c : Http.ApiError) (cfg : ResolvedRetry) (method : String)
    (ctx : AttemptContext) (random : ℕ)
    → IsSame d c
    → plan_retry precision (api d) cfg method ctx random
      ≡ Retry.plan_retry precision (api c) (cli_runtime cfg method) ctx random
unfolding plan_retry Retry.plan_retry
plan_api precision d c cfg method ctx random s = ground (arith, classify_api d c s)

-- What a caller can see of the two runs agrees.
pub data Agree
    : Option (Run (Option Json) ApiError) → Option (Run Json Http.ApiError) → Type 0 where
  neither : Agree none none
  both :
      {r : Run (Option Json) ApiError} {q : Run Json Http.ApiError}
      → r.requests ≡ q.requests
      → r.trace ≡ q.trace
      → Agree (some r) (some q)

Agree-before :
    {r : Option (Run (Option Json) ApiError)} {q : Option (Run Json Http.ApiError)}
    (events : List Event)
    → Agree r q
    → Agree (before events r) (before events q)
Agree-before events neither = neither
Agree-before events (both n t) = both n (rw t)

-- Both clients decide alike on the two failures.
record IsAlike (e : Thrown ApiError) (f : Thrown Http.ApiError) : Type 0 where
  status : status_of e ≡ Retry.status_of f
  plan :
      (precision : ℕ) (cfg : ResolvedRetry) (method : String) (ctx : AttemptContext) (random : ℕ)
      → plan_retry precision e cfg method ctx random
        ≡ Retry.plan_retry precision f (cli_runtime cfg method) ctx random

data Paired : Outcome (Option Json) ApiError → Outcome Json Http.ApiError → Type 0 where
  succeed : {v : Option Json} {w : Json} → Paired (returned v) (returned w)
  fail : {e : Thrown ApiError} {f : Thrown Http.ApiError} → IsAlike e f → Paired (threw e) (threw f)

Twins-Paired :
    {o : Outcome (Option Json) ApiError} {p : Outcome Json Http.ApiError} → Twins o p → Paired o p
unfolding plan_retry Retry.plan_retry classify_retryable Retry.classify_retryable
Twins-Paired both_return = succeed
Twins-Paired (both_api {d} {c} s) = fail (record {
  status = ground arith;
  plan = λ precision cfg method ctx random. plan_api precision d c cfg method ctx random s;
})
Twins-Paired (both_js {e}) =
    fail (record { status = refl; plan = λ precision cfg method ctx random. refl })
Twins-Paired both_primitive =
    fail (record { status = refl; plan = λ precision cfg method ctx random. refl })

module _ (precision : ℕ) (cfg : ResolvedRetry) (method : String) (d : Attempts) (c : Retry.Attempts)
    (same : IsSameWorld d c) where
  Loops : ℕ → ℕ → Type 0
  Loops fuel a =
      Agree (retry_loop precision cfg method d fuel a)
        (Retry.retry_loop precision (cli_runtime cfg method) c fuel a)

  -- A success, or a failure on which both give up or go on alike.
  round :
      (fuel a : ℕ) {o : Outcome (Option Json) ApiError} {p : Outcome Json Http.ApiError}
      → Paired o p
      → d.outcome (a + 1) ≡ o
      → c.outcome (a + 1) ≡ p
      → Loops fuel (a + 1)
      → Loops (suc fuel) a
  unfolding Loops retry_loop Retry.retry_loop
  round fuel a succeed eo ep rest =
      rw (eo, ep, retry_loop, Retry.retry_loop) (rw (same.duration_ms (a + 1)) (both refl refl))
  round fuel a (fail {e} {f} alike) eo ep rest =
      let ctx : AttemptContext = record {
        attempt = a + 1;
        status = Retry.status_of f;
        duration_ms = c.duration_ms (a + 1);
      } in
      let alike_plan = alike.plan precision cfg method ctx (c.random (a + 1)) in
      rw (eo, ep, retry_loop, Retry.retry_loop)
        (rw (same.duration_ms (a + 1), same.random (a + 1), alike.status)
          (elim (Option-cases
            (Retry.plan_retry precision f (cli_runtime cfg method) ctx (c.random (a + 1)))) [
              | inl stop ↦
                  rw (alike_plan ∙ stop, stop)
                    (both refl (rw (same.duration_ms (a + 1), alike.status)))
              | inr (step, go) ↦
                  rw (alike_plan ∙ go, go) (Agree-before (step.1 ++ slept step.0 ∷ []) rest)
            ]))

  Loops-Agree : (fuel a : ℕ) → Loops fuel a
  unfolding Loops retry_loop Retry.retry_loop
  Loops-Agree zero a = neither
  Loops-Agree (suc fuel) a =
      round fuel a (Twins-Paired (same.outcome (a + 1))) refl refl (Loops-Agree fuel (a + 1))

-- Runs whose failures agree one by one agree.
pub run_parity :
    (precision : ℕ) (options : Options) (d : Attempts) (c : Retry.Attempts)
    → IsSameWorld d c
    → Agree
        (request_with_retry precision options d)
        (Retry.api_request_with_retry precision (cli_options options) c)
unfolding request_with_retry Retry.api_request_with_retry resolve_retry_config
    Retry.resolve_retry_runtime
run_parity precision options d c same =
    elim (Option-cases
      (attempts_in_range (get_or options.max_attempts (nat default_max_attempts)))) [
        | inl bad ↦ rw (bad, request_with_retry, resolve_retry_config) (both refl refl)
        | inr (n, fine) ↦
            rw (fine, request_with_retry, resolve_retry_config)
              (unfold Loops in Loops-Agree precision _ _ d c same _ 0)
      ]

-- A code that is missing is replaced by one that is not "TIMEOUT" either.
coded :
    (code : Option Json)
    → is_string "TIMEOUT" code ≡ false
    → is_string "TIMEOUT" (some (or_value (nullish code) (str "UZ-UNKNOWN"))) ≡ false
coded none h = refl
coded (some null) h = refl
coded (some (bool b)) h = refl
coded (some (num n)) h = refl
coded (some (str s)) h = h
coded (some (arr items)) h = refl
coded (some (obj fs)) h = refl

-- The server's own error bodies are objects with no `error` field. On a response with such a body,
-- where neither `error_code` nor the printed status is "TIMEOUT", the two clients see the same
-- failure: the dashboard throws an `ApiError` that agrees with the command line client's.
pub problem_response-IsSame :
    (rt : Http.Runtime) (res : Response) (fs : Fields)
    → res.ok ≡ false
    → (res.status == 204) ≡ false
    → str_eq res.text "" ≡ false
    → rt.json_parse res.text ≡ some (obj fs)
    → find_field "error" fs ≡ none
    → is_string "TIMEOUT" (find_field "error_code" fs) ≡ false
    → str_eq (rt.show_http res.status) "TIMEOUT" ≡ false
    → (d : ApiError) × (request rt (responded res) ≡ threw (api d))
      × IsSame d (Http.response_error rt res)
unfolding request has_retry_opt_out
problem_response-IsSame rt res fs bad body some_text parsed no_error code shown =
    let error : ApiError = record {
      message =
          or_value (or_else (nullish (find_field "detail" fs)) (nullish (find_field "title" fs)))
            (str res.status_text);
      status = res.status;
      code = or_value (nullish (find_field "error_code" fs)) (str "UZ-UNKNOWN");
      request_id = find_field "request_id" fs;
      retry_after_ms = parse_retry_after_header_value rt res.retry_after;
    } in
    (
      error,
      rw (parsed, request) (rw (body, bad)),
      rw (response_error_problem rt res fs some_text parsed no_error) (record {
        status = refl;
        code = shown ∙ sym (coded (find_field "error_code" fs) code);
        retry_after = refl;
        no_opt_out = ground arith;
      }),
    )
