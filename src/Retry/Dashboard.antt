-- ===== src/Retry/Dashboard.antt =====
-- ui/packages/app/lib/api/client.ts, errors.ts and retry.ts: the requests of the dashboard, with
-- retries. What a source file shares word for word with the command line client's is taken from
-- there: the hooks' records, the constants, the backoff and the report of the last attempt.
pub mod Parity
pub mod Replies
use usezombie.Prelude.{
  ℕ, zero, suc, ◌+◌, String, Bool, true, false, Option, none, some, List, [], ◌∷◌, ◌++◌, ◌&&◌, ◌||◌,
  not, ltb, leb, ◌==◌, if◌then◌else◌,
}
use usezombie.Json.{Json, null, str, obj, end, field, get, nullish, Number, nat}
use usezombie.Http.{
  Thrown, api, js, primitive, JsError, Outcome, returned, threw, Response, or_else, or_value,
  parse_retry_after_header_value,
}
use usezombie.Http
use usezombie.Retry.{
  RetryReason, timeout, too_many_requests, server, network, is_retryable_status, is_string,
  classify_js, backoff_delay, is_idempotent_method, is_server, is_server_5xx, no_retry_env, get_or,
  attempts_in_range, default_max_attempts, default_base_delay_ms, default_cap_delay_ms, Event,
  slept, emit_terminal_attempt, announce_retry, AttemptContext, Run, before,
}

pub record ApiError : Type 0 where
  pub message : Json
  pub status : ℕ
  pub code : Json
  pub request_id : Option Json
  pub retry_after_ms : Option ℕ

pub data Fetched : Type 0 where
  responded : Response → Fetched
  failed : Thrown ApiError → Fetched

-- The read of a property of null throws.
abbrev null_read : JsError
null_read = record {
  is_type_error = true;
  name = "TypeError";
  message = "Cannot read properties of null (reading 'detail')";
  code = none;
}

-- What a result other than an error is: `undefined` (none), or the body.
module _ (rt : Http.Runtime) where
  error_of : Response → Json → Thrown ApiError
  error_of res null = js null_read
  error_of res body = api (record {
    message =
        or_value (or_else (nullish (get "detail" body)) (nullish (get "title" body)))
          (str res.status_text);
    status = res.status;
    code = or_value (nullish (get "error_code" body)) (str "UZ-UNKNOWN");
    request_id = get "request_id" body;
    retry_after_ms = parse_retry_after_header_value rt res.retry_after;
  })

  unfoldable pub request : Fetched → Outcome (Option Json) ApiError
  unfolding error_of
  request (failed err) = threw err
  request (responded res) =
      let body : Json = elim (rt.json_parse res.text) [
        | none ↦ obj (field "detail" (str res.status_text) end)
        | some v ↦ v
      ] in
      if res.status == 204
      then returned none
      else if not res.ok
      then threw (error_of res body)
      else returned (some body)

unfoldable pub classify_retryable : Thrown ApiError → Option RetryReason
classify_retryable (api err) =
    if is_string "TIMEOUT" (some err.code)
    then some timeout
    else if is_retryable_status err.status
    then if err.status == 429 then some too_many_requests else some server
    else none
classify_retryable (js e) = classify_js e
classify_retryable primitive = none

-- `no_retry` is the environment's ZOMBIE_NO_RETRY, and `method` that of the request.
pub record Options : Type 0 where
  pub max_attempts : Option Number
  pub base_delay_ms : Option ℕ
  pub cap_delay_ms : Option ℕ
  pub no_retry : Option String
  pub on_attempt : Bool
  pub on_retry : Bool
  pub method : Option String

pub record ResolvedRetry : Type 0 where
  pub max_attempts : ℕ
  pub base_delay_ms : ℕ
  pub cap_delay_ms : ℕ
  pub on_attempt : Bool
  pub on_retry : Bool

-- `none` is the throw of `config_invalid`.
unfoldable pub resolve_retry_config : Options → Option ResolvedRetry
resolve_retry_config options =
    elim (attempts_in_range (get_or options.max_attempts (nat default_max_attempts))) [
      | none ↦ none
      | some n ↦ some (record {
        max_attempts = if no_retry_env options.no_retry then 1 else n;
        base_delay_ms = get_or options.base_delay_ms default_base_delay_ms;
        cap_delay_ms = get_or options.cap_delay_ms default_cap_delay_ms;
        on_attempt = options.on_attempt;
        on_retry = options.on_retry;
      })
    ]

abbrev config_invalid : Thrown ApiError
config_invalid = api (record {
  message = str "retry.maxAttempts must be an integer in 1..10";
  status = 0;
  code = str "CONFIG_INVALID";
  request_id = none;
  retry_after_ms = none;
})

abbrev pub retry_after_of : Thrown ApiError → Option ℕ
retry_after_of (api err) = err.retry_after_ms
retry_after_of _ = none

abbrev pub status_of : Thrown ApiError → Option ℕ
status_of (api err) = some err.status
status_of _ = none

-- The n-th run of `request`, and the n-th value of `randomFn`.
pub record Attempts : Type 0 where
  pub outcome : ℕ → Outcome (Option Json) ApiError
  pub duration_ms : ℕ → ℕ
  pub random : ℕ → ℕ

unfoldable pub plan_retry :
    ℕ → Thrown ApiError → ResolvedRetry → String → AttemptContext → ℕ → Option (ℕ × List Event)
plan_retry precision err cfg method ctx random = elim (classify_retryable err) [
  | none ↦ none
  | some reason ↦
      if (is_server reason && is_server_5xx ctx.status && not (is_idempotent_method method))
        || leb cfg.max_attempts ctx.attempt
      then none
      else some (
        backoff_delay precision cfg.base_delay_ms cfg.cap_delay_ms ctx.attempt (retry_after_of err)
            random,
        announce_retry cfg.on_retry ctx reason,
      )
]

module _ (precision : ℕ) (cfg : ResolvedRetry) (method : String) (world : Attempts) where
  open world use {outcome, duration_ms, random}

  abbrev pub finish : Outcome (Option Json) ApiError → ℕ → Option ℕ → Run (Option Json) ApiError
  finish result n status = record {
    result = result;
    requests = n;
    trace = emit_terminal_attempt cfg.on_attempt n status (duration_ms n);
  }

  -- The `for (;;)` of `requestWithRetry`, with fuel; `none` means that the fuel ran out.
  unfoldable pub retry_loop : ℕ → ℕ → Option (Run (Option Json) ApiError)
  retry_loop zero attempt = none
  retry_loop (suc fuel) attempt =
      let n = attempt + 1 in
      elim (outcome n) [
        | returned v ↦ some (finish (returned v) n (some 200))
        | threw err ↦
            let ctx : AttemptContext = record {
              attempt = n;
              status = status_of err;
              duration_ms = duration_ms n;
            } in
            elim (plan_retry precision err cfg method ctx (random n)) [
              | some (delay, events) ↦ before (events ++ slept delay ∷ []) (retry_loop fuel n)
              | none ↦ some (finish (threw err) n (status_of err))
            ]
      ]

-- The fuel is the number of attempts that the configuration allows.
unfoldable pub request_with_retry : ℕ → Options → Attempts → Option (Run (Option Json) ApiError)
unfolding retry_loop
request_with_retry precision options world = elim (resolve_retry_config options) [
  | none ↦ some (record { result = threw config_invalid; requests = 0; trace = [] })
  | some cfg ↦ retry_loop precision cfg (get_or options.method "GET") world cfg.max_attempts 0
]
