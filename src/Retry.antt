-- ===== src/Retry.antt =====
-- agentsfleet/src/lib/http-retry.ts: requests of the command line client with retries. The runs of
-- `apiRequest` are given one by one; the calls of the hooks and of `sleep` are a trace. A delay is
-- counted in units of 1 / (5 * precision) ms, where `Math.random()` is r / precision: in these units
-- the jitter is a whole number. The hooks do not throw.
pub mod Backoff
pub mod Policy
pub mod Loop
pub mod Trace
pub mod Dashboard
use usezombie.Prelude.{
  ℕ, zero, suc, ◌+◌, ◌-◌, ◌*◌, ◌^◌, String, Bool, true, false, Option, none, some, List, [], ◌∷◌,
  ◌&&◌, ◌||◌, not, ltb, leb, ◌==◌, if◌then◌else◌, str_eq, codes, map, upper, lower, text_eq,
  includes, min, ◌++◌,
}
use usezombie.Json.{Json, str, num, is_object, get, Number, nat, decimal, other}
use usezombie.Http.{
  ApiError, JsError, Thrown, api, js, primitive, Outcome, returned, threw, coded_error,
}

abbrev pub default_max_attempts : ℕ
default_max_attempts = 3

abbrev pub default_base_delay_ms : ℕ
default_base_delay_ms = 250

abbrev pub default_cap_delay_ms : ℕ
default_cap_delay_ms = 2000

abbrev pub max_attempts_hard_cap : ℕ
max_attempts_hard_cap = 10

-- `RETRYABLE_STATUSES.has(status)`
abbrev pub is_retryable_status : ℕ → Bool
is_retryable_status s = s == 408 || s == 425 || s == 429 || s == 502 || s == 503 || s == 504

pub data RetryReason : Type 0 where
  timeout too_many_requests server network : RetryReason

-- `value === "…"`
abbrev pub is_string : String → Option Json → Bool
is_string s (some (str t)) = str_eq t s
is_string s _ = false

abbrev is_zero : Option Json → Bool
is_zero (some (num (nat n))) = n == 0
is_zero _ = false

abbrev opt_out_of_body : Json → Bool
opt_out_of_body body = elim (get "error" body) [
  | none ↦ false
  | some err ↦ if is_object err then is_zero (get "retry_after_seconds" err) else false
]

unfoldable pub has_retry_opt_out : Option Json → Bool
has_retry_opt_out none = false
has_retry_opt_out (some body) = if is_object body then opt_out_of_body body else false

-- A `TypeError` of `fetch`, or an error with one of Node's network codes.
abbrev pub has_network_code : Option String → Bool
has_network_code none = false
has_network_code (some c) = str_eq c "ECONNRESET" || str_eq c "ETIMEDOUT" || str_eq c "ENOTFOUND"

pub classify_js : JsError → Option RetryReason
classify_js e =
    if e.is_type_error && includes (map lower (codes e.message)) (codes "fetch failed")
    then some network
    else if has_network_code e.code
    then some network
    else none

-- The status test of an `ApiError`, which may have no status.
unfoldable pub classify_status : Option ℕ → Option Json → Option RetryReason
classify_status none body = none
classify_status (some status) body =
    if is_retryable_status status
    then if has_retry_opt_out body
      then none
      else if status == 429
      then some too_many_requests
      else some server
    else none

unfoldable pub classify_retryable : Thrown ApiError → Option RetryReason
classify_retryable (api err) =
    if is_string "TIMEOUT" err.code then some timeout else classify_status err.status err.body
classify_retryable (js e) = classify_js e
classify_retryable primitive = none

-- 2 to the power `attempt - 1`, doubling `base`.
pub base_delay : ℕ → ℕ → ℕ → ℕ
base_delay base cap attempt = min (base * 2 ^ (attempt - 1)) cap

-- Rounding of floats is not modelled: the delay is exact. Both `Math.max(0, …)` and `-` stop at 0.
unfoldable pub backoff_delay : ℕ → ℕ → ℕ → ℕ → Option ℕ → ℕ → ℕ
unfolding base_delay
backoff_delay precision base cap attempt none random =
    let b = base_delay base cap attempt in b * (5 * precision) + b * (2 * random) - b * precision
backoff_delay precision base cap attempt (some floor) random =
    let b = base_delay base cap attempt in
    if ltb 0 floor
    then floor * (5 * precision) + floor * random
    else b * (5 * precision) + b * (2 * random) - b * precision

-- `env?.ZOMBIE_NO_RETRY`
unfoldable pub no_retry_env : Option String → Bool
no_retry_env none = false
no_retry_env (some v) = str_eq v "1" || str_eq v "true"

pub record RetryConfig : Type 0 where
  pub max_attempts : Option Number
  pub base_delay_ms : Option ℕ
  pub cap_delay_ms : Option ℕ

pub record AttemptInfo : Type 0 where
  pub attempt : ℕ
  pub status : Option ℕ
  pub duration_ms : ℕ
  pub retry_count : ℕ
  pub terminal : Bool

pub record RetryInfo : Type 0 where
  pub attempt : ℕ
  pub status : Option ℕ
  pub duration_ms : ℕ
  pub reason : RetryReason

-- `on_attempt` and `on_retry` say whether the hook is given.
pub record Options : Type 0 where
  pub retry : Option RetryConfig
  pub method : Option String
  pub no_retry : Option String
  pub on_attempt : Bool
  pub on_retry : Bool

unfoldable pub is_idempotent_method : String → Bool
is_idempotent_method method =
    let m = map upper (codes method) in
    text_eq m (codes "GET")
    || text_eq m (codes "PUT")
    || text_eq m (codes "DELETE")
    || text_eq m (codes "HEAD")

pub record Runtime : Type 0 where
  pub max_attempts : ℕ
  pub base_delay_ms : ℕ
  pub cap_delay_ms : ℕ
  pub on_attempt : Bool
  pub on_retry : Bool
  pub method : String

abbrev pub get_or {ℓ} : {A : Type ℓ} → Option A → A → A
get_or none d = d
get_or (some a) d = a

-- `none` where the number is no integer in 1..10.
abbrev pub attempts_in_range : Number → Option ℕ
attempts_in_range (nat n) = if ltb n 1 || ltb max_attempts_hard_cap n then none else some n
attempts_in_range _ = none

-- `options.retry ?? {}`
abbrev pub retry_config : Option RetryConfig → RetryConfig
retry_config none = record { max_attempts = none; base_delay_ms = none; cap_delay_ms = none }
retry_config (some c) = c

abbrev config_invalid : Thrown ApiError
config_invalid = api (coded_error "retry.maxAttempts must be an integer in 1..10" "CONFIG_INVALID")

-- `none` is the throw of `config_invalid`.
unfoldable pub resolve_retry_runtime : Options → Option Runtime
resolve_retry_runtime options =
    let cfg = retry_config options.retry in
    elim (attempts_in_range (get_or cfg.max_attempts (nat default_max_attempts))) [
      | none ↦ none
      | some n ↦ some (record {
        max_attempts = if no_retry_env options.no_retry then 1 else n;
        base_delay_ms = get_or cfg.base_delay_ms default_base_delay_ms;
        cap_delay_ms = get_or cfg.cap_delay_ms default_cap_delay_ms;
        on_attempt = options.on_attempt;
        on_retry = options.on_retry;
        method = get_or options.method "GET";
      })
    ]

-- What the loop does beside its requests.
pub data Event : Type 0 where
  attempted : AttemptInfo → Event
  retrying : RetryInfo → Event
  slept : ℕ → Event

unfoldable pub emit_terminal_attempt : Bool → ℕ → Option ℕ → ℕ → List Event
emit_terminal_attempt false attempt status duration_ms = []
emit_terminal_attempt true attempt status duration_ms =
    attempted (record {
      attempt = attempt;
      status = status;
      duration_ms = duration_ms;
      retry_count = attempt - 1;
      terminal = true;
    })
    ∷ []

pub record AttemptContext : Type 0 where
  pub attempt : ℕ
  pub status : Option ℕ
  pub duration_ms : ℕ

-- `status !== undefined && status >= 500`
abbrev pub is_server_5xx : Option ℕ → Bool
is_server_5xx none = false
is_server_5xx (some s) = leb 500 s

abbrev pub is_server : RetryReason → Bool
is_server server = true
is_server _ = false

abbrev pub retry_after_of : Thrown ApiError → Option ℕ
retry_after_of (api err) = err.retry_after_ms
retry_after_of _ = none

abbrev pub status_of : Thrown ApiError → Option ℕ
status_of (api err) = err.status
status_of _ = none

abbrev pub announce_retry : Bool → AttemptContext → RetryReason → List Event
announce_retry false ctx reason = []
announce_retry true ctx reason =
    retrying (record {
      attempt = ctx.attempt;
      status = ctx.status;
      duration_ms = ctx.duration_ms;
      reason = reason;
    })
    ∷ []

module _ (precision : ℕ) where
  -- The delay, with the call of `onRetry`; `random` is what `randomFn` returns.
  unfoldable pub plan_retry :
      Thrown ApiError → Runtime → AttemptContext → ℕ → Option (ℕ × List Event)
  plan_retry err cfg ctx random = elim (classify_retryable err) [
    | none ↦ none
    | some reason ↦
        if (is_server reason && is_server_5xx ctx.status && not (is_idempotent_method cfg.method))
          || leb cfg.max_attempts ctx.attempt
        then none
        else some (
          backoff_delay precision cfg.base_delay_ms cfg.cap_delay_ms ctx.attempt
              (retry_after_of err) random,
          announce_retry cfg.on_retry ctx reason,
        )
  ]

-- The n-th run of `apiRequest`, and the n-th value of `randomFn`.
pub record Attempts : Type 0 where
  pub outcome : ℕ → Outcome Json ApiError
  pub duration_ms : ℕ → ℕ
  pub random : ℕ → ℕ

-- How the call ended, after how many requests, and what it did on the way.
pub record Run (V E : Type 0) : Type 0 where
  pub result : Outcome V E
  pub requests : ℕ
  pub trace : List Event

abbrev pub before : {V E : Type 0} → List Event → Option (Run V E) → Option (Run V E)
before events none = none
before events (some r) = some (record r { trace = events ++ r.trace })

module _ (precision : ℕ) (cfg : Runtime) (world : Attempts) where
  open world use {outcome, duration_ms, random}

  -- The exit of the loop: the terminal attempt is reported, and the outcome is returned or thrown.
  abbrev pub finish : Outcome Json ApiError → ℕ → Option ℕ → Run Json ApiError
  finish result n status = record {
    result = result;
    requests = n;
    trace = emit_terminal_attempt cfg.on_attempt n status (duration_ms n);
  }

  -- The `while (true)` of `apiRequestWithRetry`, with fuel; `none` means that the fuel ran out.
  unfoldable pub retry_loop : ℕ → ℕ → Option (Run Json ApiError)
  retry_loop zero attempt = none
  retry_loop (suc fuel) attempt =
      let n = attempt + 1 in
      elim (outcome n) [
        | returned v ↦ some (finish (returned v) n (some 200))
        | threw err ↦
            let ctx : AttemptContext = record {
              attempt = n;
              status = status_of err;
              duration_ms = duration_ms n;
            } in
            elim (plan_retry precision err cfg ctx (random n)) [
              | some (delay, events) ↦ before (events ++ slept delay ∷ []) (retry_loop fuel n)
              | none ↦ some (finish (threw err) n (status_of err))
            ]
      ]

-- The fuel is the number of attempts that the configuration allows.
unfoldable pub api_request_with_retry : ℕ → Options → Attempts → Option (Run Json ApiError)
unfolding retry_loop
api_request_with_retry precision options world = elim (resolve_retry_runtime options) [
  | none ↦ some (record { result = threw config_invalid; requests = 0; trace = [] })
  | some cfg ↦ retry_loop precision cfg world cfg.max_attempts 0
]
