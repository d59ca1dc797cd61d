-- ===== src/Tests/Retries.antt =====
-- The retries of both clients at fixed inputs.
use usezombie.Prelude.{
  ℕ, ◌+◌, ◌*◌, ◌≤◌, ◌≡◌, refl, Bool, true, false, Option, none, some, [], ◌∷◌, arith, ◌==◌,
  if◌then◌else◌, str_eq,
}
use usezombie.Json.{Fields, Json, null, str, obj, nat, end, field}
use usezombie.Http.{ApiError, Thrown, api, Outcome, returned, threw, Response, response_error}
use usezombie.Http
use usezombie.Http.Envelope.{response_error_problem}
use usezombie.Retry
use usezombie.Retry.{
  Options, Runtime, Attempts, Run, Event, attempted, retrying, slept, too_many_requests, server,
  api_request_with_retry, resolve_retry_runtime, retry_loop, plan_retry, classify_retryable,
  classify_status, has_retry_opt_out, backoff_delay, base_delay, emit_terminal_attempt,
  no_retry_env, is_idempotent_method, AttemptContext,
}
use usezombie.Retry.Policy.{plan_retry_safe}
use usezombie.Retry.Loop.{api_request_with_retry_run, IsRun}
use usezombie.Retry.Trace.{trace_lem, IsTrace, slept_total, slept_total_bound}
use usezombie.Retry.Dashboard
use usezombie.Retry.Dashboard.Parity.{Agree, cli_options}
use usezombie.Retry.Dashboard.Replies.{
  Reply, answered, dashboard_outcome, cli_outcome, IsPlain, plain_ok, plain_problem,
  request_with_retry_parity,
}

abbrev failure : ℕ → Option ℕ → Option Json → ApiError
failure status retry_after body = record {
  message = str "failed";
  status = some status;
  code = some (str "HTTP");
  request_id = none;
  body = body;
  retry_after_ms = retry_after;
}

-- The first request meets a 503, the second succeeds.
abbrev flaky : Attempts
flaky = record {
  outcome = λ k. if k == 1 then threw (api (failure 503 none none)) else returned null;
  duration_ms = λ k. 7;
  random = λ k. 1;
}

abbrev get_options : Options
get_options = record {
  retry = none;
  method = none;
  no_retry = none;
  on_attempt = true;
  on_retry = true;
}

abbrev get_runtime : Runtime
get_runtime = record {
  max_attempts = 3;
  base_delay_ms = 250;
  cap_delay_ms = 2000;
  on_attempt = true;
  on_retry = true;
  method = "GET";
}

get_resolved : resolve_retry_runtime get_options ≡ some get_runtime
unfolding resolve_retry_runtime no_retry_env
get_resolved = refl

-- 250 ms less a fifth, in halves of a fifth of a millisecond, with 1/2 for the random number: the
-- jitter is 0.
abbrev flaky_run : Run Json ApiError
flaky_run = record {
  result = returned null;
  requests = 2;
  trace =
      retrying (record { attempt = 1; status = some 503; duration_ms = 7; reason = server })
      ∷ slept 2500
      ∷ attempted (record {
        attempt = 2;
        status = some 200;
        duration_ms = 7;
        retry_count = 1;
        terminal = true;
      })
      ∷ [];
}

flaky_ran : api_request_with_retry 2 get_options flaky ≡ some flaky_run
unfolding api_request_with_retry resolve_retry_runtime no_retry_env plan_retry classify_retryable
    classify_status has_retry_opt_out is_idempotent_method backoff_delay emit_terminal_attempt
flaky_ran = refl

abbrev timed_out : ApiError
timed_out = record (failure 504 none none) { code = some (str "TIMEOUT") }

abbrev post_runtime : Runtime
post_runtime = record get_runtime { method = "POST" }

abbrev at_first : AttemptContext
at_first = record { attempt = 1; status = some 504; duration_ms = 0 }

plan_retry_safe_example : Retry.is_string "TIMEOUT" timed_out.code ≡ true
unfolding plan_retry classify_retryable backoff_delay is_idempotent_method
plan_retry_safe_example =
    plan_retry_safe 2 timed_out post_runtime at_first 1 504
      (
        2500,
        retrying
              (record { attempt = 1; status = some 504; duration_ms = 0; reason = Retry.timeout })
            ∷ [],
      )
      refl refl refl refl (omega arith)

api_request_with_retry_run_example :
    (r : Run Json ApiError) × (api_request_with_retry 2 get_options flaky ≡ some r)
    × IsRun 2 get_runtime flaky 0 r
    × (3 ≤ 10)
api_request_with_retry_run_example =
    api_request_with_retry_run 2 get_options flaky get_runtime get_resolved

abbrev once : Options
once = record get_options { no_retry = some "1" }

trace_lem_example : IsTrace 2 get_runtime flaky 0 flaky_run
trace_lem_example =
    trace_lem 2 get_options flaky get_runtime flaky_run get_resolved refl refl flaky_ran

flaky-no_floor :
    (k : ℕ) (err : Thrown ApiError) → flaky.outcome k ≡ threw err → Retry.retry_after_of err ≡ none
flaky-no_floor k err e = ground arith

slept_total_bound_example : slept_total flaky_run.trace + 2000 * (6 * 2) ≤ 2 * (2000 * (6 * 2))
slept_total_bound_example =
    slept_total_bound 2 get_options flaky get_runtime flaky_run (λ k. omega arith) flaky-no_floor
      get_resolved flaky_ran

abbrev dashboard_options : Dashboard.Options
dashboard_options = record {
  max_attempts = none;
  base_delay_ms = none;
  cap_delay_ms = none;
  no_retry = none;
  on_attempt = true;
  on_retry = true;
  method = none;
}

-- A runtime that parses one text, prints every status alike, and reads no number.
abbrev problem_fields : Fields
problem_fields = field "error_code" (str "UZ-AUTH-018") (field "detail" (str "not six digits") end)

abbrev pub one_text : Http.Runtime
one_text = record {
  number_of = λ s. nat 1;
  json_parse = λ s. if str_eq s "problem" then some (obj problem_fields) else none;
  show_http = λ n. "HTTP_400";
}

abbrev problem : Response
problem = record {
  ok = false;
  status = 400;
  status_text = "Bad Request";
  text = "problem";
  retry_after = none;
}

response_error_problem_example : response_error one_text problem ≡ record {
  message = str "Bad Request";
  status = some 400;
  code = some (str "HTTP_400");
  request_id = some null;
  body = some (obj problem_fields);
  retry_after_ms = Http.parse_retry_after_header_value one_text none;
}
response_error_problem_example =
    response_error_problem one_text problem problem_fields refl refl refl

-- The server is busy once.
abbrev busy : Response
busy = record problem { status = 503 }

abbrev fine : Response
fine = record problem { ok = true; status = 200 }

abbrev replies : ℕ → Reply
replies k = answered (if k == 1 then busy else fine)

IsPlain-replies : (b : Bool) → IsPlain one_text (answered (if b then busy else fine))
IsPlain-replies true = plain_problem busy problem_fields refl refl refl refl refl refl refl
IsPlain-replies false = plain_ok fine refl

request_with_retry_parity_example :
    Agree
      (Dashboard.request_with_retry 2 dashboard_options record {
        outcome = λ k. dashboard_outcome one_text (replies k);
        duration_ms = λ k. 7;
        random = λ k. 1;
      })
      (api_request_with_retry 2 (cli_options dashboard_options) record {
        outcome = λ k. cli_outcome one_text "timed out" (replies k);
        duration_ms = λ k. 7;
        random = λ k. 1;
      })
request_with_retry_parity_example =
    request_with_retry_parity one_text "timed out" 2 dashboard_options replies (λ k. 7) (λ k. 1)
      (λ k. IsPlain-replies (k == 1))
