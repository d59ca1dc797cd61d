-- ===== src/Retry/Dashboard/Replies.antt =====
-- The two clients against the replies of one server.
use usezombie.Prelude.{
  ◌==◌, str_eq, ℕ, ◌≡◌, refl, String, true, false, Option, none, some, Bool-cases, inl, inr,
}
use usezombie.Json.{Json, obj, Fields, find_field}
use usezombie.Http.{
  Thrown, api, js, primitive, JsError, Outcome, returned, threw, Response, or_else, or_value,
  parse_retry_after_header_value,
}
use usezombie.Http
use usezombie.Retry
use usezombie.Retry.{
  is_string, is_retryable_status, attempts_in_range, default_max_attempts, get_or, Run, before,
  has_retry_opt_out, AttemptContext, Event, slept,
}
use usezombie.Retry.Dashboard.{ApiError, request, responded, failed, Options, request_with_retry}
use usezombie.Retry.Dashboard.Parity.{
  IsSame, Twins, both_return, both_api, both_js, Agree, cli_options, run_parity,
  problem_response-IsSame,
}

-- What comes back for a request: a response, or an exception of `fetch`.
pub data Reply : Type 0 where
  answered : Response → Reply
  unreachable : JsError → Reply

abbrev pub dashboard_outcome : Http.Runtime → Reply → Outcome (Option Json) ApiError
dashboard_outcome rt (answered res) = request rt (responded res)
dashboard_outcome rt (unreachable e) = request rt (failed (js e))

abbrev pub cli_outcome : Http.Runtime → String → Reply → Outcome Json Http.ApiError
cli_outcome rt timed_out (answered res) = Http.api_request rt timed_out (some (Http.responded res))
cli_outcome rt timed_out (unreachable e) = Http.api_request rt timed_out (some (Http.failed (js e)))

-- A response that is ok; one that is not, with the server's own kind of error body, where neither
-- `error_code` nor the printed status is "TIMEOUT"; or an exception other than an abort.
pub data IsPlain (rt : Http.Runtime) : Reply → Type 0 where
  plain_ok : (res : Response) → res.ok ≡ true → IsPlain rt (answered res)
  plain_problem :
      (res : Response) (fs : Fields)
      → res.ok ≡ false
      → (res.status == 204) ≡ false
      → str_eq res.text "" ≡ false
      → rt.json_parse res.text ≡ some (obj fs)
      → find_field "error" fs ≡ none
      → is_string "TIMEOUT" (find_field "error_code" fs) ≡ false
      → str_eq (rt.show_http res.status) "TIMEOUT" ≡ false
      → IsPlain rt (answered res)
  plain_exception : (e : JsError) → str_eq e.name "AbortError" ≡ false → IsPlain rt (unreachable e)

data IsReturned {V E : Type 0} : Outcome V E → Type 0 where
  is_returned : (v : V) → IsReturned (returned v)

Twins-returned :
    {o : Outcome (Option Json) ApiError} {p : Outcome Json Http.ApiError}
    → IsReturned o
    → IsReturned p
    → Twins o p
Twins-returned (is_returned v) (is_returned w) = both_return

Twins-same :
    {o : Outcome (Option Json) ApiError} {p : Outcome Json Http.ApiError} (d : ApiError)
    (c : Http.ApiError)
    → o ≡ threw (api d)
    → p ≡ threw (api c)
    → IsSame d c
    → Twins o p
Twins-same d c e f s = rw (e, f) (both_api s)

request-IsReturned :
    (rt : Http.Runtime) (res : Response) → res.ok ≡ true → IsReturned (request rt (responded res))
unfolding request
request-IsReturned rt res h = elim (Bool-cases (res.status == 204)) [
  | inl e ↦ rw (e, request) (is_returned none)
  | inr e ↦ rw (e, h, request) (is_returned _)
]

api_request-IsReturned :
    (rt : Http.Runtime) (timed_out : String) (res : Response)
    → res.ok ≡ true
    → IsReturned (Http.api_request rt timed_out (some (Http.responded res)))
unfolding Http.api_request
api_request-IsReturned rt timed_out res h = rw (h, Http.api_request) (is_returned _)

api_request-threw :
    (rt : Http.Runtime) (timed_out : String) (res : Response)
    → res.ok ≡ false
    → Http.api_request rt timed_out (some (Http.responded res))
      ≡ threw (api (Http.response_error rt res))
unfolding Http.api_request
api_request-threw rt timed_out res h = rw (h, Http.api_request) refl

exception-Twins :
    (rt : Http.Runtime) (timed_out : String) (e : JsError)
    → str_eq e.name "AbortError" ≡ false
    → Twins (dashboard_outcome rt (unreachable e)) (cli_outcome rt timed_out (unreachable e))
unfolding request Http.api_request
exception-Twins rt timed_out e h = rw h both_js

IsPlain-Twins :
    (rt : Http.Runtime) (timed_out : String) (reply : Reply)
    → IsPlain rt reply
    → Twins (dashboard_outcome rt reply) (cli_outcome rt timed_out reply)
unfolding request Http.api_request
IsPlain-Twins rt timed_out _ (plain_ok res h) =
    Twins-returned (request-IsReturned rt res h) (api_request-IsReturned rt timed_out res h)
IsPlain-Twins rt timed_out _ (plain_problem res fs bad body some_text parsed no_error code shown) =
    let (d, e, same) =
      problem_response-IsSame rt res fs bad body some_text parsed no_error code shown in
    Twins-same d (Http.response_error rt res) e (api_request-threw rt timed_out res bad) same
IsPlain-Twins rt timed_out _ (plain_exception e h) = exception-Twins rt timed_out e h

-- With the same replies, the same clock and the same random numbers, the dashboard makes as many requests
-- as the command line client would with the same options, and reports, announces and sleeps the same, if
-- every reply is a response that is ok, or one that is not, with a status other than 204 and the server's
-- own kind of error body (a JSON object without `error`, where neither its code nor the printed status is
-- "TIMEOUT"), or an exception other than an abort, which the command line client's timeout would be.
pub request_with_retry_parity :
    (rt : Http.Runtime) (timed_out : String) (precision : ℕ) (options : Options)
    (replies : ℕ → Reply) (duration_ms random : ℕ → ℕ)
    → ((k : ℕ) → IsPlain rt (replies k))
    → Agree
        (request_with_retry precision options record {
          outcome = λ k. dashboard_outcome rt (replies k);
          duration_ms = duration_ms;
          random = random;
        })
        (Retry.api_request_with_retry precision (cli_options options) record {
          outcome = λ k. cli_outcome rt timed_out (replies k);
          duration_ms = duration_ms;
          random = random;
        })
request_with_retry_parity rt timed_out precision options replies duration_ms random plain =
    run_parity precision options _ _ record {
      outcome = λ k. IsPlain-Twins rt timed_out (replies k) (plain k);
      duration_ms = λ k. refl;
      random = λ k. refl;
    }
