-- ===== src/Http.antt =====
-- agentsfleet/src/lib/http.ts: one HTTP request of the command line client, and its errors.
pub mod Envelope
use usezombie.Prelude.{
  ℕ, ◌*◌, String, Bool, true, false, Option, none, some, List, [], ◌∷◌, ◌&&◌, not, if◌then◌else◌,
  str_eq,
}
use usezombie.Json.{
  Json, null, obj, end, str, is_object, get, get?, nullish, Number, nat, decimal, other,
}

-- `code`, `message` and `requestId` hold what the envelope holds, which need not be a string.
pub record ApiError : Type 0 where
  pub message : Json
  pub status : Option ℕ
  pub code : Option Json
  pub request_id : Option Json
  pub body : Option Json
  pub retry_after_ms : Option ℕ

-- An exception of the runtime: whether it is a `TypeError`, and its `name`, `message` and `code`.
pub record JsError : Type 0 where
  pub is_type_error : Bool
  pub name : String
  pub message : String
  pub code : Option String

-- What a `catch` clause receives; `primitive` is a thrown value that is no object.
pub data Thrown (E : Type 0) : Type 0 where
  api : E → Thrown E
  js : JsError → Thrown E
  primitive : Thrown E

pub data Outcome (V E : Type 0) : Type 0 where
  returned : V → Outcome V E
  threw : Thrown E → Outcome V E

-- What the code reads of a `Response`; the text is empty where the body is.
pub record Response : Type 0 where
  pub ok : Bool
  pub status : ℕ
  pub status_text : String
  pub text : String
  pub retry_after : Option String

pub data Fetched : Type 0 where
  responded : Response → Fetched
  failed : Thrown ApiError → Fetched

abbrev ms_per_second : ℕ
ms_per_second = 1000

-- `details` left out but for a code, as in `new ApiError(message, { code })`.
abbrev pub coded_error : String → String → ApiError
coded_error message code = record {
  message = str message;
  status = none;
  code = some (str code);
  request_id = none;
  body = none;
  retry_after_ms = none;
}

-- A string that is missing or empty is falsy.
abbrev pub non_empty : Option String → Option String
non_empty none = none
non_empty (some s) = if str_eq s "" then none else some s

-- `Number.isFinite(n) && n >= 0 ? n * MS_PER_SECOND : null`
abbrev seconds_to_ms : Number → Option ℕ
seconds_to_ms (nat n) = some (n * ms_per_second)
seconds_to_ms (decimal k) = some k
seconds_to_ms other = none

-- `a ?? b`
abbrev pub or_else : Option Json → Option Json → Option Json
or_else (some a) b = some a
or_else none b = b

abbrev pub or_value : Option Json → Json → Json
or_value (some a) b = a
or_value none b = b

-- `isErrorEnvelope(json) ? json : null`
abbrev pub envelope : Json → Option Json
envelope json = if is_object json then some json else none

-- The runtime's `Number(text)`, `JSON.parse` (`none` where it throws) and decimal printing.
pub record Runtime : Type 0 where
  pub number_of : String → Number
  pub json_parse : String → Option Json
  pub show_http : ℕ → String

module _ (rt : Runtime) where
  open rt use {number_of, json_parse, show_http}

  unfoldable pub parse_retry_after_header_value : Option String → Option ℕ
  parse_retry_after_header_value header = elim (non_empty header) [
    | none ↦ none
    | some s ↦ seconds_to_ms (number_of s)
  ]

  -- `JSON.parse(text)`, with null for a text that is empty or does not parse.
  unfoldable pub parse_body : String → Json
  parse_body text =
      if str_eq text "" then null else elim (json_parse text) [ none ↦ null | some json ↦ json ]

  -- The `ApiError` of a response that is not ok.
  unfoldable pub response_error : Response → ApiError
  response_error res =
      let json = parse_body res.text in
      let error = nullish (get? "error" (envelope json)) in
      record {
        message = or_value (nullish (get? "message" error)) (str res.status_text);
        status = some res.status;
        code = some (or_value (nullish (get? "code" error)) (str (show_http res.status)));
        request_id = some (
            or_value
              (or_else (nullish (get? "request_id" error))
                (nullish (get? "request_id" (envelope json))))
              null);
        body = some (or_value (nullish (some json)) (str res.text));
        retry_after_ms = parse_retry_after_header_value res.retry_after;
      }

  -- The `catch` of `apiRequest`: an abort can come of the timer alone.
  rethrow : String → Thrown ApiError → Thrown ApiError
  rethrow timed_out (js e) =
      if str_eq e.name "AbortError"
      then api (record (coded_error timed_out "TIMEOUT") { status = some 408 })
      else js e
  rethrow timed_out err = err

  -- `fetched` is what `fetchImpl` and `res.text()` did, `none` where there is no `fetch`;
  -- `timed_out` is the message of a timeout.
  unfoldable pub api_request : String → Option Fetched → Outcome Json ApiError
  unfolding rethrow
  api_request timed_out none = threw (api (coded_error "fetch is unavailable" "NO_FETCH"))
  api_request timed_out (some (failed err)) = threw (rethrow timed_out err)
  api_request timed_out (some (responded res)) =
      if not res.ok
      then threw (api (response_error res))
      else returned (or_value (nullish (some (parse_body res.text))) (obj end))

pub record AuthCredentials : Type 0 where
  pub token : Option String
  pub api_key : Option String

-- `bearer` joins `Bearer ` and a token.
pub auth_headers : (String → String) → Option AuthCredentials → List (String × String)
auth_headers bearer none = ("Content-Type", "application/json") ∷ []
auth_headers bearer (some auth) = elim (non_empty auth.token) [
  | some token ↦ ("Content-Type", "application/json") ∷ ("Authorization", bearer token) ∷ []
  | none ↦ elim (non_empty auth.api_key) [
    | some key ↦ ("Content-Type", "application/json") ∷ ("Authorization", bearer key) ∷ []
    | none ↦ ("Content-Type", "application/json") ∷ []
  ]
]
