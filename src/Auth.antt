-- ===== src/Auth.antt =====
-- agentsfleet/src/commands/auth.ts: the status of the login and the logout. The summary of the token,
-- printing and telemetry are not modelled.
pub mod Logout
pub mod Status
pub mod AfterLogin
use usezombie.Prelude.{
  ℕ, String, Text, str_eq, ◌==◌, Bool, true, false, ◌||◌, Option, none, some, if◌then◌else◌,
}
use usezombie.Json.{Json, str, num, Number, nat, get}
use usezombie.Http
use usezombie.Http.{ApiError}
use usezombie.Cli.Errors.{CliError, server_error, auth_error, validation_error}
use usezombie.Cli.Effects.{Outcome, succeeded, failed}
use usezombie.Cli.Store.{
  Action, pure, raise, ◌>>=◌, ◌>>◌, get_access_token, clear_access_token, load_credentials,
}
use usezombie.Cli.Guards.{resolve_token}

pub data TokenSource : Type 0 where
  file env : TokenSource

pub data ProbeStatus : Type 0 where
  valid unauthorized unreachable : ProbeStatus

-- The status, and the code of the error.
pub record ProbeResult : Type 0 where
  pub status : ProbeStatus
  pub error : Option Json

abbrev is_auth_code : Json → Bool
is_auth_code (str code) =
    str_eq code "UZ-AUTH-001" || str_eq code "UZ-AUTH-002" || str_eq code "UZ-AUTH-003"
is_auth_code _ = false

unfoldable pub classify_probe_error : Json → ℕ → ProbeResult
classify_probe_error code status = record {
  status =
      if is_auth_code code || (status == 401) || (status == 403) then unauthorized else unreachable;
  error = some code;
}

-- `probe`, for what became of the request.
unfoldable pub probe : Outcome Json → ProbeResult
unfolding classify_probe_error
probe (succeeded _) = record { status = valid; error = none }
probe (failed (server_error detail code status request_id)) = classify_probe_error code status
probe (failed _) = record { status = unreachable; error = some (str "network") }

pub record AuthStatus : Type 0 where
  pub authenticated : Bool
  pub source : TokenSource
  pub saved_at : Option ℕ
  pub session_id : Option String
  pub server_check : ProbeResult

abbrev pub is_unauthorized : ProbeStatus → Bool
is_unauthorized unauthorized = true
is_unauthorized _ = false

abbrev pub code_or_default : Option Json → Json
code_or_default none = str "UZ-AUTH-002"
code_or_default (some code) = code

-- The last step: the result is printed in both cases.
abbrev pub unless_rejected : AuthStatus → Action AuthStatus
unless_rejected result =
    if is_unauthorized result.server_check.status
    then raise (
        auth_error (str "server rejected the current token")
          (code_or_default result.server_check.error) none)
    else pure result

abbrev pub status_of : TokenSource → Option ℕ → Option String → ProbeResult → AuthStatus
status_of source saved_at session_id result = record {
  authenticated = if is_unauthorized result.status then false else true;
  source = source;
  saved_at = saved_at;
  session_id = session_id;
  server_check = result;
}

-- `billing` is what becomes of the request with a token. The token of the file comes first.
abbrev pub status_from : (Text → Outcome Json) → Option Text → Option Text → Action AuthStatus
status_from billing (some token) env_token = load_credentials >>= λ c. load_credentials >>= λ c'.
    unless_rejected (status_of file c.saved_at c'.session_id (probe (billing token)))
status_from billing none (some token) =
    unless_rejected (status_of env none none (probe (billing token)))
status_from billing none none =
    raise (auth_error (str "not authenticated") (str "AUTH_REQUIRED") none)

unfoldable pub auth_status : (Text → Outcome Json) → Option Text → Action AuthStatus
unfolding get_access_token probe
auth_status billing env_token =
    get_access_token >>= λ file_token. status_from billing file_token env_token

-- The sessions that were revoked, and the code of the error.
pub record RevokeOutcome : Type 0 where
  pub aborted_count : Option Number
  pub server_error_code : Option Json

abbrev pub count_of : Option Json → Number
count_of (some (num n)) = n
count_of _ = nat 0

-- An answer is never `null`: the transport gives `{}` in its place.
unfoldable pub revoke_all_sessions : Outcome Json → RevokeOutcome
revoke_all_sessions (succeeded body) = record {
  aborted_count = some (count_of (get "aborted_count" body));
  server_error_code = none;
}
revoke_all_sessions (failed (server_error detail code status request_id)) = record {
  aborted_count = none;
  server_error_code = some code;
}
revoke_all_sessions (failed _) = record {
  aborted_count = none;
  server_error_code = some (str "network");
}

-- Without a saved token no session is revoked.
abbrev pub revoke_existing : (Text → Outcome Json) → Option Text → RevokeOutcome
revoke_existing revoke none = record { aborted_count = none; server_error_code = none }
revoke_existing revoke (some token) = revoke_all_sessions (revoke token)

unfoldable pub logout : (Text → Outcome Json) → ℕ → Bool → Action RevokeOutcome
unfolding get_access_token clear_access_token revoke_all_sessions
logout revoke now all =
    if all
    then raise (validation_error "`--all` is not accepted")
    else get_access_token >>= λ existing.
        clear_access_token now >> pure (revoke_existing revoke existing)
