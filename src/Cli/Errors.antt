-- ===== src/Cli/Errors.antt =====
-- agentsfleet/src/errors/index.ts, errors/auth.ts and services/http-client.ts: the errors of a
-- command, the exit code of each, and the errors that a request is turned into. The `suggestion` of an
-- error is prose that no code reads, and is left out.
use usezombie.Prelude.{
  ℕ, String, str_append, codes, lower, includes, Bool, ◌&&◌, Option, none, some, map, if◌then◌else◌,
}
use usezombie.Json.{Json, str}
use usezombie.Http.{ApiError, JsError, Thrown, api, js, primitive}

-- The `detail`, and where the error has them its `code`, `status` and `request_id`, which hold
-- whatever the server sent.
pub data CliError : Type 0 where
  auth_error : Json → Json → Option Json → CliError
  network_error : String → CliError
  server_error : Json → Json → ℕ → Option Json → CliError
  validation_error config_error unexpected_error : String → CliError
  invalid_session expired_session rate_limited : String → Option Json → CliError
  timeout interrupted : String → CliError
  verification_failed : String → Option Json → CliError
  decrypt_error : String → CliError
  session_aborted session_consumed me_validation : String → Option Json → CliError

-- `EXIT_CODE`
unfoldable pub exit_code : CliError → ℕ
exit_code (auth_error _ _ _) = 1
exit_code (network_error _) = 2
exit_code (server_error _ _ _ _) = 3
exit_code (validation_error _) = 4
exit_code (config_error _) = 5
exit_code (unexpected_error _) = 1
exit_code (invalid_session _ _) = 1
exit_code (expired_session _ _) = 1
exit_code (rate_limited _ _) = 2
exit_code (timeout _) = 1
exit_code (interrupted _) = 130
exit_code (verification_failed _ _) = 1
exit_code (decrypt_error _) = 1
exit_code (session_aborted _ _) = 1
exit_code (session_consumed _ _) = 1
exit_code (me_validation _ _) = 1

abbrev pub is_fetch_failed : JsError → Bool
is_fetch_failed e = e.is_type_error && includes (codes "fetch failed") (map lower (codes e.message))

abbrev status_or_zero : Option ℕ → ℕ
status_or_zero none = 0
status_or_zero (some status) = status

-- `cause.code ?? fallback`, where the fallback is the status behind `HTTP_`.
abbrev code_or : String → Option Json → Json
code_or fallback none = str fallback
code_or fallback (some code) = code

-- `toCliError`, where `show` writes a number and `text` is that of a thrown value that is no error.
unfoldable pub to_cli_error : (ℕ → String) → String → String → Thrown ApiError → CliError
to_cli_error show text url (api e) =
    let status = status_or_zero e.status in
    server_error e.message (code_or (str_append "HTTP_" (show status)) e.code) status e.request_id
to_cli_error show text url (js e) =
    if is_fetch_failed e
    then network_error (str_append "cannot reach usezombie API at " url)
    else network_error e.message
to_cli_error show text url primitive = network_error text
