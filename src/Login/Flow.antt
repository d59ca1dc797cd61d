-- ===== src/Login/Flow.antt =====
-- agentsfleet/src/commands/login.ts, login-helpers.ts and lib/me-ping.ts: the login from the flags to
-- the files. The key pair, the server and the terminal are parameters; what is printed, the browser
-- and the telemetry are not modelled.
use usezombie.Prelude.{
  ℕ, String, Text, trim, is_empty, Bool, true, false, not, ◌||◌, Option, none, some, List,
  if◌then◌else◌,
}
use usezombie.Json.{Json, Number, str}
use usezombie.Http
use usezombie.Http.{ApiError}
use usezombie.Cli.Errors.{
  CliError, auth_error, server_error, network_error, me_validation, interrupted,
}
use usezombie.Cli.Effects.{Outcome, succeeded, failed, request}
use usezombie.Cli.Store.{
  Action, pure, raise, lift, ◌>>=◌, ◌>>◌, get_access_token, save_access_token, clear_access_token,
}
use usezombie.Login.{idempotency_check, verify_and_decrypt_with_retry}
use usezombie.Workspaces.Hydration.{hydrate_workspaces_after_login}

-- The flags that decide what is done.
pub record LoginFlags : Type 0 where
  pub no_input : Bool
  pub force : Bool
  pub token_name : Option String
  pub token_flag : Option Text
  pub env_token : Option Text

-- Whether the input is a terminal, what a pipe holds, the answer to the question about an existing
-- credential, and the lines that are typed at the prompt for the code.
pub record Terminal : Type 0 where
  pub is_tty : Bool
  pub piped : Text
  pub answer : Option Text
  pub lines : List (Option Text)

-- What becomes of each request: for a session with a token name, the n-th code in a session, the
-- billing and the workspaces of a token; and the decryption of an answer. `url` is the one that an
-- error names.
pub record Server (Response : Type 0) : Type 0 where
  pub create_session : String → Http.Outcome String ApiError
  pub verify : String → ℕ → Text → Http.Outcome Response ApiError
  pub decrypt : Response → Option Text
  pub billing : Text → Http.Outcome Json ApiError
  pub workspaces : Text → Http.Outcome Json ApiError

-- The clock, the URL of the API, the default name of a token, and the writing of numbers and thrown
-- values.
pub record Machine : Type 0 where
  pub now : ℕ
  pub api_url : String
  pub default_token_name : String
  pub show : ℕ → String
  pub thrown : String
  pub is_finite : Number → Bool

unfoldable pub trim_to_undefined : Option Text → Option Text
unfolding trim
trim_to_undefined none = none
trim_to_undefined (some raw) = if is_empty (trim raw) then none else some (trim raw)

-- The token that is given without a browser, `none` for the device flow.
abbrev pub piped_token : Option Text → Outcome (Option Text)
piped_token (some token) = succeeded (some token)
piped_token none = failed (interrupted "no token provided and stdin is not a terminal")

abbrev pub first_given : Option Text → Outcome (Option Text) → Outcome (Option Text)
first_given (some token) rest = succeeded (some token)
first_given none rest = rest

unfoldable pub resolve_direct_token : LoginFlags → Terminal → Outcome (Option Text)
unfolding trim_to_undefined
resolve_direct_token flags terminal = first_given (trim_to_undefined flags.token_flag) (
    first_given (trim_to_undefined flags.env_token) (
      if terminal.is_tty
      then succeeded none
      else piped_token (trim_to_undefined (some terminal.piped))))

abbrev pub request_id_of : CliError → Option Json
request_id_of (server_error _ _ _ request_id) = request_id
request_id_of _ = none

abbrev pub validated : {A : Type 0} → Outcome A → Outcome Unit
validated (succeeded _) = succeeded tt
validated (failed err) =
    failed (me_validation "token saved but failed validation" (request_id_of err))

abbrev pub is_me_validation : CliError → Bool
is_me_validation (me_validation _ _) = true
is_me_validation _ = false

abbrev pub is_some : {A : Type 0} → Option A → Bool
is_some none = false
is_some (some _) = true

-- `remapTransportErrors`
unfoldable pub remap_transport_errors : CliError → CliError
remap_transport_errors (server_error detail code status request_id) =
    auth_error detail code request_id
remap_transport_errors (network_error detail) =
    auth_error (str detail) (str "NETWORK_UNREACHABLE") none
remap_transport_errors err = err

-- `rollbackOnMeFailure`: what the clearing itself comes to is ignored.
abbrev pub or_roll_back : ℕ → Outcome Unit → Action Unit
or_roll_back now (succeeded _) = pure tt
or_roll_back now (failed err) =
    if is_me_validation err then (λ d. (failed err, (clear_access_token now d).1)) else raise err

abbrev pub map_error : {A : Type 0} → (CliError → CliError) → Outcome A → Outcome A
map_error f (succeeded a) = succeeded a
map_error f (failed err) = failed (f err)

-- `idempotencyCheck`, which reads the credentials only without `force`.
unfoldable pub check_existing : Bool → Bool → Option Text → Action Unit
unfolding idempotency_check get_access_token
check_existing force no_input answer =
    if force
    then pure tt
    else get_access_token >>= λ existing.
        lift (idempotency_check false no_input (is_some existing) answer).0

module _ {Response : Type 0} (machine : Machine) (server : Server Response) where
  unfoldable pub ping_me : Text → Outcome Unit
  unfolding request
  ping_me token =
      validated (request machine.show machine.thrown machine.api_url (server.billing token))

  unfoldable pub hydrate : Text → Action Unit
  unfolding request hydrate_workspaces_after_login
  hydrate token =
      hydrate_workspaces_after_login machine.is_finite
        (request machine.show machine.thrown machine.api_url (server.workspaces token)) machine.now
      >>= λ h. pure tt

  -- The API is asked before the token is saved.
  unfoldable pub save_direct_token : Text → Action Unit
  unfolding ping_me hydrate save_access_token
  save_direct_token token = do
    lift (ping_me token)
    save_access_token machine.now token none (some machine.api_url)
    hydrate token

  -- `persistSuccess`, and the request that follows.
  unfoldable pub persist_and_ping : String → Text → Action Unit
  unfolding ping_me save_access_token clear_access_token
  persist_and_ping session_id token = do
    save_access_token machine.now token (some session_id) (some machine.api_url)
    or_roll_back machine.now (ping_me token)

  unfoldable pub issued_token : String → Bool → List (Option Text) → Outcome Text
  unfolding verify_and_decrypt_with_retry request
  issued_token session_id no_input lines =
      (verify_and_decrypt_with_retry
        (λ n code.
          request machine.show machine.thrown machine.api_url (server.verify session_id n code))
        server.decrypt no_input lines).outcome

  unfoldable pub complete_verification_branch : String → Bool → List (Option Text) → Action Unit
  unfolding issued_token persist_and_ping hydrate
  complete_verification_branch session_id no_input lines = do
    token ← lift (issued_token session_id no_input lines)
    persist_and_ping session_id token
    hydrate token

  abbrev pub name_or_default : Option String → String
  name_or_default none = machine.default_token_name
  name_or_default (some name) = name

  abbrev pub login_with : LoginFlags → Terminal → Option Text → Action Unit
  login_with flags terminal (some token) = save_direct_token token
  login_with flags terminal none =
      lift (
        request machine.show machine.thrown machine.api_url
          (server.create_session (name_or_default flags.token_name)))
      >>= λ session_id. complete_verification_branch session_id flags.no_input terminal.lines

  unfoldable pub login_core : LoginFlags → Terminal → Action Unit
  unfolding check_existing resolve_direct_token request
  login_core flags terminal = do
    check_existing flags.force (flags.no_input || not terminal.is_tty) terminal.answer
    direct ← lift (resolve_direct_token flags terminal)
    login_with flags terminal direct

  unfoldable pub login_effect : LoginFlags → Terminal → Action Unit
  unfolding login_core remap_transport_errors
  login_effect flags terminal d =
      let r = login_core flags terminal d in (map_error remap_transport_errors r.0, r.1)
