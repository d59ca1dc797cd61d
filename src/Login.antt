-- ===== src/Login.antt =====
-- agentsfleet/src/commands/login-device-flow.ts: the questions that the login asks, and the check of
-- the verification code. The lines that the operator types are a list, where `none`, or the end of
-- the list, is the end of the input or a cancellation. The server and the decryption are parameters.
pub mod Codes
pub mod Existing
pub mod Flow
pub mod Exits
pub mod ExitCode
pub mod Saved
pub mod Refused
use usezombie.Prelude.{
  ℕ, zero, suc, ◌≡◌, ◌==◌, ◌-◌, String, Text, codes, text_eq, trim, lower, length, all, is_digit,
  str_eq, Bool, true, false, not, ◌&&◌, ◌||◌, Option, none, some, List, [], ◌∷◌, ◌++◌, map,
  if◌then◌else◌,
}
use usezombie.Json.{Json, str}
use usezombie.Cli.Errors.{CliError, server_error, verification_failed, decrypt_error, interrupted}
use usezombie.Cli.Effects.{Outcome, succeeded, failed}

abbrev pub max_cli_verify_attempts : ℕ
max_cli_verify_attempts = 2

abbrev pub err_invalid_verification_code : String
err_invalid_verification_code = "UZ-AUTH-018"

-- `input.readLine`, and the lines that are left.
abbrev pub read_line : List (Option Text) → Option Text × List (Option Text)
read_line [] = (none, [])
read_line (line ∷ lines) = (line, lines)

-- The answer of `promptYesNo` to what was read.
unfoldable pub prompt_yes_no : Option Text → Bool
prompt_yes_no none = false
prompt_yes_no (some raw) =
    let trimmed = map lower (trim raw) in
    text_eq trimmed [] || text_eq trimmed (codes "y") || text_eq trimmed (codes "yes")

-- `idempotencyCheck`: `existing` says whether a credential is saved, `line` is what the operator types
-- if asked. The second component says whether the operator was asked.
unfoldable pub idempotency_check : Bool → Bool → Bool → Option Text → Outcome Unit × Bool
unfolding prompt_yes_no
idempotency_check force no_input existing line =
    if force
    then (succeeded tt, false)
    else if not existing
    then (succeeded tt, false)
    else if no_input
    then (failed (interrupted "an existing credential is already saved"), false)
    else if prompt_yes_no line
    then (succeeded tt, true)
    else (failed (interrupted "login aborted — existing credential kept"), true)

abbrev is_the_string : String → Json → Bool
is_the_string s (str t) = str_eq t s
is_the_string s _ = false

unfoldable pub map_verify_failure : CliError → CliError
map_verify_failure (server_error detail code status request_id) =
    if not (status == 400)
    then server_error detail code status request_id
    else if is_the_string err_invalid_verification_code code
    then server_error detail code status request_id
    else verification_failed "verification code didn't match" request_id
map_verify_failure err = err

-- `/^\d{6}$/`
abbrev pub is_code : Text → Bool
is_code code = (length code == 6) && all is_digit code

abbrev pub not_a_code : String
not_a_code = "that isn't a 6-digit code — enter the 6 digits shown in your browser"

-- The first line that is a code, the lines behind it, and the warnings on the way.
unfoldable pub prompt_lines : List (Option Text) → Option Text × List (Option Text) × List String
prompt_lines [] = (none, [], [])
prompt_lines (none ∷ lines) = (none, lines, [])
prompt_lines (some raw ∷ lines) =
    let rest = prompt_lines lines in
    if is_code (trim raw)
    then (some (trim raw), lines, [])
    else (rest.0, rest.1, not_a_code ∷ rest.2)

-- What came of the loop, the codes that it submitted and the lines that it printed.
pub record Run : Type 0 where
  pub outcome : Outcome Text
  pub submitted : List Text
  pub said : List String

abbrev canceled : List String → Run
canceled said = record {
  outcome = failed (interrupted "login canceled");
  submitted = [];
  said = "" ∷ said;
}

-- One round, with what follows it when the code was wrong and there is a strike left.
abbrev pub after : Text → List String → Run → Run
after code said rest = record {
  outcome = rest.outcome;
  submitted = code ∷ rest.submitted;
  said = ("" ∷ said) ++ "verification code didn't match — one more try" ∷ rest.said;
}

abbrev pub stop : Text → List String → Outcome Text → Run
stop code said outcome = record { outcome = outcome; submitted = code ∷ []; said = "" ∷ said }

-- The tag that `catchTag` catches.
abbrev pub is_wrong_code : CliError → Bool
is_wrong_code (verification_failed _ _) = true
is_wrong_code _ = false

abbrev pub on_attempt : Text → List String → Outcome Text → (CliError → Run) → Run
on_attempt code said (succeeded token) wrong = stop code said (succeeded token)
on_attempt code said (failed err) wrong =
    if is_wrong_code err then wrong err else stop code said (failed err)

abbrev pub decrypt_issued_token : Option Text → Outcome Text
decrypt_issued_token none = failed (decrypt_error "session integrity check failed")
decrypt_issued_token (some token) = succeeded token

abbrev pub on_response :
    {Response : Type 0} → (Response → Option Text) → Outcome Response → Outcome Text
on_response decrypt (failed err) = failed (map_verify_failure err)
on_response decrypt (succeeded response) = decrypt_issued_token (decrypt response)

module _ {Response : Type 0} (submit : ℕ → Text → Outcome Response)
    (decrypt : Response → Option Text) where
  -- `n` is the number of codes that were submitted before.
  unfoldable pub verify_and_decrypt : ℕ → Text → Outcome Text
  unfolding map_verify_failure
  verify_and_decrypt n code = on_response decrypt (submit n code)

  -- A round after the prompt; `wrong` is what follows a wrong code.
  unfoldable pub round :
      ℕ
      → Option Text × List (Option Text) × List String
      → (Text → List String → List (Option Text) → CliError → Run)
      → Run
  unfolding verify_and_decrypt
  round n (none, lines, said) wrong = canceled said
  round n (some code, lines, said) wrong =
      on_attempt code said (verify_and_decrypt n code) (wrong code said lines)

  -- The loop of `verifyAndDecryptWithRetry` with `suc spare` strikes left.
  unfoldable pub verify_loop : ℕ → ℕ → List (Option Text) → Run
  unfolding round prompt_lines
  verify_loop zero n lines =
      round n (prompt_lines lines) (λ code said rest err. stop code said (failed err))
  verify_loop (suc spare) n lines =
      round n (prompt_lines lines)
        (λ code said rest err. after code said (verify_loop spare (suc n) rest))

  unfoldable pub verify_and_decrypt_with_retry : Bool → List (Option Text) → Run
  unfolding verify_loop
  verify_and_decrypt_with_retry no_input lines =
      if no_input
      then record {
        outcome =
            failed (interrupted "verification code required but --no-input prevents prompting");
        submitted = [];
        said = [];
      }
      else verify_loop (max_cli_verify_attempts - 1) 0 lines
