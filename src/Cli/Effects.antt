-- ===== src/Cli/Effects.antt =====
-- The results of a command, and agentsfleet/src/lib/run-effect.ts: the exit code of the process.
use usezombie.Prelude.{ℕ, String, ◌==◌, Option, none, some, if◌then◌else◌}
use usezombie.Http
use usezombie.Http.{ApiError, returned, threw}
use usezombie.Cli.Errors.{CliError, unexpected_error, exit_code, to_cli_error}

pub data Outcome (A : Type 0) : Type 0 where
  succeeded : A → Outcome A
  failed : CliError → Outcome A

-- How a command ended: without a number, with a number of its own, with an error of its error channel,
-- or with a defect or an interruption, of which the text is kept.
pub data Exit : Type 0 where
  done : Exit
  number : ℕ → Exit
  failure : CliError → Exit
  died : String → Exit

-- `renderAndCount`: the exit code of the process, and the error that is printed.
unfoldable pub render_and_count : Exit → ℕ × Option CliError
render_and_count done = (0, none)
render_and_count (number n) = (if n == 0 then 0 else n, none)
render_and_count (failure err) = (exit_code err, some err)
render_and_count (died detail) =
    (exit_code (unexpected_error detail), some (unexpected_error detail))

-- The exit code of a command without a number of its own.
abbrev pub exit_of : {A : Type 0} → Outcome A → ℕ
exit_of (succeeded _) = 0
exit_of (failed err) = exit_code err

-- `request` of the HttpClient, for what became of the request with its retries.
unfoldable pub request :
    {A : Type 0} → (ℕ → String) → String → String → Http.Outcome A ApiError → Outcome A
unfolding to_cli_error
request show text url (returned value) = succeeded value
request show text url (threw thrown) = failed (to_cli_error show text url thrown)
