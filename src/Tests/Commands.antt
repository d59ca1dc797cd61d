-- ===== src/Tests/Commands.antt =====
-- The commands on memories, credentials and the login, and the telemetry, at fixed inputs.
use mathlib.Core.Logic.{◌↔◌}
use usezombie.Prelude.{◌≡◌, trim, refl, Text, codes, false, Option, none, some, List, [], ◌∷◌}
use usezombie.Json.{Json, str, obj, arr, cons, nil, field, end}
use usezombie.Cli.Errors.{network_error}
use usezombie.Cli.Effects.{Outcome, succeeded, failed, exit_of}
use usezombie.Cli.Store.{Disk, Credentials, Workspaces, holds, refused, stored, get_access_token}
use usezombie.Cli.Guards.{require_workspace_id, resolve_auth_token}
use usezombie.Cli.Argv.{detect_token_in_argv, token_leak_warning}
use usezombie.Cli.Argv.Leaks.{Leaks, detect_token_in_argv_iff}
use usezombie.Cli.Options.{accepted, parse_duration_option}
use usezombie.Cli.Options.Grammar.{IsDuration, parse_duration_option-grammar}
use usezombie.Memory.{preview_text}
use usezombie.Memory.Preview.{IsClean, IsShort, preview_text_safe}
use usezombie.Vault.{AddFlags, Request, credential_add, find_named}
use usezombie.Vault.Writes.{Keeps, credential_add-Keeps}
use usezombie.Auth.{logout, auth_status, revoke_existing}
use usezombie.Auth.Logout.{logout_lem}
use usezombie.Telemetry.{Telemetry, TelemetryConfig, Call, denied}
use usezombie.Telemetry.Kept.{IsKept, Op, resolve, set_distinct, run_all, run_all-IsKept}

-- A title sequence of a terminal, a line break and a tab.
abbrev hostile : Text
hostile = 27 ∷ b']' ∷ 7 ∷ b'a' ∷ 10 ∷ 9 ∷ b'b' ∷ []

disarmed : preview_text (some hostile) ≡ codes "]a b"
unfolding preview_text
disarmed = refl

preview_text_safe_example :
    IsClean (preview_text (some hostile)) × IsShort (preview_text (some hostile))
preview_text_safe_example = preview_text_safe (some hostile)

abbrev logged_in : Credentials
logged_in = record {
  token = some (codes "t");
  saved_at = some 1;
  session_id = none;
  api_url = none;
}

abbrev chosen : Workspaces
chosen = record { current_workspace_id = some "w"; items = [] }

abbrev disk : Disk
disk = record { credentials = holds logged_in; workspaces = holds chosen; writes = [] }

abbrev row : Json
row = obj (field "name" (str "db") end)

abbrev listing : Json
listing = obj (field "credentials" (arr (cons row nil)) end)

abbrev lists : Request → Text → Outcome Json
lists request token = succeeded listing

abbrev parse : Text → Option Json
parse raw = some (obj (field "key" (str "secret") end))

abbrev add_db : AddFlags
add_db = record { name = some "db"; data_arg = some (codes "{}"); force = false }

credential_add-Keeps_example : Keeps "db" (credential_add parse lists none disk add_db none)
unfolding require_workspace_id resolve_auth_token find_named
credential_add-Keeps_example =
    credential_add-Keeps parse lists none disk add_db none "w" "db" (codes "t") listing row refl
      refl refl refl refl refl

-- The server cannot be reached.
abbrev offline : Text → Outcome Json
offline token = failed (network_error "offline")

logout_lem_example :
    let (o, after) = logout offline 9 false disk in
    (o ≡ succeeded (revoke_existing offline (some (codes "t"))))
    × (get_access_token after ≡ (succeeded none, after))
    × (after.workspaces ≡ disk.workspaces)
    × (exit_of (resolve_auth_token none after).0 ≡ 5)
    × (exit_of (auth_status offline none after).0 ≡ 1)
unfolding get_access_token
logout_lem_example = logout_lem offline offline 9 disk (some (codes "t")) refl refl

abbrev opted_out : TelemetryConfig
opted_out = record {
  consent = denied;
  device_id = "device";
  session_id = "s";
  session_last_active = 0;
  distinct_id = none;
}

abbrev telemetry : Telemetry
telemetry = record { config = holds opted_out; writes = refused ∷ stored ∷ [] }

abbrev call : Call
call = record { now = 2000000; device_uuid = "new"; session_uuid = "t" }

abbrev ops : List Op
ops = resolve call ∷ set_distinct (some "user") call 2000001 ∷ []

run_all-IsKept_example : IsKept "device" denied (run_all ops telemetry)
run_all-IsKept_example = run_all-IsKept "device" denied ops telemetry ((refl, refl), tt)

-- Half an hour.
parse_duration_option-grammar_example :
    (parse_duration_option (codes " 30m") ≡ accepted 1800000)
    ↔ IsDuration (trim (codes " 30m")) 1800000
parse_duration_option-grammar_example = parse_duration_option-grammar (codes " 30m") 1800000

half_an_hour : parse_duration_option (codes " 30m") ≡ accepted 1800000
unfolding parse_duration_option
half_an_hour = refl

abbrev leaking : List Text
leaking = codes "login" ∷ codes "--token" ∷ codes "secret" ∷ []

detect_token_in_argv_iff_example :
    (detect_token_in_argv leaking ≡ some token_leak_warning) ↔ Leaks leaking
detect_token_in_argv_iff_example = detect_token_in_argv_iff leaking

warned : detect_token_in_argv leaking ≡ some token_leak_warning
unfolding detect_token_in_argv
warned = refl

positional : detect_token_in_argv (codes "--" ∷ leaking) ≡ none
unfolding detect_token_in_argv
positional = refl
