-- ===== src/Cli/Guards.antt =====
-- agentsfleet/src/commands/workspace-guards.ts: the checks that a command begins with.
pub mod Kept
use usezombie.Prelude.{String, Text, str_eq, Option, none, some, if◌then◌else◌}
use usezombie.Cli.Errors.{config_error}
use usezombie.Cli.Store.{Action, pure, raise, ◌>>=◌, load_workspaces, get_access_token}

-- `resolveToken`: the stored token comes first.
abbrev pub resolve_token : Option Text → Option Text → Option Text
resolve_token env_token (some stored) = some stored
resolve_token env_token none = env_token

-- `!value` for an optional string: `undefined`, `null` and "" are missing.
abbrev pub present : Option String → Option String
present none = none
present (some s) = if str_eq s "" then none else some s

abbrev pub or_raise : {A : Type 0} → Option A → String → Action A
or_raise none detail = raise (config_error detail)
or_raise (some a) detail = pure a

unfoldable pub require_workspace_id : Action String
require_workspace_id = load_workspaces >>= λ state.
    or_raise (present state.current_workspace_id) "no workspace selected"

unfoldable pub resolve_auth_token : Option Text → Action Text
unfolding get_access_token
resolve_auth_token env_token =
    get_access_token >>= λ stored. or_raise (resolve_token env_token stored) "not authenticated"
