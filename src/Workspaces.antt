-- ===== src/Workspaces.antt =====
-- agentsfleet/src/commands/workspace.ts: the commands on the local list of workspaces. A command's
-- value is what it prints; tables, JSON mode and analytics are not modelled.
pub mod Hydration
pub mod Listed
pub mod Deletion
pub mod Undo
pub mod Selection
pub mod Invariant
use usezombie.Prelude.{
  ℕ, String, Text, str_eq, str_append, Bool, true, false, not, Option, none, some, List, [], ◌∷◌,
  ◌++◌, find, keep, if◌then◌else◌,
}
use usezombie.Json.{Number, nat}
use usezombie.Cli.Errors.{CliError, validation_error, config_error}
use usezombie.Cli.Effects.{Outcome}
use usezombie.Cli.Store.{
  WorkspaceItem, Workspaces, Action, pure, raise, lift, ◌>>=◌, ◌>>◌, load_workspaces,
  save_workspaces,
}
use usezombie.Cli.Validators.{validate_required_id}
use usezombie.Cli.Guards.{present, resolve_auth_token}

-- `WorkspaceCreateResponse`
pub record Created : Type 0 where
  pub workspace_id : String
  pub name : Option String

-- What `show` prints.
pub record Detail : Type 0 where
  pub workspace_id : String
  pub active : Bool
  pub name : Option String
  pub created_at : Option Number

pub data Report : Type 0 where
  added : String → Option String → Report
  listed : Workspaces → Report
  active_workspace : String → Report
  shown : Detail → Report
  deleted : String → Report

-- `a ?? b`
abbrev pub or_else : {A : Type 0} → Option A → Option A → Option A
or_else none b = b
or_else (some a) b = some a

abbrev pub has_workspace_id : String → WorkspaceItem → Bool
has_workspace_id id item = str_eq item.workspace_id id

abbrev pub find_item : String → List WorkspaceItem → Option WorkspaceItem
find_item id items = find (has_workspace_id id) items

-- The list itself if there is an existing item, or else with the new one at its end.
abbrev pub unless_existing :
    Option WorkspaceItem → WorkspaceItem → List WorkspaceItem → List WorkspaceItem
unless_existing (some existing) item items = items
unless_existing none item items = items ++ item ∷ []

unfoldable pub with_created : Created → Option String → ℕ → List WorkspaceItem → List WorkspaceItem
with_created created name now items =
    unless_existing (find_item created.workspace_id items)
      (record { workspace_id = created.workspace_id; name = name; created_at = some (nat now) })
      items

-- `post` sends the request with the name, if there is one, and the token; `env_token` is the token
-- of the environment.
unfoldable pub workspace_add :
    (Option String → Text → Outcome Created) → Option Text → ℕ → Option String → Action Report
unfolding with_created resolve_auth_token
workspace_add post env_token now name_arg = do
  token ← resolve_auth_token env_token
  created ← lift (post (present name_arg) token)
  let resolved_name = or_else created.name name_arg
  state ← load_workspaces
  save_workspaces (record {
    current_workspace_id = some created.workspace_id;
    items = with_created created resolved_name now state.items;
  })
  pure (added created.workspace_id resolved_name)

unfoldable pub workspace_list : Action Report
workspace_list = load_workspaces >>= λ state. pure (listed state)

abbrev pub first_id : List WorkspaceItem → Option String
first_id [] = none
first_id (item ∷ items) = some item.workspace_id

-- `next`, after its first assignment and the conditional one.
unfoldable pub without : String → Workspaces → Workspaces
without id state =
    let items = keep (λ item. not (has_workspace_id id item)) state.items in
    record {
      current_workspace_id = elim (state.current_workspace_id) [
        | none ↦ none
        | some current ↦ if str_eq current id then first_id items else some current
      ];
      items = items;
    }

abbrev pub known : String → Option WorkspaceItem → Action Unit
known id none =
    raise (config_error (str_append "workspace " (str_append id " is not in your local list")))
known id (some item) = pure tt

abbrev pub valid_or_raise : String → Option String → Action String
valid_or_raise id none = pure id
valid_or_raise id (some message) = raise (validation_error message)

module _ (is_valid_uuid : String → Bool) (uuid_version : String → ℕ) where
  -- `requireUseId` and `requireDeleteId`, which differ in the usage that they name.
  abbrev pub require_id : String → Option String → Action String
  require_id usage none = raise (validation_error usage)
  require_id usage (some id) =
      valid_or_raise id (validate_required_id is_valid_uuid uuid_version id "workspace_id")

  unfoldable pub workspace_use : Option String → Option String → Action Report
  unfolding validate_required_id
  workspace_use positional from_opt = do
    id ← require_id "workspace use requires <workspace_id>" (present (or_else positional from_opt))
    state ← load_workspaces
    known id (find_item id state.items)
    save_workspaces (record state { current_workspace_id = some id })
    pure (active_workspace id)

  unfoldable pub workspace_delete : Option String → Option String → Action Report
  unfolding validate_required_id without
  workspace_delete positional from_opt = do
    id ←
        require_id "workspace delete requires <workspace_id>"
          (present (or_else positional from_opt))
    state ← load_workspaces
    save_workspaces (without id state)
    pure (deleted id)

abbrev pub is_current : String → Option String → Bool
is_current id none = false
is_current id (some current) = str_eq id current

abbrev name_of : Option WorkspaceItem → Option String
name_of none = none
name_of (some item) = item.name

abbrev created_at_of : Option WorkspaceItem → Option Number
created_at_of none = none
created_at_of (some item) = item.created_at

abbrev pub selected : Option String → Action String
selected none = raise (config_error "no active workspace")
selected (some id) = pure id

unfoldable pub workspace_show : Option String → Option String → Action Report
workspace_show positional from_opt = do
  state ← load_workspaces
  id ← selected (present (or_else from_opt (or_else positional state.current_workspace_id)))
  let known = find_item id state.items
  pure (
      shown (record {
        workspace_id = id;
        active = is_current id state.current_workspace_id;
        name = name_of known;
        created_at = created_at_of known;
      }))
