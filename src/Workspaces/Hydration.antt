-- ===== src/Workspaces/Hydration.antt =====
-- agentsfleet/src/commands/login-helpers.ts, hydrateWorkspacesAfterLogin: the list of workspaces after
-- a login. Whether a number is finite is a parameter.
use usezombie.Prelude.{ℕ, String, Bool, Option, none, some, List, [], ◌∷◌, if◌then◌else◌}
use usezombie.Json.{Json, null, arr, num, Number, nat, Items, nil, cons, get, string?, is_object}
use usezombie.Cli.Errors.{CliError, unexpected_error}
use usezombie.Cli.Effects.{Outcome, succeeded, failed}
use usezombie.Cli.Store.{
  WorkspaceItem, Workspaces, Disk, Action, pure, raise, load_workspaces, save_workspaces,
  no_workspaces,
}
use usezombie.Cli.Guards.{present}
use usezombie.Workspaces.{or_else, find_item}

-- How it ended: with a new list, with no workspace to list, or with a warning about an error.
pub data Hydrated : Type 0 where
  hydrated : Hydrated
  nothing : Hydrated
  warned : CliError → Hydrated

-- The first of the two fields that is a string, if that is not empty.
abbrev pub workspace_id_of : Json → Option String
workspace_id_of rec = present (or_else (string? (get "workspace_id" rec)) (string? (get "id" rec)))

abbrev pub prepend : Option WorkspaceItem → List WorkspaceItem → List WorkspaceItem
prepend none items = items
prepend (some item) items = item ∷ items

-- `Array.isArray(value) ? value : []`
abbrev pub items_or_empty : Option Json → Items
items_or_empty (some (arr items)) = items
items_or_empty _ = nil

abbrev pub id_of : Option WorkspaceItem → Option String
id_of none = none
id_of (some item) = some item.workspace_id

-- The id among the new items that was the current one before.
abbrev pub existing_current : Option String → List WorkspaceItem → Option String
existing_current none items = none
existing_current (some previous) items = id_of (find_item previous items)

abbrev pub previous_or_none : Outcome Workspaces → Workspaces
previous_or_none (succeeded state) = state
previous_or_none (failed err) = no_workspaces

abbrev pub saved_or_warned : Outcome Unit × Disk → Outcome Hydrated × Disk
saved_or_warned (succeeded _, d) = (succeeded hydrated, d)
saved_or_warned (failed err, d) = (succeeded (warned err), d)

-- The part behind the request, for the items that the server named.
unfoldable pub save_items : List WorkspaceItem → Action Hydrated
save_items [] d = (succeeded nothing, d)
save_items (item ∷ items) d =
    let previous = previous_or_none (load_workspaces d).0 in
    saved_or_warned (
      save_workspaces
        (record {
          current_workspace_id =
              or_else (existing_current previous.current_workspace_id (item ∷ items))
                (some item.workspace_id);
          items = item ∷ items;
        })
        d)

module _ (is_finite : Number → Bool) where
  abbrev pub created_at_or : ℕ → Option Json → Number
  created_at_or fallback (some (num n)) = if is_finite n then n else nat fallback
  created_at_or fallback _ = nat fallback

  abbrev pub item_of : ℕ → Json → Option String → Option WorkspaceItem
  item_of fallback rec none = none
  item_of fallback rec (some id) = some (record {
    workspace_id = id;
    name = string? (get "name" rec);
    created_at = some (created_at_or fallback (get "created_at" rec));
  })

  unfoldable pub normalize_workspace_item : ℕ → Json → Option WorkspaceItem
  normalize_workspace_item fallback raw =
      if is_object raw then item_of fallback raw (workspace_id_of raw) else none

  unfoldable pub normalize_items : ℕ → Items → List WorkspaceItem
  unfolding normalize_workspace_item
  normalize_items fallback nil = []
  normalize_items fallback (cons raw rest) =
      prepend (normalize_workspace_item fallback raw) (normalize_items fallback rest)

  -- Reading the property of a `null` throws, and the command ends as with an UnexpectedError; the
  -- transport gives `{}` in place of a `null`, though.
  unfoldable pub hydrate_workspaces_after_login : Outcome Json → ℕ → Action Hydrated
  unfolding save_items normalize_items
  hydrate_workspaces_after_login (failed err) now = pure (warned err)
  hydrate_workspaces_after_login (succeeded null) now = raise (unexpected_error "not an object")
  hydrate_workspaces_after_login (succeeded value) now =
      save_items (normalize_items now (items_or_empty (get "items" value)))
