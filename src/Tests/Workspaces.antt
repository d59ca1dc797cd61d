-- ===== src/Tests/Workspaces.antt =====
-- The commands on the list of workspaces, on concrete disks.
use usezombie.Prelude.{
  ℕ, ◌≡◌, refl, String, Text, codes, Bool, true, false, Option, none, some, [], ◌∷◌,
}
use usezombie.Json.{Json, Number, nat, obj, end, field, arr, nil, cons, str}
use usezombie.Cli.Effects.{Outcome, succeeded, exit_of}
use usezombie.Cli.Store.{
  WorkspaceItem, Workspaces, Disk, missing, holds, stored, torn, load_workspaces,
}
use usezombie.Cli.Guards.{resolve_auth_token}
use usezombie.Cli.Validators.{validate_required_id}
use usezombie.Workspaces.{
  Created, workspace_add, workspace_use, workspace_delete, deleted, first_id, is_current,
}
use usezombie.Workspaces.Hydration.{hydrate_workspaces_after_login}
use usezombie.Workspaces.Listed.{is_listed, IsSound}
use usezombie.Workspaces.Invariant.{workspaces-IsSound, fresh, next, added, hydrated}
use usezombie.Workspaces.Deletion.{workspace_delete_lem, AgreeOutside}
use usezombie.Workspaces.Undo.{workspace_add-delete}
use usezombie.Workspaces.Selection.{workspace_use_lem, selection, valid_argument}

-- Every string is a UUID of version 7.
abbrev any_uuid : String → Bool
any_uuid id = true

abbrev seven : String → ℕ
seven id = 7

abbrev any_number : Number → Bool
any_number n = true

abbrev item : String → WorkspaceItem
item id = record { workspace_id = id; name = none; created_at = some (nat 5) }

abbrev listing : Workspaces
listing = record { current_workspace_id = some "b"; items = item "a" ∷ item "b" ∷ [] }

abbrev disk : Disk
disk = record { credentials = missing; workspaces = holds listing; writes = [] }

abbrev empty_disk : Disk
empty_disk = record { credentials = missing; workspaces = missing; writes = stored ∷ torn ∷ [] }

abbrev post : Option String → Text → Outcome Created
post name token = succeeded (record { workspace_id = "c"; name = none })

abbrev token : Option Text
token = some (codes "t")

delete_current :
    (load_workspaces (workspace_delete any_uuid seven (some "b") none disk).1).0
    ≡ succeeded (record { current_workspace_id = some "a"; items = item "a" ∷ [] })
unfolding workspace_delete
delete_current = refl

abbrev answer : Json
answer = obj (field "items" (arr (cons (obj (field "id" (str "c") end)) nil)) end)

-- An addition, and the end of a login whose write is cut.
workspaces-IsSound_example :
    IsSound
      (hydrate_workspaces_after_login any_number
        (succeeded answer)
        9
        (workspace_add post token 8 none empty_disk).1).1
workspaces-IsSound_example =
    workspaces-IsSound any_uuid seven any_number (
      next (next (fresh empty_disk refl) (added post token 8 none)) (hydrated (succeeded answer) 9))

workspace_delete_lem_example :
    let (o, after) = workspace_delete any_uuid seven (some "b") none disk in
    (o ≡ succeeded (deleted "b"))
    × (next : Workspaces) × ((load_workspaces after).0 ≡ succeeded next)
    × (is_listed "b" next.items ≡ false)
    × AgreeOutside "b" next.items listing.items
    × (is_current "b" next.current_workspace_id ≡ false)
unfolding validate_required_id
workspace_delete_lem_example =
    workspace_delete_lem any_uuid seven (some "b") none "b" listing disk refl refl refl refl

workspace_add-delete_example :
    (load_workspaces
      (workspace_delete any_uuid seven
        (some "c")
        none
        (workspace_add post token 8 none disk).1).1).0
    ≡ succeeded (record { current_workspace_id = first_id listing.items; items = listing.items })
unfolding validate_required_id resolve_auth_token
workspace_add-delete_example =
    workspace_add-delete post token 8 none (codes "t") (record { workspace_id = "c"; name = none })
      listing disk refl refl refl refl any_uuid seven refl refl refl

workspace_use_lem_example :
    let (o, after) = workspace_use any_uuid seven none (some "a") disk in
    (exit_of o, after) ≡ selection listing disk (valid_argument any_uuid seven (some "a"))
workspace_use_lem_example = workspace_use_lem any_uuid seven none (some "a") listing disk refl refl
