-- ===== src/Workspaces/Selection.antt =====
-- What `workspace use` selects.
use usezombie.Prelude.{
  ℕ, ◌≡◌, refl, String, Bool, true, false, Option, none, some, List, [], ◌∷◌, Option-cases, ◌⊎◌,
  Bool-cases, inl, inr, if◌then◌else◌,
}
use usezombie.Cli.Errors.{exit_code}
use usezombie.Cli.Effects.{succeeded, exit_of}
use usezombie.Cli.Store.{
  WorkspaceItem, Workspaces, Disk, stored, next_write, load_workspaces, with_workspaces,
}
use usezombie.Cli.Guards.{present}
use usezombie.Cli.Validators.{validate_required_id}
use usezombie.Workspaces.{or_else, has_workspace_id, find_item, workspace_use}
use usezombie.Workspaces.Listed.{is_listed}

-- The exit code and the disk, for an id or for an argument that is refused.
abbrev pub selection : Workspaces → Disk → Option String → ℕ × Disk
selection state d none = (4, d)
selection state d (some id) =
    if is_listed id state.items
    then (0, with_workspaces (record state { current_workspace_id = some id }) d)
    else (5, d)

find-listed :
    (id : String) (items : List WorkspaceItem)
    → ((find_item id items ≡ none) × (is_listed id items ≡ false))
      ⊎ ((item : WorkspaceItem) × (find_item id items ≡ some item) × (is_listed id items ≡ true))
find-listed id [] = inl (refl, refl)
find-listed id (x ∷ items) = elim (Bool-cases (has_workspace_id id x)) [
  | inl h ↦ rw h (inr (x, refl, refl))
  | inr h ↦ rw h (find-listed id items)
]

abbrev unless_refused : String → Option String → Option String
unless_refused id none = some id
unless_refused id (some message) = none

module _ (is_valid_uuid : String → Bool) (uuid_version : String → ℕ) where
  -- The id that is given, if it passes the validation; a positional argument comes first.
  abbrev pub valid_argument : Option String → Option String
  valid_argument none = none
  valid_argument (some id) =
      unless_refused id (validate_required_id is_valid_uuid uuid_version id "workspace_id")

  -- On a disk whose list can be read and whose write succeeds, `workspace use` exits with 4 for an
  -- argument that is missing or not well-formed, and with 5 for an id that is not in the list, both
  -- without a change of the disk; for an id in the list it exits with 0, and only the current
  -- workspace is changed, to that id.
  pub workspace_use_lem :
      (positional from_opt : Option String) (state : Workspaces) (d : Disk)
      → (load_workspaces d).0 ≡ succeeded state
      → next_write d.writes ≡ stored
      → (let (o, after) = workspace_use is_valid_uuid uuid_version positional from_opt d in
          (exit_of o, after))
        ≡ selection state d (valid_argument (present (or_else positional from_opt)))
  unfolding workspace_use exit_code
  workspace_use_lem positional from_opt state d loaded writes =
      elim (Option-cases (present (or_else positional from_opt))) [
        | inl e ↦ rw e refl
        | inr (id, e) ↦
            rw e
              (elim (Option-cases
                (validate_required_id is_valid_uuid uuid_version id "workspace_id")) [
                  | inr (message, e') ↦ rw e' refl
                  | inl e' ↦
                      rw (e', loaded)
                        (elim (find-listed id state.items) [
                          | inl (f, l) ↦ rw (f, l) refl
                          | inr (item, f, l) ↦ rw (f, l, writes) refl
                        ])
                ])
      ]
