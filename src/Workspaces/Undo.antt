-- ===== src/Workspaces/Undo.antt =====
-- The deletion of a workspace that was just added.
use usezombie.Prelude.{
  ℕ, ◌≡◌, refl, ap, ◌∙◌, String, Text, Bool, true, false, ||_false, Option, none, some, List, [],
  ◌∷◌, ◌++◌, str_eq_refl,
}
use usezombie.Cli.Effects.{Outcome, succeeded}
use usezombie.Cli.Store.{WorkspaceItem, Workspaces, Disk, load_workspaces, with_workspaces}
use usezombie.Cli.Guards.{present, resolve_auth_token}
use usezombie.Cli.Validators.{validate_required_id}
use usezombie.Workspaces.{
  Created, or_else, has_workspace_id, find_item, without, workspace_delete, workspace_add, added,
  with_created, first_id,
}
use usezombie.Workspaces.Listed.{is_listed}
use usezombie.Workspaces.Deletion.{others, delete-runs}

unlisted :
    (id : String) (x : WorkspaceItem) (items : List WorkspaceItem)
    → is_listed id (x ∷ items) ≡ false
    → (has_workspace_id id x ≡ false) × (is_listed id items ≡ false)
unlisted id x items h = ||_false (has_workspace_id id x) (is_listed id items) h

others-all :
    (id : String) (items : List WorkspaceItem)
    → is_listed id items ≡ false
    → others id items ≡ items
others-all id [] h = refl
others-all id (x ∷ items) h =
    let (this, rest) = unlisted id x items h in rw (this, others-all id items rest) refl

others-append :
    (id : String) (items : List WorkspaceItem) (item : WorkspaceItem)
    → has_workspace_id id item ≡ true
    → is_listed id items ≡ false
    → others id (items ++ item ∷ []) ≡ items
others-append id [] item e h = rw e refl
others-append id (x ∷ items) item e h =
    let (this, rest) = unlisted id x items h in rw (this, others-append id items item e rest) refl

find-unlisted :
    (id : String) (items : List WorkspaceItem)
    → is_listed id items ≡ false
    → find_item id items ≡ none
find-unlisted id [] h = refl
find-unlisted id (x ∷ items) h =
    let (this, rest) = unlisted id x items h in rw (this, find-unlisted id items rest) refl

with_created-new :
    (created : Created) (name : Option String) (now : ℕ) (items : List WorkspaceItem)
    → is_listed created.workspace_id items ≡ false
    → others created.workspace_id (with_created created name now items) ≡ items
unfolding with_created
with_created-new created name now items h =
    rw (find-unlisted created.workspace_id items h)
      (others-append created.workspace_id items _ (str_eq_refl created.workspace_id) h)

module _ (post : Option String → Text → Outcome Created) (env_token : Option Text) (now : ℕ)
    (name_arg : Option String) (token : Text) (created : Created) (state : Workspaces) (d : Disk)
    (authenticated : resolve_auth_token env_token d ≡ (succeeded token, d))
    (answered : post (present name_arg) token ≡ succeeded created)
    (loaded : (load_workspaces d).0 ≡ succeeded state) (writes : d.writes ≡ []) where
  abbrev after_add : Workspaces
  after_add = record {
    current_workspace_id = some created.workspace_id;
    items = with_created created (or_else created.name name_arg) now state.items;
  }

  add-runs : workspace_add post env_token now name_arg d ≡ (
    succeeded (added created.workspace_id (or_else created.name name_arg)),
    with_workspaces after_add d,
  )
  unfolding workspace_add
  add-runs = rw (authenticated, answered, loaded, writes) refl

  without-after_add :
      is_listed created.workspace_id state.items ≡ false
      → without created.workspace_id after_add
        ≡ record { current_workspace_id = first_id state.items; items = state.items }
  unfolding without
  without-after_add h =
      rw
        (
          str_eq_refl created.workspace_id,
          with_created-new created (or_else created.name name_arg) now state.items h,
        )
        refl

  -- A workspace is added and then deleted, by an operator with a token, while every write succeeds
  -- and the server answers with a well-formed id that is not in the list: the items of the list are
  -- the same as before, in their order, and the current workspace is the first of them.
  pub workspace_add-delete :
      (is_valid_uuid : String → Bool) (uuid_version : String → ℕ)
      → is_listed created.workspace_id state.items ≡ false
      → present (some created.workspace_id) ≡ some created.workspace_id
      → validate_required_id is_valid_uuid uuid_version created.workspace_id "workspace_id" ≡ none
      → (let (o, after) = workspace_add post env_token now name_arg d in
          (load_workspaces
            (workspace_delete is_valid_uuid uuid_version
              (some created.workspace_id)
              none
              after).1).0)
        ≡ succeeded (record { current_workspace_id = first_id state.items; items = state.items })
  workspace_add-delete is_valid_uuid uuid_version fresh given valid = rw add-runs (
      ap (λ r. (load_workspaces r.1).0)
        (delete-runs is_valid_uuid uuid_version (some created.workspace_id) none
          created.workspace_id after_add (with_workspaces after_add d) given valid refl
          (rw writes refl))
      ∙ ap (λ v. succeeded v) (without-after_add fresh))
