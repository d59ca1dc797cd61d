-- ===== src/Workspaces/Deletion.antt =====
-- What a deletion does to the list.
use usezombie.Prelude.{
  ℕ, ◌≡◌, refl, ap, String, str_eq, Bool, false, not, Option, none, some, List, [], ◌∷◌, keep,
  Bool-cases, inl, inr, ||_false, str_eq-swap,
}
use usezombie.Cli.Effects.{succeeded}
use usezombie.Cli.Store.{
  WorkspaceItem, Workspaces, Disk, stored, next_write, load_workspaces, with_workspaces,
}
use usezombie.Cli.Guards.{present}
use usezombie.Cli.Validators.{validate_required_id}
use usezombie.Workspaces.{
  or_else, has_workspace_id, find_item, first_id, without, workspace_delete, deleted, is_current,
}
use usezombie.Workspaces.Listed.{is_listed, other-unmatched}

-- Whether the items agree on every id but one.
abbrev pub AgreeOutside : String → List WorkspaceItem → List WorkspaceItem → Type 0
AgreeOutside id xs ys =
    (other : String) → str_eq other id ≡ false → find_item other xs ≡ find_item other ys

abbrev pub others : String → List WorkspaceItem → List WorkspaceItem
others id items = keep (λ item. not (has_workspace_id id item)) items

others-unlisted :
    (id : String) (items : List WorkspaceItem) → is_listed id (others id items) ≡ false
others-unlisted id [] = refl
others-unlisted id (x ∷ items) = elim (Bool-cases (has_workspace_id id x)) [
  | inl h ↦ rw h (others-unlisted id items)
  | inr h ↦ rw (h, h) (others-unlisted id items)
]

others-agree : (id : String) (items : List WorkspaceItem) → AgreeOutside id (others id items) items
others-agree id [] other e = refl
others-agree id (x ∷ items) other e = elim (Bool-cases (has_workspace_id id x)) [
  | inl h ↦ rw (h, other-unmatched id other x e h) (others-agree id items other e)
  | inr h ↦ rw (h, others-agree id items other e) refl
]

first_id-unlisted :
    (id : String) (items : List WorkspaceItem)
    → is_listed id items ≡ false
    → is_current id (first_id items) ≡ false
first_id-unlisted id [] h = refl
first_id-unlisted id (x ∷ items) h = str_eq-swap x.workspace_id id (||_false _ _ h).0

without-current :
    (id : String) (current : Option String) (items : List WorkspaceItem)
    → is_current id
        (without id (record { current_workspace_id = current; items = items })).current_workspace_id
      ≡ false
unfolding without
without-current id none items = refl
without-current id (some current) items = elim (Bool-cases (str_eq current id)) [
  | inl e ↦ rw e (first_id-unlisted id (others id items) (others-unlisted id items))
  | inr e ↦ rw e (str_eq-swap current id e)
]

module _ (is_valid_uuid : String → Bool) (uuid_version : String → ℕ) where
  pub delete-runs :
      (positional from_opt : Option String) (id : String) (state : Workspaces) (d : Disk)
      → present (or_else positional from_opt) ≡ some id
      → validate_required_id is_valid_uuid uuid_version id "workspace_id" ≡ none
      → (load_workspaces d).0 ≡ succeeded state
      → next_write d.writes ≡ stored
      → workspace_delete is_valid_uuid uuid_version positional from_opt d
        ≡ (succeeded (deleted id), with_workspaces (without id state) d)
  unfolding workspace_delete
  delete-runs positional from_opt id state d given valid loaded writes =
      rw (given, valid, loaded, writes) refl

  -- A deletion of an id that is well-formed, on a disk whose list can be read and whose write
  -- succeeds, succeeds; the list that is then loaded has no item with the id, the same item as before
  -- for every other id, and another current workspace or none.
  pub workspace_delete_lem :
      (positional from_opt : Option String) (id : String) (state : Workspaces) (d : Disk)
      → present (or_else positional from_opt) ≡ some id
      → validate_required_id is_valid_uuid uuid_version id "workspace_id" ≡ none
      → (load_workspaces d).0 ≡ succeeded state
      → next_write d.writes ≡ stored
      → (let (o, after) = workspace_delete is_valid_uuid uuid_version positional from_opt d in
          (o ≡ succeeded (deleted id))
          × (next : Workspaces) × ((load_workspaces after).0 ≡ succeeded next)
          × (is_listed id next.items ≡ false)
          × AgreeOutside id next.items state.items
          × (is_current id next.current_workspace_id ≡ false))
  unfolding without
  workspace_delete_lem positional from_opt id state d given valid loaded writes =
      let runs = delete-runs positional from_opt id state d given valid loaded writes in
      (
        ap (λ r. r.0) runs,
        without id state,
        ap (λ r. (load_workspaces r.1).0) runs,
        others-unlisted id state.items,
        others-agree id state.items,
        without-current id state.current_workspace_id state.items,
      )
