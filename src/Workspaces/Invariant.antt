-- ===== src/Workspaces/Invariant.antt =====
-- The current workspace stays one of the list, whatever commands run and whatever the disk does.
use usezombie.Prelude.{
  ℕ, ◌≡◌, refl, String, Text, str_eq_refl, Bool, true, Option, none, some, List, [], ◌∷◌, find, inl,
  inr, Bool-cases, subst, sym, eq_iff,
}
use mathlib.Core.Option.{some_inj}
use usezombie.Json.{Json, null, bool, num, str, arr, obj, Number, get}
use usezombie.Cli.Effects.{Outcome, succeeded, failed}
use usezombie.Cli.Store.{WorkspaceItem, Disk, missing, load_workspaces}
use usezombie.Cli.Hoare.{Runs, Anything, Returns, >>=-Runs, pure-Runs, lift-Runs, raise-Runs}
use usezombie.Cli.Guards.{present}
use usezombie.Cli.Guards.Kept.{resolve_auth_token-Runs}
use usezombie.Cli.Validators.{validate_required_id}
use usezombie.Workspaces.{
  Created, or_else, has_workspace_id, find_item, workspace_add, workspace_list, workspace_use,
  workspace_delete, workspace_show, known, selected, valid_or_raise, require_id,
}
use usezombie.Workspaces.Hydration.{
  nothing, hydrate_workspaces_after_login, save_items, existing_current, id_of, normalize_items,
  items_or_empty, previous_or_none, saved_or_warned,
}
use usezombie.Workspaces.Listed.{
  IsListed, IsSound, load_workspaces-Runs, save_workspaces-Runs, with_created-listed, any-find,
  without-IsListed, is_listed,
}

module _ (post : Option String → Text → Outcome Created) (env_token : Option Text) (now : ℕ) where
  add-Runs :
      (name_arg : Option String) → Runs IsSound Anything (workspace_add post env_token now name_arg)
  unfolding workspace_add
  add-Runs name_arg = >>=-Runs (resolve_auth_token-Runs env_token) (λ token u.
      >>=-Runs (lift-Runs (post (present name_arg) token)) (λ created v.
        >>=-Runs load_workspaces-Runs (λ state h.
          >>=-Runs
            (save_workspaces-Runs _
              (with_created-listed created (or_else created.name name_arg) now state.items))
            (λ saved w. pure-Runs _ tt))))

list-Runs : Runs IsSound Anything workspace_list
unfolding workspace_list
list-Runs = >>=-Runs load_workspaces-Runs (λ state h. pure-Runs _ tt)

selected-Runs : (o : Option String) → Runs IsSound Anything (selected o)
selected-Runs none = raise-Runs _
selected-Runs (some id) = pure-Runs id tt

show-Runs :
    (positional from_opt : Option String)
    → Runs IsSound Anything (workspace_show positional from_opt)
unfolding workspace_show
show-Runs positional from_opt = >>=-Runs load_workspaces-Runs (λ state h.
    >>=-Runs
      (selected-Runs (present (or_else from_opt (or_else positional state.current_workspace_id))))
      (λ id u. pure-Runs _ tt))

known-Runs :
    (id : String) (items : List WorkspaceItem) (o : Option WorkspaceItem)
    → find_item id items ≡ o
    → Runs IsSound (λ _. is_listed id items ≡ true) (known id o)
known-Runs id items none e = raise-Runs _
known-Runs id items (some item) e = pure-Runs tt (any-find (has_workspace_id id) items e)

valid_or_raise-Runs :
    (id : String) (o : Option String) → Runs IsSound Anything (valid_or_raise id o)
valid_or_raise-Runs id none = pure-Runs id tt
valid_or_raise-Runs id (some message) = raise-Runs _

module _ (is_valid_uuid : String → Bool) (uuid_version : String → ℕ) where
  require_id-Runs :
      (usage : String) (o : Option String)
      → Runs IsSound Anything (require_id is_valid_uuid uuid_version usage o)
  require_id-Runs usage none = raise-Runs _
  require_id-Runs usage (some id) =
      valid_or_raise-Runs id (validate_required_id is_valid_uuid uuid_version id "workspace_id")

  use-Runs :
      (positional from_opt : Option String)
      → Runs IsSound Anything (workspace_use is_valid_uuid uuid_version positional from_opt)
  unfolding workspace_use
  use-Runs positional from_opt =
      >>=-Runs (require_id-Runs _ (present (or_else positional from_opt))) (λ id u.
        >>=-Runs load_workspaces-Runs (λ state h.
          >>=-Runs (known-Runs id state.items (find_item id state.items) refl)
            (λ t listed. >>=-Runs (save_workspaces-Runs _ listed) (λ saved v. pure-Runs _ tt))))

  delete-Runs :
      (positional from_opt : Option String)
      → Runs IsSound Anything (workspace_delete is_valid_uuid uuid_version positional from_opt)
  unfolding workspace_delete
  delete-Runs positional from_opt =
      >>=-Runs (require_id-Runs _ (present (or_else positional from_opt))) (λ id u.
        >>=-Runs load_workspaces-Runs (λ state h.
          >>=-Runs
            (save_workspaces-Runs _ (without-IsListed id state.current_workspace_id state.items h))
            (λ saved v. pure-Runs _ tt)))

find-holds :
    (p : WorkspaceItem → Bool) (items : List WorkspaceItem) {item : WorkspaceItem}
    → find p items ≡ some item
    → p item ≡ true
find-holds p [] e = cc
find-holds p (x ∷ items) {item} e = elim (Bool-cases (p x)) [
  | inl h ↦ subst (λ y. p y ≡ true) (some_inj.0 (rw h at e)) h
  | inr h ↦ find-holds p items (rw h at e)
]

found-IsListed :
    (previous : String) (item : WorkspaceItem) (items : List WorkspaceItem)
    (o : Option WorkspaceItem)
    → find_item previous (item ∷ items) ≡ o
    → IsListed (record {
      current_workspace_id = or_else (id_of o) (some item.workspace_id);
      items = item ∷ items;
    })
found-IsListed previous item items none e = rw (str_eq_refl item.workspace_id) refl
found-IsListed previous item items (some found) e =
    let same = find-holds (has_workspace_id previous) (item ∷ items) e in
    subst (λ id. is_listed id (item ∷ items) ≡ true)
      (sym ((eq_iff found.workspace_id previous).0 same))
      (any-find (has_workspace_id previous) (item ∷ items) e)

current-IsListed :
    (previous : Option String) (item : WorkspaceItem) (items : List WorkspaceItem)
    → IsListed (record {
      current_workspace_id =
          or_else (existing_current previous (item ∷ items)) (some item.workspace_id);
      items = item ∷ items;
    })
current-IsListed none item items = rw (str_eq_refl item.workspace_id) refl
current-IsListed (some previous) item items =
    found-IsListed previous item items (find_item previous (item ∷ items)) refl

warned-Runs :
    (r : Outcome Unit × Disk)
    → IsSound r.1
    → IsSound (saved_or_warned r).1 × Returns Anything (saved_or_warned r).0
warned-Runs (succeeded _, d) h = (h, tt)
warned-Runs (failed err, d) h = (h, tt)

save_items-Runs : (items : List WorkspaceItem) → Runs IsSound Anything (save_items items)
unfolding save_items
save_items-Runs [] = pure-Runs nothing tt
save_items-Runs (item ∷ items) = record {
  run = λ d h.
      let previous = previous_or_none (load_workspaces d).0 in
      warned-Runs _
        ((save_workspaces-Runs _ (current-IsListed previous.current_workspace_id item items)).run d
          h).0;
}

module _ (is_finite : Number → Bool) where
  hydrate-Runs :
      (response : Outcome Json) (now : ℕ)
      → Runs IsSound Anything (hydrate_workspaces_after_login is_finite response now)
  unfolding hydrate_workspaces_after_login
  hydrate-Runs (failed err) now = pure-Runs _ tt
  hydrate-Runs (succeeded null) now = raise-Runs _
  hydrate-Runs (succeeded (bool b)) now = save_items-Runs []
  hydrate-Runs (succeeded (num n)) now = save_items-Runs []
  hydrate-Runs (succeeded (str t)) now = save_items-Runs []
  hydrate-Runs (succeeded (arr vs)) now = save_items-Runs []
  hydrate-Runs (succeeded (obj fs)) now =
      save_items-Runs (normalize_items is_finite now (items_or_empty (get "items" (obj fs))))

-- A command, or the end of a login, on the disk: any arguments, any answers of the server.
module _ (is_valid_uuid : String → Bool) (uuid_version : String → ℕ)
    (is_finite : Number → Bool) where
  pub data Step (d : Disk) : Disk → Type 0 where
    added :
        (post : Option String → Text → Outcome Created) (env_token : Option Text) (now : ℕ)
        (name_arg : Option String)
        → Step d (workspace_add post env_token now name_arg d).1
    used :
        (positional from_opt : Option String)
        → Step d (workspace_use is_valid_uuid uuid_version positional from_opt d).1
    deleted :
        (positional from_opt : Option String)
        → Step d (workspace_delete is_valid_uuid uuid_version positional from_opt d).1
    listed : Step d (workspace_list d).1
    shown : (positional from_opt : Option String) → Step d (workspace_show positional from_opt d).1
    hydrated :
        (response : Outcome Json) (now : ℕ)
        → Step d (hydrate_workspaces_after_login is_finite response now d).1

  -- The disks that follow from one without a list.
  pub data Reachable : Disk → Type 0 where
    fresh : (d : Disk) → d.workspaces ≡ missing → Reachable d
    next : {d e : Disk} → Reachable d → Step d e → Reachable e

  Step-IsSound : {d e : Disk} → Step d e → IsSound d → IsSound e
  Step-IsSound {d} (added post env_token now name_arg) h =
      ((add-Runs post env_token now name_arg).run d h).0
  Step-IsSound {d} (used positional from_opt) h =
      ((use-Runs is_valid_uuid uuid_version positional from_opt).run d h).0
  Step-IsSound {d} (deleted positional from_opt) h =
      ((delete-Runs is_valid_uuid uuid_version positional from_opt).run d h).0
  Step-IsSound {d} listed h = (list-Runs.run d h).0
  Step-IsSound {d} (shown positional from_opt) h = ((show-Runs positional from_opt).run d h).0
  Step-IsSound {d} (hydrated response now) h = ((hydrate-Runs is_finite response now).run d h).0

  -- Whatever workspace commands and ends of logins run, in any order and with any arguments, answers
  -- of the server and failures of the writes, from a disk without a list: the list that is loaded has
  -- its current workspace, if there is one, among its items.
  pub workspaces-IsSound : {d : Disk} → Reachable d → IsSound d
  workspaces-IsSound (fresh d e) = rw e tt
  workspaces-IsSound (next r s) = Step-IsSound s (workspaces-IsSound r)
