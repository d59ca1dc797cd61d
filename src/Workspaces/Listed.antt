-- ===== src/Workspaces/Listed.antt =====
-- The current workspace is one of the list, whatever commands run and whatever the disk does.
use usezombie.Prelude.{
  ℕ, ◌≡◌, refl, arith, String, str_eq, str_eq_refl, false≢true, eq_iff, Bool, true, false, not,
  Option, none, some, List, [], ◌∷◌, ◌++◌, any, find, keep, Bool-cases, inl, inr, sym, ◌∙◌,
}
use usezombie.Cli.Store.{
  WorkspaceItem, Workspaces, File, missing, corrupt, blocked, holds, Disk, Write, stored, torn,
  refused, next_write, load_workspaces, save_workspaces, write_json, result_of,
}
use usezombie.Cli.Hoare.{Runs, Anything, Returns}
use usezombie.Workspaces.{
  Created, has_workspace_id, unless_existing, find_item, with_created, first_id, without,
}

abbrev pub is_listed : String → List WorkspaceItem → Bool
is_listed id items = any (has_workspace_id id) items

abbrev pub IsListed : Workspaces → Type 0
IsListed state = elim (state.current_workspace_id) [
  | none ↦ Unit
  | some id ↦ is_listed id state.items ≡ true
]

abbrev IsListedFile : File Workspaces → Type 0
IsListedFile (holds state) = IsListed state
IsListedFile _ = Unit

abbrev pub IsSound : Disk → Type 0
IsSound d = IsListedFile d.workspaces

load-IsListed :
    (f : File Workspaces) (d : Disk)
    → f ≡ d.workspaces
    → IsListedFile f
    → Returns IsListed (load_workspaces d).0
load-IsListed missing d e h = rw (sym e) tt
load-IsListed corrupt d e h = rw (sym e) tt
load-IsListed blocked d e h = rw (sym e) tt
load-IsListed (holds state) d e h = rw (sym e) h

pub load_workspaces-Runs : Runs IsSound IsListed load_workspaces
load_workspaces-Runs = record { run = λ d h. (h, load-IsListed d.workspaces d refl h) }

write-IsListed :
    (w : Write) (next : Workspaces) (f : File Workspaces)
    → IsListed next
    → IsListedFile f
    → IsListedFile (write_json w next f)
write-IsListed stored next f h k = h
write-IsListed torn next f h k = tt
write-IsListed refused next f h k = k

result_of-Anything : (failure : String) (w : Write) → Returns Anything (result_of failure w)
result_of-Anything failure stored = tt
result_of-Anything failure torn = tt
result_of-Anything failure refused = tt

pub save_workspaces-Runs :
    (next : Workspaces) → IsListed next → Runs IsSound Anything (save_workspaces next)
save_workspaces-Runs next h = record {
  run = λ d k. (
    write-IsListed (next_write d.writes) next d.workspaces h k,
    result_of-Anything _ (next_write d.writes),
  );
}

pub any-find :
    (p : WorkspaceItem → Bool) (items : List WorkspaceItem) {item : WorkspaceItem}
    → find p items ≡ some item
    → any p items ≡ true
any-find p [] e = cc
any-find p (x ∷ items) e = elim (Bool-cases (p x)) [
  | inl h ↦ rw h refl
  | inr h ↦ rw h (any-find p items (rw h at e))
]

is_listed-append :
    (id : String) (items : List WorkspaceItem) (item : WorkspaceItem)
    → item.workspace_id ≡ id
    → is_listed id (items ++ item ∷ []) ≡ true
is_listed-append id [] item e = rw (e, str_eq_refl id) refl
is_listed-append id (x ∷ items) item e = ground (arith, is_listed-append id items item e)

unless_existing-listed :
    (id : String) (item : WorkspaceItem) (items : List WorkspaceItem) (o : Option WorkspaceItem)
    → find_item id items ≡ o
    → item.workspace_id ≡ id
    → is_listed id (unless_existing o item items) ≡ true
unless_existing-listed id item items none e same = is_listed-append id items item same
unless_existing-listed id item items (some x) e same = any-find (has_workspace_id id) items e

pub with_created-listed :
    (created : Created) (name : Option String) (now : ℕ) (items : List WorkspaceItem)
    → is_listed created.workspace_id (with_created created name now items) ≡ true
unfolding with_created
with_created-listed created name now items =
    unless_existing-listed created.workspace_id _ items (find_item created.workspace_id items) refl
      refl

pub other-unmatched :
    (id other : String) (item : WorkspaceItem)
    → str_eq other id ≡ false
    → has_workspace_id id item ≡ true
    → has_workspace_id other item ≡ false
other-unmatched id other item e this = elim (Bool-cases (has_workspace_id other item)) [
  | inl that ↦
      let same = sym ((eq_iff item.workspace_id other).0 that) in
      absurd
        (false≢true (sym e ∙ (eq_iff other id).1 (same ∙ (eq_iff item.workspace_id id).0 this)))
  | inr that ↦ that
]

-- Deleting one id leaves the others in the list.
pub keep-listed :
    (id other : String) (items : List WorkspaceItem)
    → str_eq other id ≡ false
    → is_listed other items ≡ true
    → is_listed other (keep (λ item. not (has_workspace_id id item)) items) ≡ true
keep-listed id other [] e h = h
keep-listed id other (x ∷ items) e h = elim (Bool-cases (has_workspace_id id x)) [
  | inl this ↦ rw this (keep-listed id other items e (rw (other-unmatched id other x e this) at h))
  | inr this ↦ rw this (elim (Bool-cases (has_workspace_id other x)) [
    | inl that ↦ rw that refl
    | inr that ↦ rw that (keep-listed id other items e (rw that at h))
  ])
]

pub first_id-IsListed :
    (items : List WorkspaceItem)
    → IsListed (record { current_workspace_id = first_id items; items = items })
first_id-IsListed [] = tt
first_id-IsListed (x ∷ items) = rw (str_eq_refl x.workspace_id) refl

pub without-IsListed :
    (id : String) (current : Option String) (items : List WorkspaceItem)
    → IsListed (record { current_workspace_id = current; items = items })
    → IsListed (without id (record { current_workspace_id = current; items = items }))
unfolding without
without-IsListed id none items h = tt
without-IsListed id (some current) items h = elim (Bool-cases (str_eq current id)) [
  | inl e ↦ rw e (first_id-IsListed (keep (λ item. not (has_workspace_id id item)) items))
  | inr e ↦ rw e (keep-listed id current items e h)
]
