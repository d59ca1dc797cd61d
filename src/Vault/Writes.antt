-- ===== src/Vault/Writes.antt =====
-- When a credential is written.
use usezombie.Prelude.{◌≡◌, refl, String, Text, Bool, true, false, Option, some, [], ◌∷◌, any}
use usezombie.Json.{Json, Fields, get}
use usezombie.Cli.Effects.{Outcome, succeeded, failed}
use usezombie.Cli.Store.{Disk}
use usezombie.Cli.Guards.{present, require_workspace_id, resolve_auth_token}
use usezombie.Vault.{
  Request, list_credentials, store_credential, delete_credential, AddFlags, Report, Sent, and_then,
  quietly, skipped, resolve_data_source, parse_data_object, find_named, rows_or_empty,
  find_credential_by_name, credential_add,
}

abbrev pub is_store : Request → Bool
is_store (list_credentials _) = false
is_store (store_credential _ _ _) = true
is_store (delete_credential _ _) = false

-- Nothing is stored, and a report says that the name was skipped.
abbrev pub Keeps : String → Sent Report → Type 0
Keeps name (succeeded report, requests) = (any is_store requests ≡ false) × (report ≡ skipped name)
Keeps name (failed err, requests) = any is_store requests ≡ false

module _ (parse : Text → Option Json) (answer : Request → Text → Outcome Json)
    (env_token : Option Text) (d : Disk) where
  parsed-Keeps :
      (name : String) (o : Outcome Fields) (next : Fields → Sent Report)
      → ((fields : Fields) → Keeps name (next fields))
      → Keeps name (and_then (quietly o) next)
  parsed-Keeps name (failed err) next h = refl
  parsed-Keeps name (succeeded fields) next h = h fields

  read-Keeps :
      (name : String) (o : Outcome Text) (next : Text → Sent Report)
      → ((raw : Text) → Keeps name (next raw))
      → Keeps name (and_then (quietly o) next)
  read-Keeps name (failed err) next h = refl
  read-Keeps name (succeeded raw) next h = h raw

  looked_up :
      (workspace_id name : String) (token : Text) (res row : Json)
      → (resolve_auth_token env_token d).0 ≡ succeeded token
      → answer (list_credentials workspace_id) token ≡ succeeded res
      → find_named name (rows_or_empty (get "credentials" res)) ≡ some row
      → find_credential_by_name parse answer env_token d workspace_id name
        ≡ (succeeded (some row), list_credentials workspace_id ∷ [])
  unfolding find_credential_by_name
  looked_up workspace_id name token res row authenticated listed known =
      rw (authenticated, listed, known) refl

  -- Without --force, and whatever the data: if the server lists a credential with the name, `credential
  -- add` stores nothing, and if it succeeds it says that the name was skipped.
  pub credential_add-Keeps :
      (flags : AddFlags) (input : Option Text) (workspace_id name : String) (token : Text)
      (res row : Json)
      → flags.force ≡ false
      → (require_workspace_id d).0 ≡ succeeded workspace_id
      → present flags.name ≡ some name
      → (resolve_auth_token env_token d).0 ≡ succeeded token
      → answer (list_credentials workspace_id) token ≡ succeeded res
      → find_named name (rows_or_empty (get "credentials" res)) ≡ some row
      → Keeps name (credential_add parse answer env_token d flags input)
  unfolding credential_add
  credential_add-Keeps flags input workspace_id name token res row unforced selected named
        authenticated listed known =
      rw (selected, named)
        (read-Keeps name (resolve_data_source flags.data_arg input) _ (λ raw.
          parsed-Keeps name (parse_data_object (parse raw)) _ (λ fields.
            rw (unforced, looked_up workspace_id name token res row authenticated listed known)
              (refl, refl))))
