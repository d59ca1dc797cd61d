-- ===== src/Vault.antt =====
-- agentsfleet/src/commands/zombie_credential.ts: the credentials of a workspace. The server, the
-- input and JSON.parse are parameters, and the requests that a command sends are listed with its
-- result.
pub mod Writes
use usezombie.Prelude.{
  String, str_append, Text, codes, trim, is_empty, str_eq, text_eq, Bool, true, false, Option, none,
  some, List, [], ◌∷◌, ◌++◌, if◌then◌else◌,
}
use usezombie.Json.{Json, obj, arr, Fields, end, field, Items, nil, cons, get, string?}
use usezombie.Cli.Errors.{CliError, validation_error, config_error}
use usezombie.Cli.Effects.{Outcome, succeeded, failed}
use usezombie.Cli.Store.{Disk}
use usezombie.Cli.Guards.{present, require_workspace_id, resolve_auth_token}

pub data Request : Type 0 where
  list_credentials : String → Request
  store_credential : String → String → Fields → Request
  delete_credential : String → String → Request

-- The result, and the requests that were sent before.
abbrev pub Sent : Type 0 → Type 0
Sent A = Outcome A × List Request

module _ {A B : Type 0} where
  abbrev pub and_then : Sent A → (A → Sent B) → Sent B
  and_then (failed err, requests) f = (failed err, requests)
  and_then (succeeded a, requests) f = let r = f a in (r.0, requests ++ r.1)

-- A step that sends nothing.
abbrev pub quietly : {A : Type 0} → Outcome A → Sent A
quietly o = (o, [])

pub data Report : Type 0 where
  skipped stored overwritten found deleted : String → Report

pub record AddFlags : Type 0 where
  pub name : Option String
  pub data_arg : Option Text
  pub force : Bool

abbrev pub require_name : Option String → Outcome String
require_name none = failed (validation_error "credential name is required")
require_name (some name) = succeeded name

-- `input` is what is read from the standard input, or `none` if that fails.
abbrev pub stdin_data : Option Text → Outcome Text
stdin_data none = failed (config_error "failed to read stdin")
stdin_data (some raw) =
    if is_empty (trim raw)
    then failed (validation_error "--data=@- but stdin was empty")
    else succeeded raw

abbrev pub missing_data_hint : String
missing_data_hint =
    "missing --data flag. Pipe JSON on stdin with --data=@- or pass --data='{...}'. Stdin form keeps secrets out of shell history."

unfoldable pub resolve_data_source : Option Text → Option Text → Outcome Text
unfolding trim
resolve_data_source none input = failed (validation_error missing_data_hint)
resolve_data_source (some payload) input =
    if is_empty payload
    then failed (validation_error missing_data_hint)
    else if text_eq payload (codes "@-")
    then stdin_data input
    else succeeded payload

-- `parseDataObject`, for what `JSON.parse` returns, without the text of its error.
unfoldable pub parse_data_object : Option Json → Outcome Fields
parse_data_object none = failed (validation_error "--data is not valid JSON")
parse_data_object (some (obj end)) =
    failed
      (validation_error "--data must be a non-empty JSON object — at least one field is required")
parse_data_object (some (obj (field name value rest))) = succeeded (field name value rest)
parse_data_object (some _) =
    failed (validation_error "--data must be a JSON object (not a string, array, or scalar)")

abbrev pub is_named : String → Json → Bool
is_named name row = elim (string? (get "name" row)) [ none ↦ false | some n ↦ str_eq n name ]

unfoldable pub find_named : String → Items → Option Json
find_named name nil = none
find_named name (cons row rows) =
    let rest = find_named name rows in if is_named name row then some row else rest

abbrev pub rows_or_empty : Option Json → Items
rows_or_empty (some (arr rows)) = rows
rows_or_empty _ = nil

module _ (parse : Text → Option Json) (answer : Request → Text → Outcome Json)
    (env_token : Option Text) (d : Disk) where
  abbrev pub send_with : Request → Outcome Text → Sent Json
  send_with request (failed err) = (failed err, [])
  send_with request (succeeded token) = (answer request token, request ∷ [])

  abbrev pub send : Request → Sent Json
  send request = send_with request (resolve_auth_token env_token d).0

  unfoldable pub find_credential_by_name : String → String → Sent (Option Json)
  unfolding resolve_auth_token find_named
  find_credential_by_name workspace_id name =
      and_then (send (list_credentials workspace_id))
        (λ res. quietly (succeeded (find_named name (rows_or_empty (get "credentials" res)))))

  abbrev pub write : String → String → Fields → Bool → Sent Report
  write workspace_id name fields force =
      and_then (send (store_credential workspace_id name fields))
        (λ res. quietly (succeeded (if force then overwritten name else stored name)))

  abbrev pub unless_found : String → String → Fields → Option Json → Sent Report
  unless_found workspace_id name fields (some row) = quietly (succeeded (skipped name))
  unless_found workspace_id name fields none = write workspace_id name fields false

  unfoldable pub credential_add : AddFlags → Option Text → Sent Report
  unfolding require_workspace_id resolve_data_source parse_data_object find_credential_by_name
  credential_add flags input = and_then (quietly (require_workspace_id d).0) (λ workspace_id.
      and_then (quietly (require_name (present flags.name))) (λ name.
        and_then (quietly (resolve_data_source flags.data_arg input)) (λ raw.
          and_then (quietly (parse_data_object (parse raw))) (λ fields.
            if flags.force
            then write workspace_id name fields true
            else and_then (find_credential_by_name workspace_id name)
                (unless_found workspace_id name fields)))))

  abbrev pub found_or_failed : String → Option Json → Sent Report
  found_or_failed name none =
      quietly (failed (config_error (str_append "credential '" (str_append name "' not found"))))
  found_or_failed name (some row) = quietly (succeeded (found name))

  unfoldable pub credential_show : Option String → Sent Report
  unfolding require_workspace_id find_credential_by_name
  credential_show raw_name = and_then (quietly (require_workspace_id d).0) (λ workspace_id.
      and_then (quietly (require_name (present raw_name)))
        (λ name. and_then (find_credential_by_name workspace_id name) (found_or_failed name)))

  unfoldable pub credential_list : Sent Json
  unfolding require_workspace_id resolve_auth_token
  credential_list =
      and_then (quietly (require_workspace_id d).0)
        (λ workspace_id. send (list_credentials workspace_id))

  unfoldable pub credential_delete : Option String → Sent Report
  unfolding require_workspace_id resolve_auth_token
  credential_delete raw_name = and_then (quietly (require_workspace_id d).0) (λ workspace_id.
      and_then (quietly (require_name (present raw_name))) (λ name.
        and_then (send (delete_credential workspace_id name))
          (λ res. quietly (succeeded (deleted name)))))
