-- ===== src/Cli/Store.antt =====
-- agentsfleet/src/lib/state.ts, services/credentials.ts and services/workspaces.ts: the two files of
-- the client. A file holds what the program wrote into it. The outcome of each write is given in
-- advance, so that every order of failures is a list.
use usezombie.Prelude.{ℕ, String, Text, is_empty, Option, none, some, List, [], ◌∷◌, if◌then◌else◌}
use usezombie.Json.{Number}
use usezombie.Cli.Errors.{CliError, unexpected_error}
use usezombie.Cli.Effects.{Outcome, succeeded, failed}

pub record Credentials : Type 0 where
  pub token : Option Text
  pub saved_at : Option ℕ
  pub session_id : Option String
  pub api_url : Option String

pub record WorkspaceItem : Type 0 where
  pub workspace_id : String
  pub name : Option String
  pub created_at : Option Number

pub record Workspaces : Type 0 where
  pub current_workspace_id : Option String
  pub items : List WorkspaceItem

-- There is no file, its text is not JSON, it cannot be read, or it holds a value.
pub data File (A : Type 0) : Type 0 where
  missing corrupt blocked : File A
  holds : A → File A

-- What becomes of a write: it succeeds, it fails after the file was cut, or it fails before.
pub data Write : Type 0 where
  stored torn refused : Write

-- The files, and what becomes of the next writes; behind the end of the list they succeed.
pub record Disk : Type 0 where
  pub credentials : File Credentials
  pub workspaces : File Workspaces
  pub writes : List Write

-- A command runs on the disk, and what it wrote stays written when it fails.
abbrev pub Action : Type 0 → Type 0
Action A = Disk → Outcome A × Disk

module _ {A : Type 0} where
  abbrev pub pure : A → Action A
  pure a d = (succeeded a, d)

  abbrev pub raise : CliError → Action A
  raise err d = (failed err, d)

  -- An outcome that needs no disk: of a request, of a prompt, of a check.
  abbrev pub lift : Outcome A → Action A
  lift o d = (o, d)

abbrev pub continue : {A B : Type 0} → Outcome A × Disk → (A → Action B) → Outcome B × Disk
continue (succeeded a, d) f = f a d
continue (failed err, d) f = (failed err, d)

infixl 5 ◌>>=◌ ◌>>◌
abbrev pub ◌>>=◌ : {A B : Type 0} → Action A → (A → Action B) → Action B
◌>>=◌ m f d = continue (m d) f

abbrev pub ◌>>◌ : {A B : Type 0} → Action A → Action B → Action B
m >> k = m >>= λ _. k

-- `readJson`
abbrev pub read_json : {A : Type 0} → String → A → File A → Outcome A
read_json failure fallback missing = succeeded fallback
read_json failure fallback corrupt = succeeded fallback
read_json failure fallback blocked = failed (unexpected_error failure)
read_json failure fallback (holds value) = succeeded value

-- `writeJson`: the file after a write, and the outcome.
abbrev pub write_json : {A : Type 0} → Write → A → File A → File A
write_json stored value file = holds value
write_json torn value file = corrupt
write_json refused value file = file

abbrev pub result_of : String → Write → Outcome Unit
result_of failure stored = succeeded tt
result_of failure torn = failed (unexpected_error failure)
result_of failure refused = failed (unexpected_error failure)

abbrev pub next_write : List Write → Write
next_write [] = stored
next_write (w ∷ ws) = w

abbrev pub later_writes : List Write → List Write
later_writes [] = []
later_writes (w ∷ ws) = ws

abbrev pub no_credentials : Credentials
no_credentials = record { token = none; saved_at = none; session_id = none; api_url = none }

abbrev pub no_workspaces : Workspaces
no_workspaces = record { current_workspace_id = none; items = [] }

abbrev pub load_credentials : Action Credentials
load_credentials d = (read_json "credentials load failed" no_credentials d.credentials, d)

abbrev pub save_credentials_as : String → Credentials → Action Unit
save_credentials_as failure next d = (
  result_of failure (next_write d.writes),
  record d {
    credentials = write_json (next_write d.writes) next d.credentials;
    writes = later_writes d.writes;
  },
)

abbrev pub load_workspaces : Action Workspaces
load_workspaces d = (read_json "workspaces load failed" no_workspaces d.workspaces, d)

abbrev pub save_workspaces : Workspaces → Action Unit
save_workspaces next d = (
  result_of "workspaces save failed" (next_write d.writes),
  record d {
    workspaces = write_json (next_write d.writes) next d.workspaces;
    writes = later_writes d.writes;
  },
)

-- The token of a record; an empty one is none.
abbrev pub token_of : Credentials → Option Text
token_of c = elim (c.token) [
  | none ↦ none
  | some token ↦ if is_empty token then none else some token
]

unfoldable pub get_access_token : Action (Option Text)
get_access_token = load_credentials >>= λ c. pure (token_of c)

unfoldable pub save_access_token : ℕ → Text → Option String → Option String → Action Unit
save_access_token now token session_id api_url =
    save_credentials_as "credentials save failed" (record {
      token = some token;
      saved_at = some now;
      session_id = session_id;
      api_url = api_url;
    })

unfoldable pub clear_access_token : ℕ → Action Unit
clear_access_token now =
    save_credentials_as "credentials clear failed"
      (record { token = none; saved_at = some now; session_id = none; api_url = none })

-- The disk after a write that succeeds.
abbrev pub with_workspaces : Workspaces → Disk → Disk
with_workspaces next d = record d { workspaces = holds next; writes = later_writes d.writes }
