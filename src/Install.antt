-- ===== src/Install.antt =====
-- agentsfleet/src/lib/load-skill-from-path.ts and commands/zombie_install.ts: the installation and the
-- update of a zombie from a directory. The file system is three parameters, what `statSync` and
-- `readFileSync` come to and the functions on paths; the server is two, with answers of the types that the
-- source declares.
pub mod Bundle
pub mod Uploads
use usezombie.Prelude.{
  ℕ, String, str_append, str_eq, Text, Bool, Option, none, some, List, [], ◌∷◌, if◌then◌else◌,
}
use usezombie.Json.{Json}
use usezombie.Cli.Errors.{validation_error, config_error}
use usezombie.Cli.Effects.{Outcome, succeeded, failed}
use usezombie.Cli.Store.{Disk}
use usezombie.Cli.Validators.{validate_required_id}
use usezombie.Cli.Guards.{present, require_workspace_id, resolve_auth_token}

pub data Stat : Type 0 where
  directory no_directory stat_denied stat_failed : Stat

pub data ReadFile : Type 0 where
  content : String → ReadFile
  read_denied read_failed : ReadFile

pub record FileSystem : Type 0 where
  pub stat : String → Stat
  pub read_file : String → ReadFile
  pub join : String → String → String
  pub basename : String → String

pub data SkillLoadErrorCode : Type 0 where
  path_not_found path_denied skill_missing trigger_missing : SkillLoadErrorCode

pub record LoadedSkill : Type 0 where
  pub skill_md : String
  pub trigger_md : String
  pub fallback_name : String

-- The skill, or a `SkillLoadError` that is thrown.
pub data Load : Type 0 where
  loaded : LoadedSkill → Load
  not_loaded : SkillLoadErrorCode → String → Load

abbrev pub with_file : SkillLoadErrorCode → String → ReadFile → (String → Load) → Load
with_file missing path (content s) f = f s
with_file missing path read_denied f = not_loaded path_denied path
with_file missing path read_failed f = not_loaded missing path

module _ (fs : FileSystem) where
  abbrev pub load_files : String → Load
  load_files path =
      let skill_path = fs.join path "SKILL.md" in
      let trigger_path = fs.join path "TRIGGER.md" in
      with_file skill_missing skill_path (fs.read_file skill_path) (λ skill.
        with_file trigger_missing trigger_path (fs.read_file trigger_path) (λ trigger.
          loaded
            record { skill_md = skill; trigger_md = trigger; fallback_name = fs.basename path }))

  abbrev pub load_directory : String → Stat → Load
  load_directory path stat_denied = not_loaded path_denied path
  load_directory path stat_failed = not_loaded path_not_found path
  load_directory path no_directory =
      not_loaded path_not_found (str_append path " (not a directory)")
  load_directory path directory = load_files path

  unfoldable pub load_skill_from_path : String → Load
  load_skill_from_path path =
      if str_eq path ""
      then not_loaded path_not_found "<no path provided>"
      else load_directory path (fs.stat path)

abbrev pub code_text : SkillLoadErrorCode → String
code_text path_not_found = "ERR_PATH_NOT_FOUND"
code_text path_denied = "ERR_PATH_DENIED"
code_text skill_missing = "ERR_SKILL_MISSING"
code_text trigger_missing = "ERR_TRIGGER_MISSING"

abbrev pub bundle_of : Load → Outcome LoadedSkill
bundle_of (loaded skill) = succeeded skill
bundle_of (not_loaded code detail) =
    failed (config_error (str_append (code_text code) (str_append ": " detail)))

unfoldable pub load_bundle : FileSystem → String → Outcome LoadedSkill
unfolding load_skill_from_path
load_bundle fs from_path = bundle_of (load_skill_from_path fs from_path)

-- From the path, or none where it is missing or empty.
abbrev pub path_or_failed : Option String → Outcome String
path_or_failed none = failed (validation_error "--from <path> is required")
path_or_failed (some path) = succeeded path

abbrev pub require_from_path : Option String → Outcome String
require_from_path from_path = path_or_failed (present from_path)

pub record InstallResponse : Type 0 where
  pub zombie_id : Option String
  pub name : Option String
  pub webhook_urls : Option (List (String × String))

pub record UpdateResponse : Type 0 where
  pub config_revision : Option Json

-- A request has a workspace, for an update a zombie, and the texts of trigger and skill.
pub data Request : Type 0 where
  post : String → String → String → Request
  patch : String → String → String → String → Request

-- What is printed.
pub data Report : Type 0 where
  installed : String → Option String → List (String × String) → Report
  updated : String → Option Json → Report

abbrev pub Sent : Type 0
Sent = Outcome Report × List Request

abbrev pub and_then : {A : Type 0} → Outcome A → (A → Sent) → Sent
and_then (failed err) f = (failed err, [])
and_then (succeeded a) f = f a

abbrev pub reported : {A : Type 0} → (A → Report) → Outcome A → Outcome Report
reported report (failed err) = failed err
reported report (succeeded res) = succeeded (report res)

-- `a || b` and `a ?? b`.
abbrev pub or_else : {A : Type 0} → Option A → A → A
or_else none b = b
or_else (some a) b = a

abbrev pub report_installed : LoadedSkill → InstallResponse → Report
report_installed bundle res =
    installed (or_else (present res.name) bundle.fallback_name) res.zombie_id
      (or_else res.webhook_urls [])

-- The steps that both commands share, up to the request.
abbrev pub upload :
    FileSystem → Option Text → Disk → Option String → (String → LoadedSkill → Text → Sent) → Sent
upload fs env_token d from_path send = and_then (require_from_path from_path) (λ path.
    and_then (require_workspace_id d).0 (λ workspace_id. and_then (load_bundle fs path) (λ bundle.
      and_then (resolve_auth_token env_token d).0 (λ token. send workspace_id bundle token))))

module _ (fs : FileSystem) (env_token : Option Text) (d : Disk) where
  unfoldable pub install_effect : (Request → Text → Outcome InstallResponse) → Option String → Sent
  unfolding require_workspace_id load_bundle resolve_auth_token
  install_effect answer from_path = upload fs env_token d from_path (λ workspace_id bundle token.
      let request = post workspace_id bundle.trigger_md bundle.skill_md in
      (reported (report_installed bundle) (answer request token), request ∷ []))

  abbrev pub unless_invalid : Option String → Sent → Sent
  unless_invalid (some message) rest = (failed (validation_error message), [])
  unless_invalid none rest = rest

  unfoldable pub update_effect :
      (String → Bool)
      → (String → ℕ)
      → (Request → Text → Outcome UpdateResponse)
      → Option String
      → Option String
      → Sent
  unfolding validate_required_id require_workspace_id load_bundle resolve_auth_token
  update_effect is_valid_uuid uuid_version answer zombie_id from_path = elim (present zombie_id) [
    | none ↦ (failed (validation_error "zombie_id is required"), [])
    | some id ↦ unless_invalid (validate_required_id is_valid_uuid uuid_version id "zombie_id") (
        upload fs env_token d from_path (λ workspace_id bundle token.
          let request = patch workspace_id id bundle.trigger_md bundle.skill_md in
          (reported (λ res. updated id res.config_revision) (answer request token), request ∷ [])))
  ]
