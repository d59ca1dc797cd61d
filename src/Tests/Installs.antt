-- ===== src/Tests/Installs.antt =====
-- An installation from a directory at a fixed input.
use usezombie.Prelude.{◌≡◌, refl, codes, Text, none, some, [], ◌∷◌, str_append}
use usezombie.Cli.Effects.{Outcome, succeeded}
use usezombie.Cli.Store.{Disk, Credentials, Workspaces, holds}
use usezombie.Cli.Guards.{require_workspace_id, resolve_auth_token}
use usezombie.Install.{
  FileSystem, directory, content, InstallResponse, Request, installed, post, install_effect,
  load_bundle, load_skill_from_path,
}
use usezombie.Install.Uploads.{IsInstallation, install_effect-IsInstallation}

abbrev files : FileSystem
files = record {
  stat = λ path. directory;
  read_file = λ path. content (str_append "text of " path);
  join = λ path name. str_append path (str_append "/" name);
  basename = λ path. path;
}

abbrev logged_in : Credentials
logged_in = record {
  token = some (codes "t");
  saved_at = some 1;
  session_id = none;
  api_url = none;
}

abbrev chosen : Workspaces
chosen = record { current_workspace_id = some "w"; items = [] }

abbrev disk : Disk
disk = record { credentials = holds logged_in; workspaces = holds chosen; writes = [] }

abbrev accepting : Request → Text → Outcome InstallResponse
accepting request token =
    succeeded record { zombie_id = some "z"; name = none; webhook_urls = none }

install_effect-IsInstallation_example :
    IsInstallation files none disk accepting
      (some "bot")
      (install_effect files none disk accepting (some "bot"))
install_effect-IsInstallation_example =
    install_effect-IsInstallation files none disk accepting (some "bot")

live : install_effect files none disk accepting (some "bot") ≡ (
  succeeded (installed "bot" (some "z") []),
  post "w" "text of bot/TRIGGER.md" "text of bot/SKILL.md" ∷ [],
)
unfolding install_effect require_workspace_id resolve_auth_token load_bundle load_skill_from_path
live = refl
