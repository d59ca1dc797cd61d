-- ===== src/Install/Uploads.antt =====
-- What an installation sends.
use mathlib.Core.Option.{some-injective}
use usezombie.Prelude.{
  ◌≡◌, refl, subst, none≢some, String, str_eq, Text, false, Option, none, some, [], ◌∷◌, Bool-cases,
  inl, inr,
}
use usezombie.Cli.Errors.{CliError, validation_error, config_error}
use usezombie.Cli.Effects.{Outcome, succeeded, failed}
use usezombie.Cli.Store.{Disk}
use usezombie.Cli.Guards.{present, require_workspace_id, resolve_auth_token}
use usezombie.Install.{
  FileSystem, LoadedSkill, load_bundle, InstallResponse, Request, post, Sent, path_or_failed,
  and_then, reported, report_installed, install_effect,
}
use usezombie.Install.Bundle.{IsBundle, IsLoaded, a_bundle, no_bundle, load_bundle-IsLoaded}

present_is_not_empty : (o : Option String) (s : String) → present o ≡ some s → str_eq s "" ≡ false
present_is_not_empty none s h = absurd (none≢some h)
present_is_not_empty (some t) s h = elim (Bool-cases (str_eq t "")) [
  | inl e ↦ absurd (none≢some (rw e at h))
  | inr e ↦ subst (λ u. str_eq u "" ≡ false) (some-injective _ _ (rw e at h)) e
]

-- Why an installation stops before it sends anything: the path is missing or empty, no workspace is
-- selected, there is no bundle at the path, or there is no token.
pub data IsStopped (fs : FileSystem) (env_token : Option Text) (d : Disk)
    (from_path : Option String) : CliError → Type 0 where
  no_path :
      present from_path ≡ none
      → IsStopped fs env_token d from_path (validation_error "--from <path> is required")
  no_workspace :
      (err : CliError)
      → (require_workspace_id d).0 ≡ failed err
      → IsStopped fs env_token d from_path err
  not_a_bundle :
      (path detail : String)
      → present from_path ≡ some path
      → ((skill trigger : String) → IsBundle fs path skill trigger → ⊥)
      → IsStopped fs env_token d from_path (config_error detail)
  no_token :
      (err : CliError)
      → (resolve_auth_token env_token d).0 ≡ failed err
      → IsStopped fs env_token d from_path err

-- What an installation comes to.
pub data IsInstallation (fs : FileSystem) (env_token : Option Text) (d : Disk)
    (answer : Request → Text → Outcome InstallResponse) (from_path : Option String)
    : Sent → Type 0 where
  stopped :
      (err : CliError)
      → IsStopped fs env_token d from_path err
      → IsInstallation fs env_token d answer from_path (failed err, [])
  sent :
      (path workspace_id skill trigger : String) (token : Text)
      → present from_path ≡ some path
      → (require_workspace_id d).0 ≡ succeeded workspace_id
      → IsBundle fs path skill trigger
      → (resolve_auth_token env_token d).0 ≡ succeeded token
      → IsInstallation fs env_token d answer from_path (
        reported
            (report_installed
              record { skill_md = skill; trigger_md = trigger; fallback_name = fs.basename path })
            (answer (post workspace_id trigger skill) token),
        post workspace_id trigger skill ∷ [],
      )

module _ (fs : FileSystem) (env_token : Option Text) (d : Disk)
    (answer : Request → Text → Outcome InstallResponse) (from_path : Option String) where
  abbrev send : String → LoadedSkill → Text → Sent
  send workspace_id bundle token =
      let request = post workspace_id bundle.trigger_md bundle.skill_md in
      (reported (report_installed bundle) (answer request token), request ∷ [])

  with_token :
      (path workspace_id skill trigger : String)
      → present from_path ≡ some path
      → (require_workspace_id d).0 ≡ succeeded workspace_id
      → IsBundle fs path skill trigger
      → (o : Outcome Text) → (resolve_auth_token env_token d).0 ≡ o
      → IsInstallation fs env_token d answer from_path (
          and_then o (
            send workspace_id
              record { skill_md = skill; trigger_md = trigger; fallback_name = fs.basename path }))
  with_token path workspace_id skill trigger p w b (succeeded token) t =
      sent path workspace_id skill trigger token p w b t
  with_token path workspace_id skill trigger p w b (failed err) t = stopped err (no_token err t)

  with_bundle :
      (path workspace_id : String)
      → present from_path ≡ some path
      → (require_workspace_id d).0 ≡ succeeded workspace_id
      → (o : Outcome LoadedSkill) → IsLoaded fs path o
      → IsInstallation fs env_token d answer from_path (
          and_then o
            (λ bundle. and_then (resolve_auth_token env_token d).0 (send workspace_id bundle)))
  with_bundle path workspace_id p w _ (a_bundle skill trigger b) =
      with_token path workspace_id skill trigger p w b (resolve_auth_token env_token d).0 refl
  with_bundle path workspace_id p w _ (no_bundle detail none_there) =
      stopped (config_error detail) (not_a_bundle path detail p none_there)

  with_workspace :
      (path : String)
      → present from_path ≡ some path
      → str_eq path "" ≡ false
      → (o : Outcome String) → (require_workspace_id d).0 ≡ o
      → IsInstallation fs env_token d answer from_path (
          and_then o (λ workspace_id.
            and_then
              (load_bundle fs path)
              (λ bundle. and_then (resolve_auth_token env_token d).0 (send workspace_id bundle))))
  with_workspace path p h (succeeded workspace_id) w =
      with_bundle path workspace_id p w (load_bundle fs path) (load_bundle-IsLoaded fs path h)
  with_workspace path p h (failed err) w = stopped err (no_workspace err w)

  with_path :
      (o : Option String)
      → present from_path ≡ o
      → IsInstallation fs env_token d answer from_path (
          and_then (path_or_failed o) (λ path. and_then (require_workspace_id d).0 (λ workspace_id.
            and_then
              (load_bundle fs path)
              (λ bundle. and_then (resolve_auth_token env_token d).0 (send workspace_id bundle)))))
  with_path none p = stopped _ (no_path p)
  with_path (some path) p =
      with_workspace path p (present_is_not_empty from_path path p) (require_workspace_id d).0 refl

  -- An installation sends one request, of the texts of the two files of a directory at the path, to the
  -- selected workspace, and then ends as the server answers; or it sends nothing and fails, and then the path
  -- is missing, no workspace is selected, the path has no directory with the two files in it that can be read,
  -- or there is no token.
  pub install_effect-IsInstallation :
      IsInstallation fs env_token d answer from_path
        (install_effect fs env_token d answer from_path)
  unfolding install_effect
  install_effect-IsInstallation = with_path (present from_path) refl
