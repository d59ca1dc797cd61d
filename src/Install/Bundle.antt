-- ===== src/Install/Bundle.antt =====
-- What is loaded from a path.
use usezombie.Prelude.{◌≡◌, refl, sym, ◌∙◌, String, str_eq, false}
use usezombie.Cli.Errors.{config_error}
use usezombie.Cli.Effects.{Outcome, succeeded, failed}
use usezombie.Install.{
  Stat, directory, no_directory, stat_denied, stat_failed, ReadFile, content, read_denied,
  read_failed, FileSystem, LoadedSkill, loaded, load_directory, load_skill_from_path, bundle_of,
  load_bundle, with_file, skill_missing, trigger_missing,
}

-- A directory with the two files, which can be read and hold the two texts.
pub record IsBundle (fs : FileSystem) (path skill trigger : String) : Type 0 where
  pub is_directory : fs.stat path ≡ directory
  pub skill_file : fs.read_file (fs.join path "SKILL.md") ≡ content skill
  pub trigger_file : fs.read_file (fs.join path "TRIGGER.md") ≡ content trigger

pub data IsLoaded (fs : FileSystem) (path : String) : Outcome LoadedSkill → Type 0 where
  a_bundle :
      (skill trigger : String)
      → IsBundle fs path skill trigger
      → IsLoaded fs path (
          succeeded
            record { skill_md = skill; trigger_md = trigger; fallback_name = fs.basename path })
  no_bundle :
      (detail : String)
      → ((skill trigger : String) → IsBundle fs path skill trigger → ⊥)
      → IsLoaded fs path (failed (config_error detail))

denied≢content : {s : String} → read_denied ≡ content s → ⊥
denied≢content e = cc

failed≢content : {s : String} → read_failed ≡ content s → ⊥
failed≢content e = cc

module _ (fs : FileSystem) (path : String) where
  trigger-IsLoaded :
      (skill : String)
      → fs.stat path ≡ directory
      → fs.read_file (fs.join path "SKILL.md") ≡ content skill
      → (r : ReadFile) → fs.read_file (fs.join path "TRIGGER.md") ≡ r
      → IsLoaded fs path (
          bundle_of (
            with_file trigger_missing (fs.join path "TRIGGER.md") r (λ trigger.
              loaded record {
                skill_md = skill;
                trigger_md = trigger;
                fallback_name = fs.basename path;
              })))
  trigger-IsLoaded skill s e (content trigger) f =
      a_bundle skill trigger record { is_directory = s; skill_file = e; trigger_file = f }
  trigger-IsLoaded skill s e read_denied f =
      no_bundle _ (λ _ _ b. denied≢content (sym f ∙ b.trigger_file))
  trigger-IsLoaded skill s e read_failed f =
      no_bundle _ (λ _ _ b. failed≢content (sym f ∙ b.trigger_file))

  skill-IsLoaded :
      fs.stat path ≡ directory
      → (r : ReadFile) → fs.read_file (fs.join path "SKILL.md") ≡ r
      → IsLoaded fs path (
          bundle_of (
            with_file skill_missing (fs.join path "SKILL.md") r (λ skill.
              with_file trigger_missing
                (fs.join path "TRIGGER.md")
                (fs.read_file (fs.join path "TRIGGER.md"))
                (λ trigger. loaded record {
                  skill_md = skill;
                  trigger_md = trigger;
                  fallback_name = fs.basename path;
                }))))
  skill-IsLoaded s (content skill) e =
      trigger-IsLoaded skill s e (fs.read_file (fs.join path "TRIGGER.md")) refl
  skill-IsLoaded s read_denied e = no_bundle _ (λ _ _ b. denied≢content (sym e ∙ b.skill_file))
  skill-IsLoaded s read_failed e = no_bundle _ (λ _ _ b. failed≢content (sym e ∙ b.skill_file))

  directory-IsLoaded :
      (s : Stat) → fs.stat path ≡ s → IsLoaded fs path (bundle_of (load_directory fs path s))
  directory-IsLoaded directory e = skill-IsLoaded e (fs.read_file (fs.join path "SKILL.md")) refl
  directory-IsLoaded no_directory e = no_bundle _ (λ _ _ b. other (sym e ∙ b.is_directory))
    where
      other : no_directory ≡ directory → ⊥
      other e = cc
  directory-IsLoaded stat_denied e = no_bundle _ (λ _ _ b. other (sym e ∙ b.is_directory))
    where
      other : stat_denied ≡ directory → ⊥
      other e = cc
  directory-IsLoaded stat_failed e = no_bundle _ (λ _ _ b. other (sym e ∙ b.is_directory))
    where
      other : stat_failed ≡ directory → ⊥
      other e = cc

  pub load_bundle-IsLoaded : str_eq path "" ≡ false → IsLoaded fs path (load_bundle fs path)
  unfolding load_bundle load_skill_from_path
  load_bundle-IsLoaded h = rw h (directory-IsLoaded (fs.stat path) refl)
