-- ===== src/Token/Source.antt =====
-- Which token wins.
use usezombie.Prelude.{
  ◌≡◌, refl, Text, Bool, true, false, Option, none, some, [], ◌∷◌, if◌then◌else◌,
}
use usezombie.Token.{
  ResolveAuthTokenInput, AuthTokenSource, file, zombie_env, nowhere, trim_or_null,
  resolve_auth_token_for_cli, resolved_from, first_candidate,
}

-- The value that is not blank, the first one if both are not.
abbrev pub or_else : Option Text → Option Text → Option Text
or_else none second = second
or_else (some t) second = some t

abbrev pub source_of :
    AuthTokenSource → AuthTokenSource → Option Text → Option Text → AuthTokenSource
source_of first second (some t) _ = first
source_of first second none (some t) = second
source_of first second none none = nowhere

chosen :
    (tty : Bool) (zombie saved : Option Text)
    → (let candidates =
          (if tty
            then resolved_from zombie_env zombie ∷ resolved_from file saved ∷ []
            else resolved_from file saved ∷ resolved_from zombie_env zombie ∷ []) in
        ((first_candidate candidates).token
          ≡ (if tty then or_else zombie saved else or_else saved zombie))
        × ((first_candidate candidates).source ≡ (
            if tty
            then source_of zombie_env file zombie saved
            else source_of file zombie_env saved zombie)))
chosen true none none = (refl, refl)
chosen true none (some s) = (refl, refl)
chosen true (some z) none = (refl, refl)
chosen true (some z) (some s) = (refl, refl)
chosen false none none = (refl, refl)
chosen false none (some s) = (refl, refl)
chosen false (some z) none = (refl, refl)
chosen false (some z) (some s) = (refl, refl)

-- With a terminal the trimmed ZOMBIE_TOKEN wins over the trimmed token of the file, and without one
-- the file's wins; a blank value counts as missing, and the source names where the token came from.
resolve_auth_token_for_cli_lem :
    (input : ResolveAuthTokenInput)
    → (let zombie = trim_or_null input.env_token in
        let saved = trim_or_null input.file_token in
        ((resolve_auth_token_for_cli input).token
          ≡ (if input.is_tty then or_else zombie saved else or_else saved zombie))
        × ((resolve_auth_token_for_cli input).source ≡ (
            if input.is_tty
            then source_of zombie_env file zombie saved
            else source_of file zombie_env saved zombie)))
unfolding resolve_auth_token_for_cli
resolve_auth_token_for_cli_lem input =
    chosen input.is_tty (trim_or_null input.env_token) (trim_or_null input.file_token)
