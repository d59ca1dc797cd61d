-- ===== src/Cli/Guards/Kept.antt =====
-- The guards only read the disk.
use usezombie.Prelude.{String, Text, Option, none, some}
use usezombie.Cli.Errors.{config_error}
use usezombie.Cli.Store.{Disk, load_credentials, token_of, get_access_token}
use usezombie.Cli.Hoare.{Runs, Anything, Returns-Anything, >>=-Runs, pure-Runs, raise-Runs}
use usezombie.Cli.Guards.{or_raise, resolve_token, resolve_auth_token}

module _ {P : Disk → Type 0} where
  or_raise-Runs :
      {A : Type 0} (o : Option A) (detail : String) → Runs P Anything (or_raise o detail)
  or_raise-Runs none detail = raise-Runs (config_error detail)
  or_raise-Runs (some a) detail = pure-Runs a tt

  load_credentials-Runs : Runs P Anything load_credentials
  load_credentials-Runs = record { run = λ d p. (p, Returns-Anything (load_credentials d).0) }

  pub get_access_token-Runs : Runs P Anything get_access_token
  unfolding get_access_token
  get_access_token-Runs =
      >>=-Runs {m = load_credentials} load_credentials-Runs (λ c u. pure-Runs (token_of c) tt)

  pub resolve_auth_token-Runs :
      (env_token : Option Text) → Runs P Anything (resolve_auth_token env_token)
  unfolding resolve_auth_token
  resolve_auth_token-Runs env_token =
      >>=-Runs {m = get_access_token} get_access_token-Runs
        (λ stored u. or_raise-Runs (resolve_token env_token stored) "not authenticated")
