-- ===== src/Login/ExitCode.antt =====
-- The exit codes of a login.
use usezombie.Json.{Json}
use usezombie.Cli.Errors.{CliError}
use usezombie.Cli.Store.{Disk, Action}
use usezombie.Cli.Triples.{Triple}
use usezombie.Login.Exits.{IsLoginError}

abbrev AnyDisk : Disk → Type 0
AnyDisk _ = Unit

abbrev AnyValue : {A : Type 0} → A → Disk → Type 0
AnyValue _ _ = Unit

abbrev LoginError : CliError → Disk → Type 0
LoginError err d = IsLoginError err

abbrev Exits : {A : Type 0} → Action A → Type 0
Exits m = Triple AnyDisk m AnyValue LoginError
