-- ===== src/Auth/AfterLogin.antt =====
-- The status behind a login.
use usezombie.Prelude.{Text, Option}
use usezombie.Json.{Json}
use usezombie.Cli.Effects.{Outcome, request}
use usezombie.Login.Flow.{Server, Machine}

module _ {Response : Type 0} (machine : Machine) (server : Server Response) where
  -- The request of the status is that of the login's last check.
  abbrev pub billing_of : Text → Outcome Json
  billing_of token = request machine.show machine.thrown machine.api_url (server.billing token)
