-- ===== src/Auth/Status.antt =====
-- The exit code of the status.
use usezombie.Prelude.{ℕ, Text, Option, none, some, if◌then◌else◌}
use usezombie.Json.{Json}
use usezombie.Cli.Effects.{Outcome}
use usezombie.Auth.{probe, is_unauthorized}

abbrev pub status_exit : (Text → Outcome Json) → Option Text → ℕ
status_exit billing none = 1
status_exit billing (some token) = if is_unauthorized (probe (billing token)).status then 1 else 0
