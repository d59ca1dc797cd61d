-- ===== src/Auth/Logout.antt =====
-- What a logout leaves.
use usezombie.Prelude.{ℕ, ◌≡◌, refl, Text, false, Option, none}
use usezombie.Json.{Json}
use usezombie.Cli.Errors.{exit_code}
use usezombie.Cli.Effects.{Outcome, succeeded, exit_of}
use usezombie.Cli.Store.{Disk, stored, next_write, get_access_token}
use usezombie.Cli.Guards.{resolve_auth_token}
use usezombie.Auth.{logout, auth_status, revoke_existing}

-- A logout succeeds whatever the server answers to the revocation, if the file can be read and the
-- write succeeds. Then no token is saved, the list of workspaces is untouched, and without a token in
-- the environment a command that needs one exits with 5, and the status with 1.
pub logout_lem :
    (revoke billing : Text → Outcome Json) (now : ℕ) (d : Disk) (existing : Option Text)
    → get_access_token d ≡ (succeeded existing, d)
    → next_write d.writes ≡ stored
    → (let (o, after) = logout revoke now false d in
        (o ≡ succeeded (revoke_existing revoke existing))
        × (get_access_token after ≡ (succeeded none, after))
        × (after.workspaces ≡ d.workspaces)
        × (exit_of (resolve_auth_token none after).0 ≡ 5)
        × (exit_of (auth_status billing none after).0 ≡ 1))
unfolding logout resolve_auth_token auth_status exit_code
logout_lem revoke billing now d existing read write =
    rw (read, write) (refl, refl, refl, refl, refl)
