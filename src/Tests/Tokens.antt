-- ===== src/Tests/Tokens.antt =====
-- Tokens at concrete inputs.
use usezombie.Prelude.{◌≡◌, refl, codes, false, some, trim}
use usezombie.Json.{str}
use usezombie.Token.{ResolveAuthTokenInput, resolve_auth_token_for_cli, decode_token_payload}

abbrev script : ResolveAuthTokenInput
script = record {
  file_token = some (codes " saved\n");
  env_token = some (codes "exported");
  is_tty = false;
}

file_wins : (resolve_auth_token_for_cli script).token ≡ some (codes "saved")
unfolding resolve_auth_token_for_cli trim
file_wins = refl

middle_part :
    decode_token_payload (λ s. s) (λ s. some (str "claims")) (some (codes "a.b-c.d"))
    ≡ some (str "claims")
unfolding decode_token_payload
middle_part = refl
