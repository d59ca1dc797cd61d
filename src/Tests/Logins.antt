-- ===== src/Tests/Logins.antt =====
-- The login at concrete lines and answers of the server.
use usezombie.Prelude.{
  ℕ, ◌≡◌, refl, Text, codes, text_eq, trim, false, Option, none, some, List, [], ◌∷◌, if◌then◌else◌,
}
use usezombie.Json.{null, str}
use usezombie.Cli.Errors.{server_error}
use usezombie.Cli.Effects.{Outcome, succeeded, failed}
use usezombie.Login.{verify_and_decrypt_with_retry}
use usezombie.Login.Codes.{codes_of, settle, verify_and_decrypt_with_retry-settle}

-- The server accepts one code, and its answer is the token itself.
abbrev accept : ℕ → Text → Outcome Text
accept n code =
    if text_eq code (codes "123456")
    then succeeded (codes "token")
    else failed (server_error null (str "UZ-AUTH-011") 400 none)

abbrev as_is : Text → Option Text
as_is t = some t

abbrev typed : List (Option Text)
typed = some (codes "12") ∷ some (codes "111111") ∷ some [] ∷ some (codes " 123456 ") ∷ []

second_try :
    (verify_and_decrypt_with_retry accept as_is false typed).outcome ≡ succeeded (codes "token")
unfolding verify_and_decrypt_with_retry trim
second_try = refl

verify_and_decrypt_with_retry-settle_example :
    (verify_and_decrypt_with_retry accept as_is false typed).outcome
    ≡ settle accept as_is 1 0 (codes_of typed)
verify_and_decrypt_with_retry-settle_example =
    verify_and_decrypt_with_retry-settle accept as_is typed
