-- ===== src/Login/Exits.antt =====
-- The errors of a request and of the codes, as the login exits with them.
use usezombie.Prelude.{
  ℕ, zero, suc, ◌≡◌, refl, sym, subst, String, Text, Bool, true, false, ◌==◌, Option, none, some,
  List, [], ◌∷◌, ◌⊎◌, inl, inr, Bool-cases,
}
use usezombie.Json.{Json}
use usezombie.Http
use usezombie.Http.{ApiError, returned, threw, api, js, primitive}
use usezombie.Cli.Errors.{
  CliError, server_error, network_error, exit_code, to_cli_error, is_fetch_failed,
}
use usezombie.Cli.Effects.{Outcome, succeeded, failed, request}
use usezombie.Login.{
  verify_and_decrypt, map_verify_failure, on_response, decrypt_issued_token, is_the_string,
  err_invalid_verification_code, verify_and_decrypt_with_retry, is_wrong_code,
}
use usezombie.Login.Codes.{codes_of, settle, judge, verify_and_decrypt_with_retry-settle}
use usezombie.Login.Flow.{remap_transport_errors}

abbrev pub Fails : {A : Type 0} → (CliError → Type 0) → Outcome A → Type 0
Fails E (succeeded a) = Unit
Fails E (failed err) = E err

-- What the login makes of the error exits with 1, or with 130.
abbrev pub IsLoginError : CliError → Type 0
IsLoginError err =
    (exit_code (remap_transport_errors err) ≡ 1) ⊎ (exit_code (remap_transport_errors err) ≡ 130)

pub data IsTransport : CliError → Type 0 where
  from_server :
      (detail code : Json) (status : ℕ) (request_id : Option Json)
      → IsTransport (server_error detail code status request_id)
  from_network : (detail : String) → IsTransport (network_error detail)

to_cli_error-IsTransport :
    (show : ℕ → String) (text url : String) (thrown : Http.Thrown ApiError)
    → IsTransport (to_cli_error show text url thrown)
unfolding to_cli_error
to_cli_error-IsTransport show text url (api e) = from_server _ _ _ _
to_cli_error-IsTransport show text url (js e) = elim (Bool-cases (is_fetch_failed e)) [
  | inl h ↦ rw h (from_network _)
  | inr h ↦ rw h (from_network _)
]
to_cli_error-IsTransport show text url primitive = from_network _

pub request-IsTransport :
    {A : Type 0} (show : ℕ → String) (text url : String) (o : Http.Outcome A ApiError)
    → Fails IsTransport (request show text url o)
unfolding request
request-IsTransport show text url (returned a) = tt
request-IsTransport show text url (threw thrown) = to_cli_error-IsTransport show text url thrown

IsTransport-IsLoginError : {err : CliError} → IsTransport err → IsLoginError err
unfolding remap_transport_errors exit_code
IsTransport-IsLoginError (from_server _ _ _ _) = inl refl
IsTransport-IsLoginError (from_network _) = inl refl

map_verify_failure-IsLoginError :
    {err : CliError} → IsTransport err → IsLoginError (map_verify_failure err)
unfolding map_verify_failure remap_transport_errors exit_code
map_verify_failure-IsLoginError (from_network _) = inl refl
map_verify_failure-IsLoginError (from_server detail code status request_id) =
    elim (Bool-cases (status == 400)) [
      | inr h ↦ rw h (inl refl)
      | inl h ↦ rw h (elim (Bool-cases (is_the_string err_invalid_verification_code code)) [
        | inl k ↦ rw k (inl refl)
        | inr k ↦ rw k (inl refl)
      ])
    ]

pub weakened : {A : Type 0} (o : Outcome A) → Fails IsTransport o → Fails IsLoginError o
weakened (succeeded a) h = tt
weakened (failed err) h = IsTransport-IsLoginError h

module _ {Response : Type 0} (submit : ℕ → Text → Outcome Response)
    (decrypt : Response → Option Text)
    (answers : (n : ℕ) (code : Text) → Fails IsTransport (submit n code)) where
  decrypted : (o : Option Text) → Fails IsLoginError (decrypt_issued_token o)
  unfolding remap_transport_errors exit_code
  decrypted none = inl refl
  decrypted (some token) = tt

  on_response-IsLoginError :
      (o : Outcome Response) → Fails IsTransport o → Fails IsLoginError (on_response decrypt o)
  on_response-IsLoginError (failed err) h = map_verify_failure-IsLoginError h
  on_response-IsLoginError (succeeded response) h = decrypted (decrypt response)

  attempt : (n : ℕ) (code : Text) → Fails IsLoginError (verify_and_decrypt submit decrypt n code)
  unfolding verify_and_decrypt
  attempt n code = on_response-IsLoginError (submit n code) (answers n code)

  judge-IsLoginError :
      (o : Outcome Text) (wrong : CliError → Outcome Text)
      → Fails IsLoginError o
      → ((err : CliError) → IsLoginError err → Fails IsLoginError (wrong err))
      → Fails IsLoginError (judge submit decrypt o wrong)
  judge-IsLoginError (succeeded token) wrong h k = tt
  judge-IsLoginError (failed err) wrong h k = elim (Bool-cases (is_wrong_code err)) [
    | inl e ↦ rw e (k err h)
    | inr e ↦ rw e h
  ]

  settle-IsLoginError :
      (spare n : ℕ) (cs : List Text) → Fails IsLoginError (settle submit decrypt spare n cs)
  unfolding remap_transport_errors exit_code
  settle-IsLoginError spare n [] = inr refl
  settle-IsLoginError zero n (c ∷ cs) =
      judge-IsLoginError (verify_and_decrypt submit decrypt n c) _ (attempt n c) (λ err h. h)
  settle-IsLoginError (suc spare) n (c ∷ cs) =
      judge-IsLoginError (verify_and_decrypt submit decrypt n c) _ (attempt n c)
        (λ err h. settle-IsLoginError spare (suc n) cs)

  pub issued-IsLoginError :
      (no_input : Bool) (lines : List (Option Text))
      → Fails IsLoginError (verify_and_decrypt_with_retry submit decrypt no_input lines).outcome
  unfolding verify_and_decrypt_with_retry remap_transport_errors exit_code
  issued-IsLoginError true lines = inr refl
  issued-IsLoginError false lines =
      subst (λ o. Fails IsLoginError o)
        (sym (verify_and_decrypt_with_retry-settle submit decrypt lines))
        (settle-IsLoginError 1 0 (codes_of lines))
