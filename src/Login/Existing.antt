-- ===== src/Login/Existing.antt =====
-- A login on a machine that already has a credential.
use usezombie.Prelude.{
  ◌≡◌, refl, Text, Bool, true, false, not, ◌&&◌, ◌||◌, Option, Bool-cases, inl, inr,
}
use usezombie.Cli.Effects.{Outcome, succeeded, failed}
use usezombie.Login.{idempotency_check, prompt_yes_no}

abbrev pub goes_on : Outcome Unit → Bool
goes_on (succeeded _) = true
goes_on (failed _) = false

-- A login goes on exactly if it is forced, or there is no saved credential, or input is allowed and
-- the operator says yes; the operator is asked exactly if it is not forced, there is a saved
-- credential and input is allowed.
pub idempotency_check_lem :
    (force no_input existing : Bool) (line : Option Text)
    → (goes_on (idempotency_check force no_input existing line).0
        ≡ (force || not existing || (not no_input && prompt_yes_no line)))
      × ((idempotency_check force no_input existing line).1
          ≡ (not force && existing && not no_input))
unfolding idempotency_check
idempotency_check_lem true no_input existing line = (refl, refl)
idempotency_check_lem false no_input false line = (refl, refl)
idempotency_check_lem false true true line = (refl, refl)
idempotency_check_lem false false true line = elim (Bool-cases (prompt_yes_no line)) [
  | inl h ↦ rw h (refl, refl)
  | inr h ↦ rw h (refl, refl)
]
