-- ===== src/Login/Refused.antt =====
-- A login that the check of an existing credential stops.
use usezombie.Prelude.{
  ◌≡◌, refl, Text, true, false, false≢true, not, ◌||◌, some, Bool-cases, inl, inr,
}
use usezombie.Cli.Errors.{exit_code}
use usezombie.Cli.Effects.{succeeded, exit_of}
use usezombie.Cli.Store.{Disk, get_access_token}
use usezombie.Login.{prompt_yes_no, idempotency_check}
use usezombie.Login.Flow.{
  LoginFlags, Terminal, Server, Machine, check_existing, login_core, login_effect,
  remap_transport_errors,
}

module _ {Response : Type 0} (machine : Machine) (server : Server Response) where
  -- A saved token is kept, and nothing else on the disk is changed either, by a login without --force
  -- that may not ask, or whose operator does not say yes; that login exits with 130.
  pub login_effect-refused :
      (flags : LoginFlags) (terminal : Terminal) (d : Disk) (token : Text)
      → get_access_token d ≡ (succeeded (some token), d)
      → flags.force ≡ false
      → ((flags.no_input || not terminal.is_tty) || not (prompt_yes_no terminal.answer)) ≡ true
      → (let (o, after) = login_effect machine server flags terminal d in
          (exit_of o ≡ 130) × (after ≡ d))
  unfolding login_effect login_core check_existing idempotency_check remap_transport_errors
      exit_code
  login_effect-refused flags terminal d token saved unforced refused =
      elim (Bool-cases (flags.no_input || not terminal.is_tty)) [
        | inl e ↦ rw (unforced, saved, e) (refl, refl)
        | inr e ↦ elim (Bool-cases (prompt_yes_no terminal.answer)) [
          | inl y ↦ absurd (false≢true (rw (e, y) at refused))
          | inr n ↦ rw (unforced, saved, e, n) (refl, refl)
        ]
      ]
