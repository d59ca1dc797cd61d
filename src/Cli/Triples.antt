-- ===== src/Cli/Triples.antt =====
-- What holds after an action, for a value that it returns and for an error.
use usezombie.Cli.Effects.{Outcome, succeeded, failed}
use usezombie.Cli.Errors.{CliError}
use usezombie.Cli.Store.{Disk, Action, pure, raise, lift, ◌>>=◌, continue}

abbrev pub Ends :
    {A : Type 0} → (A → Disk → Type 0) → (CliError → Disk → Type 0) → Outcome A × Disk → Type 0
Ends Q E (succeeded a, d) = Q a d
Ends Q E (failed err, d) = E err d

-- From a disk with `P`: a returned value and the disk have `Q`, an error and the disk have `E`.
pub record Triple (P : Disk → Type 0) {A : Type 0} (m : Action A) (Q : A → Disk → Type 0)
    (E : CliError → Disk → Type 0) : Type 0 where
  pub run : (d : Disk) → P d → Ends Q E (m d)

module _ {A B : Type 0} (Q : A → Disk → Type 0) (R : B → Disk → Type 0)
    (E : CliError → Disk → Type 0) where
  continue-Ends :
      (r : Outcome A × Disk) (f : A → Action B)
      → Ends Q E r
      → ((a : A) → Triple (Q a) (f a) R E)
      → Ends R E (continue r f)
  continue-Ends (succeeded a, d) f q h = (h a).run d q
  continue-Ends (failed err, d) f q h = q

module _ {A : Type 0} {P : Disk → Type 0} {Q : A → Disk → Type 0}
    {E : CliError → Disk → Type 0} where
  pub >>=-Triple :
      {B : Type 0} {R : B → Disk → Type 0} {m : Action A} {f : A → Action B}
      → Triple P m Q E
      → ((a : A) → Triple (Q a) (f a) R E)
      → Triple P (m >>= f) R E
  >>=-Triple {R} {m} {f} h k = record { run = λ d p. continue-Ends Q R E (m d) f (h.run d p) k }

  pub pure-Triple : (a : A) → ((d : Disk) → P d → Q a d) → Triple P (pure a) Q E
  pure-Triple a q = record { run = q }

  pub raise-Triple :
      (err : CliError) → ((d : Disk) → P d → E err d) → Triple P (raise {A = A} err) Q E
  raise-Triple err e = record { run = e }

  pub lift-Triple : (o : Outcome A) → ((d : Disk) → P d → Ends Q E (o, d)) → Triple P (lift o) Q E
  lift-Triple o h = record { run = h }
