-- ===== src/Cli/Hoare.antt =====
-- Properties of the disk that an action keeps, and properties of its value.
use usezombie.Cli.Effects.{Outcome, succeeded, failed}
use usezombie.Cli.Errors.{CliError}
use usezombie.Cli.Store.{Disk, Action, pure, raise, lift, ◌>>=◌, continue}

abbrev pub Returns : {A : Type 0} → (A → Type 0) → Outcome A → Type 0
Returns Q (succeeded a) = Q a
Returns Q (failed err) = Unit

-- From a disk with `P`, the action leads to a disk with `P`, and a value that it returns has `Q`.
pub record Runs (P : Disk → Type 0) {A : Type 0} (Q : A → Type 0) (m : Action A) : Type 0 where
  pub run : (d : Disk) → P d → P (m d).1 × Returns Q (m d).0

abbrev pub Anything : {A : Type 0} → A → Type 0
Anything _ = Unit

module _ {A B : Type 0} (P : Disk → Type 0) (Q : A → Type 0) (R : B → Type 0) where
  continue-Runs :
      (r : Outcome A × Disk) (f : A → Action B)
      → P r.1
      → Returns Q r.0
      → ((a : A) → Q a → Runs P R (f a))
      → P (continue r f).1 × Returns R (continue r f).0
  continue-Runs (succeeded a, d) f p q h = (h a q).run d p
  continue-Runs (failed err, d) f p q h = (p, tt)

pub >>=-Runs :
    {A B : Type 0} {P : Disk → Type 0} {Q : A → Type 0} {R : B → Type 0} {m : Action A}
    {f : A → Action B}
    → Runs P Q m
    → ((a : A) → Q a → Runs P R (f a))
    → Runs P R (m >>= f)
>>=-Runs {P} {Q} {R} {m} {f} h k = record {
  run = λ d p. let (p', q) = h.run d p in continue-Runs P Q R (m d) f p' q k;
}

pub pure-Runs : {A : Type 0} {P : Disk → Type 0} {Q : A → Type 0} (a : A) → Q a → Runs P Q (pure a)
pure-Runs a q = record { run = λ d p. (p, q) }

pub raise-Runs :
    {A : Type 0} {P : Disk → Type 0} {Q : A → Type 0} (err : CliError)
    → Runs P Q (raise {A = A} err)
raise-Runs err = record { run = λ d p. (p, tt) }

pub Returns-Anything : {A : Type 0} (o : Outcome A) → Returns Anything o
Returns-Anything (succeeded a) = tt
Returns-Anything (failed err) = tt

pub lift-Runs : {A : Type 0} {P : Disk → Type 0} (o : Outcome A) → Runs P Anything (lift o)
lift-Runs o = record { run = λ d p. (p, Returns-Anything o) }
