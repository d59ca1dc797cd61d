-- ===== src/Steer/Repl.antt =====
-- The read loop of the conversation.
use usezombie.Prelude.{
  ℕ, ◌≡◌, refl, ap, Text, trim, is_empty, Bool, true, false, ◌||◌, Option, some, List, [], ◌∷◌, any,
  inl, inr, Bool-cases, if◌then◌else◌,
}
use usezombie.Cli.Errors.{CliError}
use usezombie.Cli.Effects.{Outcome}
use usezombie.Steer.Command.{
  Machine, Round, Session, run_steer_repl, after_turn, prepend, send, print,
}
use usezombie.Steer.Turn.{IsHonest, success, failure, steer_turn-IsHonest}

-- The rounds up to the first that SIGINT has stopped.
abbrev pub until_stopped : List Round → List Round
until_stopped [] = []
until_stopped (round ∷ rounds) =
    let rest = until_stopped rounds in if round.stopped then round ∷ [] else round ∷ rest

-- Their lines without white space around them, and without those that are blank.
abbrev pub messages : List Round → List Text
messages [] = []
messages (round ∷ rounds) =
    let rest = messages rounds in if is_empty (trim round.raw) then rest else trim round.raw ∷ rest

abbrev pub exit_status : List Round → Bool → ℕ
exit_status rounds closed = if any (λ round. round.stopped) rounds || closed then 130 else 0

-- There is a session, with these messages and this exit code.
pub data IsSession (sent : List Text) (code : ℕ) : Option Session → Type 0 where
  session : (s : Session) → s.sent ≡ sent → s.code ≡ code → IsSession sent code (some s)

sent-IsSession :
    (line : Text) {sent : List Text} {code : ℕ} {o : Option Session}
    → IsSession sent code o
    → IsSession (line ∷ sent) code (prepend (send line) o)
sent-IsSession line (session s e c) = session _ (ap (λ l. line ∷ l) e) c

print-IsSession :
    (err : CliError) {sent : List Text} {code : ℕ} {o : Option Session}
    → IsSession sent code o
    → IsSession sent code (prepend (print err) o)
print-IsSession err (session s e c) = session _ e c

module _ (machine : Machine) where
  going :
      {E : Type 0} {o : Option (Outcome Unit)} {sent : List Text} {code : ℕ} {rest : Option Session}
      → IsHonest E o
      → IsSession sent code rest
      → IsSession sent code (after_turn false o rest)
  going (success u e) h = h
  going (failure err) h = print-IsSession err h

  stopping :
      {E : Type 0} {o : Option (Outcome Unit)} (rest : Option Session)
      → IsHonest E o
      → IsSession [] 130 (after_turn true o rest)
  stopping rest (success u e) = session _ refl refl
  stopping rest (failure err) = session _ refl refl

  -- Whatever the turns come to: the loop ends, it has sent the lines that are not blank, trimmed and in
  -- order, up to the first round that SIGINT stopped, so that an error of a turn stops nothing, and it
  -- exits with 130 exactly if SIGINT came in a round or closed the input, and with 0 otherwise.
  pub run_steer_repl-IsSession :
      (rounds : List Round) (closed : Bool)
      → IsSession
          (messages (until_stopped rounds))
          (exit_status rounds closed)
          (run_steer_repl machine rounds closed)
  unfolding run_steer_repl
  run_steer_repl-IsSession [] closed = session _ refl refl
  run_steer_repl-IsSession (round ∷ rounds) closed =
      let rest = run_steer_repl-IsSession rounds closed in
      let turn = steer_turn-IsHonest machine round.world (trim round.raw) in
      elim (Bool-cases (round.stopped)) [
        | inl s ↦ elim (Bool-cases (is_empty (trim round.raw))) [
          | inl e ↦ rw (s, e) (session _ refl refl)
          | inr e ↦ rw (s, e) (sent-IsSession (trim round.raw) (stopping _ turn))
        ]
        | inr s ↦ elim (Bool-cases (is_empty (trim round.raw))) [
          | inl e ↦ rw (s, e) rest
          | inr e ↦ rw (s, e) (sent-IsSession (trim round.raw) (going turn rest))
        ]
      ]
