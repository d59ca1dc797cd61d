-- ===== src/Login/Codes.antt =====
-- The verification codes that the login submits.
use usezombie.Prelude.{
  ℕ, zero, String, suc, ◌≤◌, ◌≡◌, sym, ◌∙◌, refl, Text, trim, length, Bool, true, false, Option,
  none, some, List, [], ◌∷◌, All, if◌then◌else◌, Bool-cases, inl, inr, arith,
}
use usezombie.Cli.Errors.{CliError, interrupted}
use usezombie.Cli.Effects.{Outcome, succeeded, failed}
use usezombie.Login.{
  is_code, prompt_lines, verify_and_decrypt, Run, round, verify_loop, is_wrong_code,
  verify_and_decrypt_with_retry, on_attempt, not_a_code,
}

-- The codes among the lines before the input ends.
abbrev pub codes_of : List (Option Text) → List Text
codes_of [] = []
codes_of (none ∷ lines) = []
codes_of (some raw ∷ lines) =
    let rest = codes_of lines in if is_code (trim raw) then trim raw ∷ rest else rest

-- What the prompt returns, against the codes among the lines.
data IsPrompted (lines : List (Option Text))
    : Option Text × List (Option Text) × List String → Type 0 where
  ended :
      {rest : List (Option Text)} {said : List String}
      → codes_of lines ≡ []
      → IsPrompted lines (none, rest, said)
  entered :
      {code : Text} {rest : List (Option Text)} {said : List String}
      → codes_of lines ≡ code ∷ codes_of rest
      → is_code code ≡ true
      → IsPrompted lines (some code, rest, said)

warned-IsPrompted :
    (raw : Text) (lines : List (Option Text)) {p : Option Text × List (Option Text) × List String}
    (warning : String)
    → is_code (trim raw) ≡ false
    → IsPrompted lines p
    → IsPrompted (some raw ∷ lines) (p.0, p.1, warning ∷ p.2)
warned-IsPrompted raw lines warning h (ended e) = ended (rw h e)
warned-IsPrompted raw lines warning h (entered e k) = entered (rw h e) k

prompt_lines-IsPrompted : (lines : List (Option Text)) → IsPrompted lines (prompt_lines lines)
unfolding prompt_lines
prompt_lines-IsPrompted [] = ended refl
prompt_lines-IsPrompted (none ∷ lines) = ended refl
prompt_lines-IsPrompted (some raw ∷ lines) = elim (Bool-cases (is_code (trim raw))) [
  | inl h ↦ rw h (entered (rw h refl) h)
  | inr h ↦ rw h (warned-IsPrompted raw lines not_a_code h (prompt_lines-IsPrompted lines))
]

module _ {Response : Type 0} (submit : ℕ → Text → Outcome Response)
    (decrypt : Response → Option Text) where
  -- What a wrong code leads to, for the outcome of an attempt.
  abbrev pub judge : Outcome Text → (CliError → Outcome Text) → Outcome Text
  judge (succeeded token) wrong = succeeded token
  judge (failed err) wrong = if is_wrong_code err then wrong err else failed err

  -- The outcome for a list of codes, when all but the last of `suc spare` may be wrong.
  abbrev pub settle : ℕ → ℕ → List Text → Outcome Text
  settle spare n [] = failed (interrupted "login canceled")
  settle zero n (code ∷ rest) = judge (verify_and_decrypt submit decrypt n code) (λ err. failed err)
  settle (suc spare) n (code ∷ rest) =
      judge (verify_and_decrypt submit decrypt n code) (λ err. settle spare (suc n) rest)

  judged :
      (o : Outcome Text) (code : Text) (said : List String) (wrong : CliError → Run)
      (next : CliError → Outcome Text)
      → ((err : CliError) → (wrong err).outcome ≡ next err)
      → (on_attempt code said o wrong).outcome ≡ judge o next
  judged (succeeded token) code said wrong next h = refl
  judged (failed err) code said wrong next h = elim (Bool-cases (is_wrong_code err)) [
    | inl e ↦ rw e (h err)
    | inr e ↦ rw e refl
  ]

  -- One round against one code of the list.
  abbrev turn : ℕ → List Text → (List Text → CliError → Outcome Text) → Outcome Text
  turn n [] next = failed (interrupted "login canceled")
  turn n (code ∷ rest) next = judge (verify_and_decrypt submit decrypt n code) (next rest)

  round-turn :
      (n : ℕ) (lines : List (Option Text)) {p : Option Text × List (Option Text) × List String}
      (wrong : Text → List String → List (Option Text) → CliError → Run)
      (next : List Text → CliError → Outcome Text)
      → IsPrompted lines p
      → ((code : Text) (said : List String) (rest : List (Option Text)) (err : CliError)
          → (wrong code said rest err).outcome ≡ next (codes_of rest) err)
      → (round submit decrypt n p wrong).outcome ≡ turn n (codes_of lines) next
  unfolding round
  round-turn n lines wrong next (ended e) h = rw e refl
  round-turn n lines wrong next (entered {code} {rest} {said} e k) h = rw e (
      judged (verify_and_decrypt submit decrypt n code) code said (wrong code said rest)
        (next (codes_of rest)) (h code said rest))

  settle-turn :
      (spare n : ℕ) (cs : List Text)
      → settle (suc spare) n cs ≡ turn n cs (λ rest err. settle spare (suc n) rest)
  settle-turn spare n [] = refl
  settle-turn spare n (c ∷ cs) = refl

  settle-last : (n : ℕ) (cs : List Text) → settle zero n cs ≡ turn n cs (λ rest err. failed err)
  settle-last n [] = refl
  settle-last n (c ∷ cs) = refl

  verify_loop-settle :
      (spare n : ℕ) (lines : List (Option Text))
      → (verify_loop submit decrypt spare n lines).outcome ≡ settle spare n (codes_of lines)
  unfolding verify_loop
  verify_loop-settle zero n lines =
      round-turn n lines _ (λ rest err. failed err) (prompt_lines-IsPrompted lines)
        (λ code said rest err. refl)
      ∙ sym (settle-last n (codes_of lines))
  verify_loop-settle (suc spare) n lines =
      round-turn n lines _ (λ rest err. settle spare (suc n) rest) (prompt_lines-IsPrompted lines)
        (λ code said rest err. verify_loop-settle spare (suc n) rest)
      ∙ sym (settle-turn spare n (codes_of lines))

  -- An interactive login ends, and its outcome depends only on the codes among the lines that were
  -- typed before the input ended, where a line that is not a code costs no attempt: it is the first
  -- code's, unless that code was wrong, and then the second's; without a code it is a cancellation. Any
  -- other failure of the check ends the login, a refusal of the code's shape (UZ-AUTH-018) included.
  pub verify_and_decrypt_with_retry-settle :
      (lines : List (Option Text))
      → (verify_and_decrypt_with_retry submit decrypt false lines).outcome
        ≡ settle 1 0 (codes_of lines)
  unfolding verify_and_decrypt_with_retry
  verify_and_decrypt_with_retry-settle lines = verify_loop-settle 1 0 lines

  -- At most `suc spare` codes are submitted, each of six digits.
  AreCodes : ℕ → List Text → Type 0
  AreCodes bound cs = (length cs ≤ bound) × All (λ c. is_code c ≡ true) cs

  attempted :
      (o : Outcome Text) (code : Text) (said : List String) (wrong : CliError → Run) (bound : ℕ)
      → is_code code ≡ true
      → ((err : CliError) → AreCodes (suc bound) (wrong err).submitted)
      → AreCodes (suc bound) (on_attempt code said o wrong).submitted
  unfolding AreCodes
  attempted (succeeded token) code said wrong bound k h = (omega arith, (k, tt))
  attempted (failed err) code said wrong bound k h = elim (Bool-cases (is_wrong_code err)) [
    | inl e ↦ rw e (h err)
    | inr e ↦ rw e (omega arith, (k, tt))
  ]

  round-AreCodes :
      (n : ℕ) (lines : List (Option Text)) {p : Option Text × List (Option Text) × List String}
      (bound : ℕ) (wrong : Text → List String → List (Option Text) → CliError → Run)
      → IsPrompted lines p
      → ((code : Text) (said : List String) (rest : List (Option Text)) (err : CliError)
          → is_code code ≡ true
          → AreCodes (suc bound) (wrong code said rest err).submitted)
      → AreCodes (suc bound) (round submit decrypt n p wrong).submitted
  unfolding round AreCodes
  round-AreCodes n lines bound wrong (ended e) h = (omega arith, tt)
  round-AreCodes n lines bound wrong (entered {code} {rest} {said} e k) h =
      attempted (verify_and_decrypt submit decrypt n code) code said (wrong code said rest) bound k
        (λ err. h code said rest err k)

  verify_loop-AreCodes :
      (spare n : ℕ) (lines : List (Option Text))
      → AreCodes (suc spare) (verify_loop submit decrypt spare n lines).submitted
  unfolding verify_loop AreCodes
  verify_loop-AreCodes zero n lines =
      round-AreCodes n lines 0 _ (prompt_lines-IsPrompted lines)
        (λ code said rest err k. (omega arith, (k, tt)))
  verify_loop-AreCodes (suc spare) n lines =
      round-AreCodes n lines (suc spare) _ (prompt_lines-IsPrompted lines) (λ code said rest err k.
        let (short, each) = verify_loop-AreCodes spare (suc n) rest in (omega arith, (k, each)))

  -- Whatever is typed and whatever the server answers, at most two codes are submitted, each of six
  -- digits, and with --no-input none is.
  submitted_codes :
      (no_input : Bool) (lines : List (Option Text))
      → (length (verify_and_decrypt_with_retry submit decrypt no_input lines).submitted
          ≤ (if no_input then 0 else 2))
        × All
            (λ c. is_code c ≡ true)
            (verify_and_decrypt_with_retry submit decrypt no_input lines).submitted
  unfolding verify_and_decrypt_with_retry AreCodes
  submitted_codes true lines = (omega arith, tt)
  submitted_codes false lines = verify_loop-AreCodes 1 0 lines
