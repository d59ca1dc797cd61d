-- ===== src/Cli/Argv/Leaks.antt =====
-- Which command lines are warned of.
use mathlib.Core.Logic.{◌↔◌}
use mathlib.Core.Option.{some-injective}
use usezombie.Prelude.{
  ◌≡◌, refl, ==_iff, ◌==◌, none≢some, not-true, Text, codes, text_eq, text_eq_eq, strip, is_empty,
  true, false, false≢true, &&_true, not, ◌&&◌, Option, none, some, List, [], ◌∷◌, ◌++◌, Bool-cases,
  Option-cases, inl, inr,
}
use usezombie.Cli.Argv.{
  token_leak_warning, end_of_options, token_flag, has_inline_value, is_absent, has_following_value,
  detect_token_in_argv,
}

-- A value of --token that the shell has seen, before the end of the options.
pub data Leaks : List Text → Type 0 where
  inline :
      (a v : Text) (argv : List Text)
      → a ≡ codes "--token=" ++ v
      → is_empty v ≡ false
      → Leaks (a ∷ argv)
  following :
      (a v : Text) (argv : List Text)
      → a ≡ codes "--token"
      → is_empty v ≡ false
      → strip (codes "--") v ≡ none
      → Leaks (a ∷ v ∷ argv)
  later :
      (a : Text) (argv : List Text) → text_eq a (codes "--") ≡ false → Leaks argv → Leaks (a ∷ argv)

strip-append : (p t v : Text) → strip p t ≡ some v → t ≡ p ++ v
strip-append [] t v h = some-injective _ _ h
strip-append (a ∷ p) [] v h = absurd (none≢some h)
strip-append (a ∷ p) (b ∷ t) v h = elim (Bool-cases (a == b)) [
  | inl e ↦ rw ((==_iff a b).0 e, strip-append p t v (rw e at h)) refl
  | inr e ↦ absurd (none≢some (rw e at h))
]

has_inline_value-Leaks :
    (a : Text) (argv : List Text) → has_inline_value a ≡ true → Leaks (a ∷ argv)
has_inline_value-Leaks a argv h = elim (Option-cases (strip (codes "--token=") a)) [
  | inl e ↦ absurd (false≢true (rw e at h))
  | inr (v, e) ↦
      inline a v argv (strip-append (codes "--token=") a v e) (not-true (is_empty v) (rw e at h))
]

has_following_value-Leaks :
    (a : Text) (argv : List Text)
    → text_eq a token_flag ≡ true
    → has_following_value argv ≡ true
    → Leaks (a ∷ argv)
has_following_value-Leaks a [] h k = absurd (false≢true k)
has_following_value-Leaks a (v ∷ argv) h k =
    let both = &&_true (not (is_empty v)) (is_absent (strip (codes "--") v)) k in
    following a v argv (text_eq_eq a token_flag h) (not-true (is_empty v) both.0)
      (absent (strip (codes "--") v) both.1)
  where
    absent : (o : Option Text) → is_absent o ≡ true → o ≡ none
    absent none e = refl
    absent (some rest) e = absurd (false≢true e)

detect_token_in_argv-Leaks :
    (argv : List Text) → detect_token_in_argv argv ≡ some token_leak_warning → Leaks argv
unfolding detect_token_in_argv
detect_token_in_argv-Leaks [] h = absurd (none≢some h)
detect_token_in_argv-Leaks (a ∷ argv) h = elim (Bool-cases (text_eq a end_of_options)) [
  | inl e ↦ absurd (none≢some (rw e at h))
  | inr e ↦ elim (Bool-cases (has_inline_value a)) [
    | inl f ↦ has_inline_value-Leaks a argv f
    | inr f ↦ elim (Bool-cases (text_eq a token_flag && has_following_value argv)) [
      | inl g ↦
          let both = &&_true (text_eq a token_flag) (has_following_value argv) g in
          has_following_value-Leaks a argv both.0 both.1
      | inr g ↦ later a argv e (detect_token_in_argv-Leaks argv (rw (e, f, g) at h))
    ]
  ]
]

Leaks-detect_token_in_argv :
    (argv : List Text) → Leaks argv → detect_token_in_argv argv ≡ some token_leak_warning
unfolding detect_token_in_argv
Leaks-detect_token_in_argv _ (inline a v argv e p) = rw (e, p) refl
Leaks-detect_token_in_argv _ (following a v argv e p q) = rw (e, p, q) refl
Leaks-detect_token_in_argv _ (later a argv e l) = elim (Bool-cases (has_inline_value a)) [
  | inl f ↦ rw (e, f) refl
  | inr f ↦ elim (Bool-cases (text_eq a token_flag && has_following_value argv)) [
    | inl g ↦ rw (e, f, g) refl
    | inr g ↦ rw (e, f, g) (Leaks-detect_token_in_argv argv l)
  ]
]

-- The operator is warned of a token on the command line just if, before an argument that ends the options,
-- there is --token= with a value that is not empty, or --token with an argument behind it that is not empty
-- and does not begin with two dashes.
pub detect_token_in_argv_iff :
    (argv : List Text) → (detect_token_in_argv argv ≡ some token_leak_warning) ↔ Leaks argv
detect_token_in_argv_iff argv = (detect_token_in_argv-Leaks argv, Leaks-detect_token_in_argv argv)
