-- ===== src/Cli/Options/Grammar.antt =====
-- The grammar of durations.
use mathlib.Core.Logic.{◌↔◌}
use mathlib.Core.Option.{some-injective}
use usezombie.Prelude.{
  text_eq_eq, &&_true, none≢some, ℕ, ◌*◌, ◌≡◌, refl, sym, ◌∙◌, ap, subst, Text, codes, text_eq,
  trim, true, false, Option, none, some, [], ◌∷◌, ◌++◌, all, Bool-cases, inl, inr, is_empty,
  is_digit, ◌==◌,
}
use usezombie.Cli.Options.{
  Parsed, accepted, rejected, duration_factor, duration_of, digits_value, split_digits,
  parse_duration_option,
}

-- A unit and the milliseconds in it.
pub data IsUnit : Text → ℕ → Type 0 where
  millisecond : IsUnit (codes "ms") 1
  second : IsUnit (codes "s") 1000
  minute : IsUnit (codes "m") (60 * 1000)
  hour : IsUnit (codes "h") (60 * 60 * 1000)

-- Digits, at least one, with a positive value, and a unit behind them: the number of milliseconds.
pub data IsDuration (s : Text) (ms : ℕ) : Type 0 where
  duration :
      (digits unit : Text) (factor : ℕ)
      → s ≡ digits ++ unit
      → all is_digit digits ≡ true
      → is_empty digits ≡ false
      → IsUnit unit factor
      → (digits_value 0 digits == 0) ≡ false
      → ms ≡ digits_value 0 digits * factor
      → IsDuration s ms

split_digits-append : (s : Text) → s ≡ (split_digits s).0 ++ (split_digits s).1
unfolding split_digits
split_digits-append [] = refl
split_digits-append (c ∷ s) = elim (Bool-cases (is_digit c)) [
  | inl e ↦ rw e (ap (λ t. c ∷ t) (split_digits-append s))
  | inr e ↦ rw e refl
]

split_digits-all : (s : Text) → all is_digit (split_digits s).0 ≡ true
unfolding split_digits
split_digits-all [] = refl
split_digits-all (c ∷ s) = elim (Bool-cases (is_digit c)) [
  | inl e ↦ rw (e, e) (split_digits-all s)
  | inr e ↦ rw e refl
]

accepted_inj : {A : Type 0} {a b : A} → accepted a ≡ accepted b → a ≡ b
accepted_inj {A} {a} {b} e = ap value e
  where
    value : Parsed A → A
    value (accepted x) = x
    value (rejected m) = a

duration_factor-IsUnit :
    (unit : Text) (factor : ℕ) → duration_factor unit ≡ some factor → IsUnit unit factor
duration_factor-IsUnit unit factor h = elim (Bool-cases (text_eq unit (codes "ms"))) [
  | inl e ↦ of_unit (codes "ms") 1 millisecond e (rw e at h)
  | inr e ↦ elim (Bool-cases (text_eq unit (codes "s"))) [
    | inl f ↦ of_unit (codes "s") 1000 second f (rw (e, f) at h)
    | inr f ↦ elim (Bool-cases (text_eq unit (codes "m"))) [
      | inl g ↦ of_unit (codes "m") 60000 minute g (rw (e, f, g) at h)
      | inr g ↦ elim (Bool-cases (text_eq unit (codes "h"))) [
        | inl k ↦ of_unit (codes "h") 3600000 hour k (rw (e, f, g, k) at h)
        | inr k ↦ absurd (none≢some (rw (e, f, g, k) at h))
      ]
    ]
  ]
]
  where
    of_unit :
        (name : Text) (n : ℕ)
        → IsUnit name n
        → text_eq unit name ≡ true
        → some n ≡ some factor
        → IsUnit unit factor
    of_unit name n u e same =
        subst (λ f. IsUnit unit f) (some-injective _ _ same)
          (subst (λ t. IsUnit t n) (sym (text_eq_eq unit name e)) u)

duration_of-IsDuration :
    (s digits unit : Text) (o : Option ℕ) (ms : ℕ)
    → s ≡ digits ++ unit
    → all is_digit digits ≡ true
    → duration_factor unit ≡ o
    → duration_of digits o ≡ accepted ms
    → IsDuration s ms
duration_of-IsDuration s digits unit none ms e d f h = cc
duration_of-IsDuration s digits unit (some factor) ms e d f h =
    elim (Bool-cases (is_empty digits)) [
      | inl p ↦ absurd (rejected≢accepted (rw p at h))
      | inr p ↦ elim (Bool-cases (digits_value 0 digits == 0)) [
        | inl q ↦ absurd (rejected≢accepted (rw (p, q) at h))
        | inr q ↦
            duration digits unit factor e d p (duration_factor-IsUnit unit factor f) q
              (sym (accepted_inj (rw (p, q) at h)))
      ]
    ]
  where
    rejected≢accepted : {A : Type 0} {m : _} {a : A} → rejected m ≡ accepted a → ⊥
    rejected≢accepted e = cc

-- No unit begins with a digit.
split_digits-unit : (unit : Text) (factor : ℕ) → IsUnit unit factor → split_digits unit ≡ ([], unit)
unfolding split_digits
split_digits-unit _ _ millisecond = refl
split_digits-unit _ _ second = refl
split_digits-unit _ _ minute = refl
split_digits-unit _ _ hour = refl

duration_factor-unit :
    (unit : Text) (factor : ℕ) → IsUnit unit factor → duration_factor unit ≡ some factor
duration_factor-unit _ _ millisecond = refl
duration_factor-unit _ _ second = refl
duration_factor-unit _ _ minute = refl
duration_factor-unit _ _ hour = refl

split_digits-join :
    (digits unit : Text)
    → all is_digit digits ≡ true
    → split_digits unit ≡ ([], unit)
    → split_digits (digits ++ unit) ≡ (digits, unit)
unfolding split_digits
split_digits-join [] unit d h = h
split_digits-join (c ∷ s) unit d h =
    let both = &&_true (is_digit c) (all is_digit s) d in
    rw (both.0, split_digits-join s unit both.1 h) refl

parse_duration_option-duration :
    (value digits unit : Text) (factor : ℕ)
    → trim value ≡ digits ++ unit
    → all is_digit digits ≡ true
    → is_empty digits ≡ false
    → IsUnit unit factor
    → (digits_value 0 digits == 0) ≡ false
    → parse_duration_option value ≡ accepted (digits_value 0 digits * factor)
unfolding parse_duration_option
parse_duration_option-duration value digits unit factor e d p f q =
    rw
      (
        e,
        split_digits-join digits unit d (split_digits-unit unit factor f),
        duration_factor-unit unit factor f,
        p,
        q,
      )
      refl

-- A duration is accepted, as a number of milliseconds, just if its trimmed text is digits with a unit
-- behind them, ms, s, m or h, the digits' value is positive, and the number is that value times the unit's
-- milliseconds.
pub parse_duration_option-grammar :
    (value : Text) (ms : ℕ)
    → (parse_duration_option value ≡ accepted ms) ↔ IsDuration (trim value) ms
unfolding parse_duration_option
parse_duration_option-grammar value ms = (
  λ h.
      duration_of-IsDuration (trim value) (split_digits (trim value)).0
        (split_digits (trim value)).1 (duration_factor (split_digits (trim value)).1) ms
        (split_digits-append (trim value)) (split_digits-all (trim value)) refl h,
  complete,
)
  where
    complete : IsDuration (trim value) ms → parse_duration_option value ≡ accepted ms
    complete (duration digits unit factor e d p f q m) =
        parse_duration_option-duration value digits unit factor e d p f q ∙ ap accepted (sym m)
