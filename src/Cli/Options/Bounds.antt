-- ===== src/Cli/Options/Bounds.antt =====
-- What the parsers of numbers accept.
use usezombie.Prelude.{◌≡◌, refl, Text, trim, false, Option, none, some, Bool-cases, inl, inr}
use usezombie.Cli.Options.{
  Parsed, accepted, rejected, ℤ, is_below, is_above, within, integer_of, parse_int_option,
}

-- The number of an option and the bounds that it respects.
abbrev pub IsWithin : Option ℤ → Option ℤ → Option ℤ → Parsed ℤ → Type 0
IsWithin min max o (accepted n) = (o ≡ some n) × (is_below n min ≡ false) × (is_above n max ≡ false)
IsWithin min max o (rejected message) = Unit

within-IsWithin : (min max o : Option ℤ) → IsWithin min max o (within min max o)
within-IsWithin min max none = tt
within-IsWithin min max (some n) = elim (Bool-cases (is_below n min)) [
  | inl e ↦ rw e tt
  | inr e ↦ elim (Bool-cases (is_above n max)) [
    | inl f ↦ rw (e, f) tt
    | inr f ↦ rw (e, f) (refl, e, f)
  ]
]

-- An integer option that is accepted is the number of its trimmed text, neither below the minimum nor
-- above the maximum.
pub parse_int_option-IsWithin :
    (min max : Option ℤ) (value : Text)
    → IsWithin min max (integer_of (trim value)) (parse_int_option min max value)
unfolding parse_int_option
parse_int_option-IsWithin min max value = within-IsWithin min max (integer_of (trim value))
