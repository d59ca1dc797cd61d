-- ===== src/Cli/Options.antt =====
-- agentsfleet/src/program/validators.ts: the parsers of options, on the text that the command line
-- holds. The number of bytes of a text and JSON.parse are parameters.
pub mod Bounds
pub mod Grammar
use Prim.Native.Nat.{◌^◌}
use usezombie.Prelude.{
  ℕ, suc, ◌+◌, ◌-◌, ◌*◌, ltb, leb, ◌==◌, String, str_append, Text, codes, trim, text_eq, is_empty,
  is_digit, str_eq, Bool, true, false, not, ◌&&◌, ◌||◌, Option, none, some, List, [], ◌∷◌, any, all,
  if◌then◌else◌,
}
use usezombie.Json.{Json, obj, Fields}
use usezombie.Cli.Validators.{is_valid_id}

-- What a parser returns, or the message of the error that it throws.
pub data Parsed (A : Type 0) : Type 0 where
  accepted : A → Parsed A
  rejected : String → Parsed A

-- An integer: `pos n` is n, `negsuc n` is -(n + 1).
pub data ℤ : Type 0 where
  pos negsuc : ℕ → ℤ

abbrev pub negated : ℕ → ℤ
negated n = if n == 0 then pos 0 else negsuc (n - 1)

abbrev pub ltb_ℤ : ℤ → ℤ → Bool
ltb_ℤ (pos a) (pos b) = ltb a b
ltb_ℤ (pos a) (negsuc b) = false
ltb_ℤ (negsuc a) (pos b) = true
ltb_ℤ (negsuc a) (negsuc b) = ltb b a

unfoldable pub parse_string_option : Text → Parsed Text
unfolding trim
parse_string_option value =
    if is_empty (trim value) then rejected "must be a non-empty string" else accepted (trim value)

-- `Number.parseInt(digits, 10)`, from the value of the digits before on.
unfoldable pub digits_value : ℕ → Text → ℕ
digits_value n [] = n
digits_value n (c ∷ s) = digits_value (n * 10 + (c - b'0')) s

abbrev pub is_digits : Text → Bool
is_digits s = not (is_empty s) && all is_digit s

-- From here on the nearest number of the type is infinite.
abbrev pub infinite_from : ℕ
infinite_from = 2 ^ 1024 - 2 ^ 970

abbrev pub finite : ℕ → (ℕ → ℤ) → Option ℤ
finite n sign = if leb infinite_from n then none else some (sign n)

-- A text of the form `/^-?\d+$/`, if its value is finite.
unfoldable pub integer_of : Text → Option ℤ
unfolding digits_value
integer_of [] = none
integer_of (c ∷ s) =
    if c == b'-'
    then (if is_digits s then finite (digits_value 0 s) negated else none)
    else if is_digits (c ∷ s)
    then finite (digits_value 0 (c ∷ s)) pos
    else none

abbrev pub is_below : ℤ → Option ℤ → Bool
is_below n none = false
is_below n (some min) = ltb_ℤ n min

abbrev pub is_above : ℤ → Option ℤ → Bool
is_above n none = false
is_above n (some max) = ltb_ℤ max n

-- The messages leave out the bound that the source writes into them.
abbrev pub within : Option ℤ → Option ℤ → Option ℤ → Parsed ℤ
within min max none = rejected "must be an integer"
within min max (some n) =
    if is_below n min
    then rejected "must be ≥ min"
    else if is_above n max
    then rejected "must be ≤ max"
    else accepted n

unfoldable pub parse_int_option : Option ℤ → Option ℤ → Text → Parsed ℤ
unfolding integer_of trim
parse_int_option min max value = within min max (integer_of (trim value))

abbrev pub includes_text : List Text → Text → Bool
includes_text allowed value = any (λ a. text_eq a value) allowed

-- The parser of an enumeration; none is the error that no value is allowed, thrown when the parser is made.
unfoldable pub parse_enum_option : List Text → Option (Text → Parsed Text)
parse_enum_option [] = none
parse_enum_option (first ∷ allowed) = some (λ value.
    if includes_text (first ∷ allowed) value
    then accepted value
    else rejected "must be one of the allowed")

-- The digits in front, and what is behind them.
unfoldable pub split_digits : Text → Text × Text
split_digits [] = ([], [])
split_digits (c ∷ s) =
    let rest = split_digits s in if is_digit c then (c ∷ rest.0, rest.1) else ([], c ∷ s)

-- `DURATION_FACTOR`
abbrev pub duration_factor : Text → Option ℕ
duration_factor unit =
    if text_eq unit (codes "ms")
    then some 1
    else if text_eq unit (codes "s")
    then some 1000
    else if text_eq unit (codes "m")
    then some 60000
    else if text_eq unit (codes "h")
    then some 3600000
    else none

abbrev pub not_a_duration : String
not_a_duration = "expected a duration like 30m, 10s, 500ms, or 2h"

abbrev pub duration_of : Text → Option ℕ → Parsed ℕ
duration_of digits none = rejected not_a_duration
duration_of digits (some factor) =
    if is_empty digits
    then rejected not_a_duration
    else if digits_value 0 digits == 0
    then rejected "duration must be positive"
    else accepted (digits_value 0 digits * factor)

unfoldable pub parse_duration_option : Text → Parsed ℕ
unfolding split_digits digits_value trim
parse_duration_option value =
    let (digits, unit) = split_digits (trim value) in duration_of digits (duration_factor unit)

abbrev pub object_of : Option Json → Parsed Fields
object_of none = rejected "must be valid JSON"
object_of (some (obj fields)) = accepted fields
object_of (some _) = rejected "must be a JSON object (not array or primitive)"

unfoldable pub parse_json_object_option :
    (Text → ℕ) → (Text → Option Json) → ℕ → Text → Parsed Fields
parse_json_object_option byte_length parse max_bytes value =
    if ltb max_bytes (byte_length value)
    then rejected "payload must be within the limit"
    else object_of (parse value)

module _ (is_valid_uuid : String → Bool) (uuid_version : String → ℕ) where
  unfoldable pub parse_id_option : String → Parsed String
  unfolding is_valid_id
  parse_id_option value =
      if str_eq value ""
      then rejected "required"
      else if is_valid_id is_valid_uuid uuid_version value
      then accepted value
      else rejected "expected uuidv7 format (e.g. 0192a3b4-c5d6-7e8f-9012-345678901234)"
