-- ===== src/Cli/Validators.antt =====
-- agentsfleet/src/program/validators.ts: the checks of identifiers. The package `uuid` is two
-- parameters.
use usezombie.Prelude.{
  ℕ, String, str_append, codes, trim, is_empty, str_eq, ◌==◌, Bool, false, Option, none, some,
  if◌then◌else◌,
}

module _ (is_valid_uuid : String → Bool) (uuid_version : String → ℕ) where
  unfoldable pub is_valid_id : String → Bool
  is_valid_id value =
      if str_eq value ""
      then false
      else if is_valid_uuid value
      then uuid_version value == 7
      else false

  -- The message, or `none` for a value that is accepted.
  unfoldable pub validate_required_id : String → String → Option String
  unfolding is_valid_id trim
  validate_required_id value name =
      if is_empty (trim (codes value))
      then some (str_append name " is required")
      else if is_valid_id value
      then none
      else some (
          str_append "invalid " (
            str_append name ": expected uuidv7 format (e.g. 0192a3b4-c5d6-7e8f-9012-345678901234)"))
