-- ===== src/Cli/Argv.antt =====
-- agentsfleet/src/lib/argv-redact.ts: the warning about a token on the command line.
pub mod Leaks
use usezombie.Prelude.{
  ltb, String, Text, codes, text_eq, strip, is_empty, Bool, true, false, not, ◌&&◌, Option, none,
  some, List, [], ◌∷◌, if◌then◌else◌,
}

abbrev pub token_leak_warning : String
token_leak_warning =
    "warning: --token leaks into shell history and process lists; prefer ZOMBIE_TOKEN."

abbrev pub end_of_options : Text
end_of_options = codes "--"

abbrev pub token_flag : Text
token_flag = codes "--token"

-- Whether a text is more than a prefix, from what is behind the prefix.
abbrev pub is_longer : Option Text → Bool
is_longer none = false
is_longer (some rest) = not (is_empty rest)

abbrev pub has_inline_value : Text → Bool
has_inline_value arg = is_longer (strip (codes "--token=") arg)

-- `!next.startsWith("--")`, from what is behind the prefix.
abbrev pub is_absent : Option Text → Bool
is_absent none = true
is_absent (some rest) = false

-- The arguments are those behind the flag.
abbrev pub has_following_value : List Text → Bool
has_following_value [] = false
has_following_value (next ∷ argv) = not (is_empty next) && is_absent (strip (codes "--") next)

unfoldable pub detect_token_in_argv : List Text → Option String
detect_token_in_argv [] = none
detect_token_in_argv (a ∷ argv) =
    let rest = detect_token_in_argv argv in
    if text_eq a end_of_options
    then none
    else if has_inline_value a
    then some token_leak_warning
    else if text_eq a token_flag && has_following_value argv
    then some token_leak_warning
    else rest
