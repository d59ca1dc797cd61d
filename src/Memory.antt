-- ===== src/Memory.antt =====
-- agentsfleet/src/commands/memory.ts: the memories of a zombie. `String` of a value that is no string
-- and the date of a number are parameters, as is the server.
pub mod Preview
use usezombie.Prelude.{
  ℕ, zero, suc, ◌-◌, String, Text, codes, trim, is_space, is_empty, leb, ◌==◌, Bool, true, false,
  not, ◌&&◌, ◌||◌, Option, none, some, List, [], ◌∷◌, ◌++◌, keep, length, if◌then◌else◌,
}
use usezombie.Json.{Json, null, str, num, arr, Number, Items, nil, cons, get, nullish, string?}
use usezombie.Http
use usezombie.Http.{ApiError}
use usezombie.Cli.Errors.{validation_error, config_error}
use usezombie.Cli.Effects.{Outcome, request}
use usezombie.Cli.Store.{Action, pure, raise, lift, ◌>>=◌, ◌>>◌, load_workspaces}
use usezombie.Cli.Guards.{present, or_raise, resolve_auth_token}

abbrev pub preview_max : ℕ
preview_max = 80

abbrev pub is_control : ℕ → Bool
is_control c = leb c 0x1F || (leb 0x7F c && leb c 0x9F)

unfoldable pub clean_cell : Text → Text
clean_cell s = keep (λ c. not (is_control c)) s

-- `s.replace(/\s+/g, " ")`; the flag says that the unit before was white space.
unfoldable pub collapse_from : Bool → Text → Text
collapse_from spaced [] = []
collapse_from spaced (c ∷ s) =
    let rest = collapse_from (is_space c) s in
    if is_space c then (if spaced then rest else 32 ∷ rest) else c ∷ rest

unfoldable pub collapse : Text → Text
unfolding collapse_from
collapse s = collapse_from false s

abbrev pub is_high : ℕ → Bool
is_high c = leb 0xD800 c && leb c 0xDBFF

abbrev pub is_low : ℕ → Bool
is_low c = leb 0xDC00 c && leb c 0xDFFF

-- `Array.from(s)`: a high surrogate with the low one behind it is one code point.
abbrev pub attach : ℕ → List Text → List Text
attach c [] = (c ∷ []) ∷ []
attach c ([] ∷ rest) = (c ∷ []) ∷ [] ∷ rest
attach c ((d ∷ s) ∷ rest) =
    if is_high c && is_low d then (c ∷ d ∷ s) ∷ rest else (c ∷ []) ∷ (d ∷ s) ∷ rest

unfoldable pub points : Text → List Text
points [] = []
points (c ∷ s) = attach c (points s)

abbrev pub take : {A : Type 0} → ℕ → List A → List A
take zero xs = []
take (suc n) [] = []
take (suc n) (x ∷ xs) = x ∷ take n xs

-- `parts.join("")`
abbrev pub joined : List Text → Text
joined [] = []
joined (part ∷ parts) = part ++ joined parts

unfoldable pub cut : Text → Text
unfolding points
cut oneline =
    if leb (length (points oneline)) preview_max
    then oneline
    else joined (take (preview_max - 1) (points oneline)) ++ 0x2026 ∷ []

unfoldable pub preview_text : Option Text → Text
unfolding cut clean_cell collapse trim
preview_text none = []
preview_text (some text) = if is_empty text then [] else cut (trim (clean_cell (collapse text)))

pub record Row : Type 0 where
  pub key : Text
  pub category : Text
  pub updated : Text
  pub preview : Text

-- What is printed: the answer as it is, a hint that there is nothing, or the table.
pub data Printed : Type 0 where
  envelope : Json → Printed
  no_memories : Printed
  table : List Row → Printed

pub record Flags : Type 0 where
  pub zombie_id : Option String
  pub workspace_id : Option String
  pub category : Option String
  pub limit : Option String
  pub json_mode : Bool
  pub stdout_is_tty : Option Bool

unfoldable pub resolve_workspace : Option String → Action String
resolve_workspace override = elim (present override) [
  | some id ↦ pure id
  | none ↦ load_workspaces >>= λ state.
      or_raise (present state.current_workspace_id) "no workspace selected"
]

abbrev pub require_zombie_id : Option String → Action String
require_zombie_id none = raise (validation_error "--zombie <id> is required")
require_zombie_id (some id) = pure id

abbrev pub param : String → Option Text → List (String × Text) → List (String × Text)
param name none rest = rest
param name (some value) rest = if is_empty value then rest else (name, value) ∷ rest

abbrev pub text_of : Option String → Option Text
text_of none = none
text_of (some s) = some (codes s)

-- The parameters of the path.
unfoldable pub query_params : Option Text → Flags → List (String × Text)
query_params query flags =
    param "query" query
      (param "category" (text_of flags.category) (param "limit" (text_of flags.limit) []))

abbrev pub is_false : Option Bool → Bool
is_false (some false) = true
is_false _ = false

module _ (to_string : Json → Text) (iso : Number → Option Text) where
  -- `cleanCell`, from the value on.
  abbrev pub cell : Option Json → Text
  cell none = []
  cell (some (str s)) = clean_cell (codes s)
  cell (some null) = []
  cell (some v) = clean_cell (to_string v)

  -- `iso` is `none` where the date is none: not finite, or out of range.
  abbrev pub render_updated_at : Option Json → Text
  render_updated_at (some (num n)) = elim (iso n) [ none ↦ codes "—" | some date ↦ date ]
  render_updated_at _ = codes "—"

  unfoldable pub row_of : Json → Row
  unfolding preview_text
  row_of m = record {
    key = cell (get "key" m);
    category = cell (get "category" m);
    updated = render_updated_at (get "updated_at" m);
    preview = preview_text (text_of (string? (get "content" m)));
  }

  unfoldable pub rows_of : Items → List Row
  unfolding row_of
  rows_of nil = []
  rows_of (cons m ms) = row_of m ∷ rows_of ms

  abbrev pub table_of : Items → Printed
  table_of nil = no_memories
  table_of (cons m ms) = table (rows_of (cons m ms))

  abbrev pub printed_items : Option Json → Printed
  printed_items (some (arr items)) = table_of items
  printed_items _ = no_memories

  -- `fetch` is what becomes of the request, for the workspace, the zombie, the parameters and the token.
  unfoldable pub memory_read :
      (String → String → List (String × Text) → Text → Outcome Json)
      → Option Text
      → Option Text
      → Flags
      → Action Printed
  unfolding resolve_workspace resolve_auth_token query_params rows_of
  memory_read fetch env_token query flags = do
    zombie_id ← require_zombie_id (present flags.zombie_id)
    workspace_id ← resolve_workspace flags.workspace_id
    token ← resolve_auth_token env_token
    answer ← lift (fetch workspace_id zombie_id (query_params query flags) token)
    pure (
        if flags.json_mode || is_false flags.stdout_is_tty
        then envelope answer
        else printed_items (get "items" answer))

  unfoldable pub memory_search :
      (String → String → List (String × Text) → Text → Outcome Json)
      → Option Text
      → Option Text
      → Flags
      → Action Printed
  unfolding memory_read trim
  memory_search fetch env_token query flags = elim query [
    | none ↦ raise (validation_error "search query is required")
    | some q ↦
        if is_empty (trim q)
        then raise (validation_error "search query is required")
        else memory_read fetch env_token (some (trim q)) (record flags { category = none })
  ]
