-- ===== src/Token.antt =====
-- agentsfleet/src/program/auth-token.ts: which token the client uses, and what it reads of the
-- token's claims. `Buffer.from(text, "base64").toString("utf8")` and `JSON.parse` are parameters.
pub mod Claims
pub mod Source
use usezombie.Prelude.{
  ℕ, zero, suc, ◌+◌, ◌%◌, ◌==◌, String, Text, codes, trim, lower, text_eq, is_empty, length, Bool,
  true, false, ◌||◌, Option, none, some, List, [], ◌∷◌, ◌++◌, map, if◌then◌else◌,
}
use usezombie.Json.{Json, get, get?, string?}

pub data AuthTokenSource : Type 0 where
  file zombie_env nowhere : AuthTokenSource

pub record ResolvedAuthToken : Type 0 where
  pub token : Option Text
  pub source : AuthTokenSource

-- The token of the credentials file, the value of ZOMBIE_TOKEN, and whether a terminal is attached.
pub record ResolveAuthTokenInput : Type 0 where
  pub file_token : Option Text
  pub env_token : Option Text
  pub is_tty : Bool

unfoldable pub trim_or_null : Option Text → Option Text
unfolding trim
trim_or_null none = none
trim_or_null (some raw) = if is_empty (trim raw) then none else some (trim raw)

abbrev pub resolved_from : AuthTokenSource → Option Text → Option ResolvedAuthToken
resolved_from source none = none
resolved_from source (some t) = some (record { token = some t; source = source })

abbrev pub first_candidate : List (Option ResolvedAuthToken) → ResolvedAuthToken
first_candidate [] = record { token = none; source = nowhere }
first_candidate (some candidate ∷ rest) = candidate
first_candidate (none ∷ rest) = first_candidate rest

unfoldable pub resolve_auth_token_for_cli : ResolveAuthTokenInput → ResolvedAuthToken
unfolding trim_or_null
resolve_auth_token_for_cli input =
    let zombie = resolved_from zombie_env (trim_or_null input.env_token) in
    let file = resolved_from file (trim_or_null input.file_token) in
    first_candidate (if input.is_tty then zombie ∷ file ∷ [] else file ∷ zombie ∷ [])

-- `token.split(".")`: the first part and the others.
unfoldable pub split_dots : Text → Text × List Text
split_dots [] = ([], [])
split_dots (c ∷ s) =
    let rest = split_dots s in if c == b'.' then ([], rest.0 ∷ rest.1) else (c ∷ rest.0, rest.1)

-- `replace(/-/g, "+")` and `replace(/_/g, "/")`
abbrev pub standard_letter : ℕ → ℕ
standard_letter c = if c == b'-' then b'+' else if c == b'_' then b'/' else c

abbrev pub drop : ℕ → Text → Text
drop zero s = s
drop (suc n) [] = []
drop (suc n) (c ∷ s) = drop n s

unfoldable pub padded : Text → Text
padded part =
    let base64 = map standard_letter part in base64 ++ drop ((length base64 + 3) % 4) (codes "===")

module _ (of_base64 : Text → Text) (parse : Text → Option Json) where
  -- `none` is no string.
  unfoldable pub decode_token_payload : Option Text → Option Json
  unfolding split_dots padded
  decode_token_payload none = none
  decode_token_payload (some token) = elim ((split_dots token).1) [
    | [] ↦ none
    | ◌∷◌ part rest ↦ if is_empty part then none else parse (of_base64 (padded part))
  ]

  abbrev sub_of : Option String → Option Text
  sub_of none = none
  sub_of (some sub) = trim_or_null (some (codes sub))

  unfoldable pub extract_distinct_id_from_token : Option Text → Option Text
  unfolding decode_token_payload trim_or_null
  extract_distinct_id_from_token token = sub_of (string? (get? "sub" (decode_token_payload token)))

pub data RoleClaim : Type 0 where
  user operator admin : RoleClaim

abbrev pub role_of : Text → Option RoleClaim
role_of value =
    if text_eq value (codes "user")
    then some user
    else if text_eq value (codes "operator")
    then some operator
    else if text_eq value (codes "admin")
    then some admin
    else none

abbrev pub candidate_role : Option Json → Option RoleClaim
candidate_role value = elim (string? value) [
  | none ↦ none
  | some raw ↦ role_of (map lower (codes raw))
]

unfoldable pub first_role : List (Option Json) → Option RoleClaim
first_role [] = none
first_role (value ∷ rest) =
    let later = first_role rest in
    elim (candidate_role value) [ some role ↦ some role | none ↦ later ]

abbrev pub role_namespace_dev : String
role_namespace_dev = "https://usezombie.dev/role"

abbrev pub role_namespace_com : String
role_namespace_com = "https://usezombie.com/role"

abbrev pub role_candidates : Json → List (Option Json)
role_candidates payload =
    get "role" payload
    ∷ get? "role" (get "metadata" payload)
    ∷ get? "role" (get "custom_claims" payload)
    ∷ get? "role" (get "app_metadata" payload)
    ∷ get role_namespace_dev payload
    ∷ get role_namespace_com payload
    ∷ get? role_namespace_dev (get "metadata" payload)
    ∷ get? role_namespace_com (get "metadata" payload)
    ∷ []

unfoldable pub extract_role_from_token :
    (Text → Text) → (Text → Option Json) → Option Text → Option RoleClaim
unfolding decode_token_payload first_role
extract_role_from_token of_base64 parse token = elim (decode_token_payload of_base64 parse token) [
  | none ↦ none
  | some payload ↦ first_role (role_candidates payload)
]
