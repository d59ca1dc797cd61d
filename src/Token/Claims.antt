-- ===== src/Token/Claims.antt =====
-- What the client reads of a token's claims.
use usezombie.Prelude.{
  ℕ, zero, suc, ◌+◌, ◌-◌, ◌≤◌, ◌%◌, ◌≡◌, refl, Text, codes, map, length, length-append, Option,
  none, some, List, [], ◌∷◌, ◌++◌, All, arith,
}
use usezombie.Json.{Json}
use usezombie.Token.{RoleClaim, candidate_role, first_role, padded, standard_letter, drop}

length-drop_equals : (k : ℕ) → k ≤ 3 → length (drop k (codes "===")) ≡ 3 - k
length-drop_equals zero h = refl
length-drop_equals (suc zero) h = refl
length-drop_equals (suc (suc zero)) h = refl
length-drop_equals (suc (suc (suc zero))) h = refl
length-drop_equals (suc (suc (suc (suc k)))) h = absurd (omega arith)

-- Whatever the length of the part, with the padding it is a multiple of four, as base64 has it.
pub length-padded : (part : Text) → length (padded part) % 4 ≡ 0
unfolding padded
length-padded part =
    let base64 = map standard_letter part in
    let k = (length base64 + 3) % 4 in
    let size = length-append base64 (drop k (codes "===")) in
    let added = length-drop_equals k (omega arith) in omega (arith, size, added)

-- The role is the one of the first claim that names a role, in whatever case; claims before it that
-- are missing, are no string or name something else are passed over.
pub first_role_skips :
    (before after : List (Option Json)) (value : Option Json) (role : RoleClaim)
    → All (λ v. candidate_role v ≡ none) before
    → candidate_role value ≡ some role
    → first_role (before ++ value ∷ after) ≡ some role
unfolding first_role
first_role_skips [] after value role h e = rw (e, first_role) refl
first_role_skips (v ∷ vs) after value role (h, hs) e =
    rw (h, first_role) (first_role_skips vs after value role hs e)
