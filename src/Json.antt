-- ===== src/Json.antt =====
-- JavaScript values that the program reads off the wire: what `JSON.parse` returns, and the tests
-- by `typeof` and property access that the code makes on them.
use usezombie.Prelude.{ℕ, String, Bool, true, false, Option, none, some, if◌then◌else◌, str_eq}

-- A number, as far as the code tells numbers apart: a non-negative integer (`-0` is 0), a positive
-- one with a fraction, counted in thousandths, or any other (negative, infinite, `NaN`).
pub data Number : Type 0 where
  nat : ℕ → Number
  decimal : ℕ → Number
  other : Number

mutual
  pub data Json : Type 0 where
    null : Json
    bool : Bool → Json
    num : Number → Json
    str : String → Json
    arr : Items → Json
    obj : Fields → Json

  pub data Items : Type 0 where
    nil : Items
    cons : Json → Items → Items

  pub data Fields : Type 0 where
    end : Fields
    field : String → Json → Fields → Fields

abbrev pub find_field : String → Fields → Option Json
find_field k end = none
find_field k (field j v fs) = if str_eq j k then some v else find_field k fs

-- `value !== null && typeof value === "object"`; an array is an object too.
abbrev pub is_object : Json → Bool
is_object (arr _) = true
is_object (obj _) = true
is_object _ = false

-- `value.key`, with `none` for `undefined`. No key that the code reads is an array's.
abbrev pub get : String → Json → Option Json
get k (obj fs) = find_field k fs
get k _ = none

-- `value?.key`
abbrev pub get? : String → Option Json → Option Json
get? k none = none
get? k (some v) = get k v

-- A string, or `undefined` for any other value.
abbrev pub string? : Option Json → Option String
string? (some (str s)) = some s
string? _ = none

-- `a ?? b` for a value that may be `undefined`, where `null` counts as missing too.
abbrev pub nullish : Option Json → Option Json
nullish (some null) = none
nullish v = v
