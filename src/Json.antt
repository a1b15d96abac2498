-- ===== src/Json.antt =====
-- A value as `JSON.parse` or `Response.json` returns it. Of a number the client reads whether it is
-- a safe integer, and its value; every other number is `other_number`.
use kypassword_server.Base.{ℕ, Text, equal, Bool, Option, none, some, if◌then◌else◌, leb}

pub data Number : Type 0 where
  natural : ℕ → Number
  negative : ℕ → Number
  other_number : Number

mutual
  pub data Json : Type 0 where
    null : Json
    boolean : Bool → Json
    number : Number → Json
    string : Text → Json
    array : Items → Json
    object : Fields → Json

  pub data Items : Type 0 where
    end : Items
    item : Json → Items → Items

  pub data Fields : Type 0 where
    no_fields : Fields
    field : Text → Json → Fields → Fields

pub lookup_field : Text → Fields → Option Json
lookup_field k no_fields = none
lookup_field k (field j v fs) = if equal j k then some v else lookup_field k fs

-- `typeof v === "object" && v !== null && k in v`, and then `v[k]`.
unfoldable pub member : Text → Json → Option Json
unfolding lookup_field equal
member k (object fs) = lookup_field k fs
member k _ = none

-- `Number.MAX_SAFE_INTEGER`.
abbrev pub max_safe_integer : ℕ
max_safe_integer = 9007199254740991

-- `typeof v === "number" && Number.isSafeInteger(v)`, of a number that is not negative.
unfoldable pub safe_natural : Json → Option ℕ
safe_natural (number (natural n)) = if leb n max_safe_integer then some n else none
safe_natural _ = none

unfoldable pub as_boolean : Json → Option Bool
as_boolean (boolean b) = some b
as_boolean _ = none

unfoldable pub as_string : Json → Option Text
as_string (string s) = some s
as_string _ = none
