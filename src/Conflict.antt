-- ===== src/Conflict.antt =====
-- frontend/src/lib/conflictComparison.ts: the live entries of a conflict beside the entries of the open
-- vault with the same id.
pub mod Changes
use kypassword_server.Base.{
  Text, equal, not, Bool, true, false, Option, none, some, List, [], ◌∷◌, map, select,
  if◌then◌else◌,
}

-- The fields that are compared; an absent `totpSeed` reads as the empty text, as `|| ""` makes it.
pub record Entry : Type 0 where
  pub uuid : Text
  pub title : Text
  pub username : Text
  pub password : Text
  pub url : Text
  pub notes : Text
  pub totp_seed : Text

pub data Field : Type 0 where
  title username password url notes totp_seed : Field

-- `comparisonFields`, by their keys.
abbrev pub comparison_fields : List Field
comparison_fields = title ∷ username ∷ password ∷ url ∷ notes ∷ totp_seed ∷ []

abbrev pub read : Field → Entry → Text
read title e = e.title
read username e = e.username
read password e = e.password
read url e = e.url
read notes e = e.notes
read totp_seed e = e.totp_seed

-- `existing?.[key] || ""`.
abbrev pub read_existing : Field → Option Entry → Text
read_existing f none = []
read_existing f (some e) = read f e

-- `new Map(...)` keeps the last entry of each id.
last_or : Option Entry → Entry → Option Entry
last_or none e = some e
last_or (some later) e = some later

unfoldable pub find_by_id : Text → List Entry → Option Entry
unfolding last_or equal
find_by_id id [] = none
find_by_id id (e ∷ es) =
    let later = find_by_id id es in if equal e.uuid id then last_or later e else later

pub record Row : Type 0 where
  pub entry : Entry
  pub current : Option Entry
  pub changed_fields : List Field

unfoldable pub compare_entry : List Entry → Entry → Row
unfolding find_by_id
compare_entry current e =
    let existing = find_by_id e.uuid current in
    record {
      entry = e;
      current = existing;
      changed_fields =
          select (λ f. not (equal (read f e) (read_existing f existing))) comparison_fields;
    }

unfoldable pub compare_conflict_entries : List Entry → List Entry → List Row
unfolding compare_entry
compare_conflict_entries current conflict = map (compare_entry current) conflict
