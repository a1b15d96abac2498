-- ===== src/Csv/Rows/Kept.antt =====
-- What a row keeps, and which rows are left out.
use kypassword_server.Base.{
  ℕ, zero, suc, Text, equal, equal_refl, true, false, Option, none, some, List, [], ◌∷◌, any,
  get_elem?, ◌≡◌, refl, ◌↔◌, ◌⊎◌, inl, inr, arith,
}
use kypassword_server.Csv.Provider.{CsvProvider, chrome, normalize_header}
use kypassword_server.Csv.Rows.{
  ImportedEntryPreview, cell, first_of_two, value_of, get_field, Fields, provider_fields, map_row,
}

-- `v` is one of the cells of the row, as it stands there.
abbrev pub IsCell : Text → List Text → Type 0
IsCell v row = any (λ c. equal c v) row ≡ true

get_elem?-IsCell : (row : List Text) (i : ℕ) (v : Text) → get_elem? row i ≡ some v → IsCell v row
get_elem?-IsCell [] i v h = absurd (ground arith)
get_elem?-IsCell (c ∷ row) zero v h = ground (arith, equal_refl v)
get_elem?-IsCell (c ∷ row) (suc i) v h = ground (arith, get_elem?-IsCell row i v h)

cell-IsCell : (key : Text) (hs row : List Text) (v : Text) → cell key hs row ≡ some v → IsCell v row
unfolding cell
cell-IsCell key [] row v h = absurd (ground arith)
cell-IsCell key (h ∷ hs) [] v e = ground (arith, cell-IsCell key hs [] v)
cell-IsCell key (h ∷ hs) (c ∷ row) v e = ground (arith, cell-IsCell key hs row v, equal_refl v)

abbrev Kept : Text → List Text → Type 0
Kept v row = (v ≡ []) ⊎ IsCell v row

first_of_two-Kept :
    (o : Option Text) (rest : Text) (row : List Text)
    → ((v : Text) → o ≡ some v → IsCell v row)
    → Kept rest row
    → Kept (first_of_two (value_of false o) rest) row
unfolding first_of_two value_of
first_of_two-Kept none rest row h k = k
first_of_two-Kept (some []) rest row h k = k
first_of_two-Kept (some (c ∷ v)) rest row h k = inr (h (c ∷ v) refl)

get_field-Kept : (hs row keys : List Text) → Kept (get_field false hs row keys) row
unfolding get_field
get_field-Kept hs row [] = inl refl
get_field-Kept hs row (key ∷ keys) =
    first_of_two-Kept (cell (normalize_header key) hs row) (get_field false hs row keys) row
      (cell-IsCell (normalize_header key) hs row) (get_field-Kept hs row keys)

provider_fields-Kept :
    (hs row : List Text) (p : CsvProvider) → Kept (provider_fields hs row p).password row
unfolding provider_fields
provider_fields-Kept hs row chrome = get_field-Kept hs row _
provider_fields-Kept hs row _ = get_field-Kept hs row _

-- The fields that keep a row in the preview.
pub record IsVacant (f : Fields) : Type 0 where
  pub title : f.title ≡ []
  pub url : f.url ≡ []
  pub username : f.username ≡ []
  pub password : f.password ≡ []
  pub notes : f.notes ≡ []

module _ (hostname : Text → Option Text) (suffix : ℕ → Text) where
  -- The password of an entry is empty, or it is a cell of the row with every unit as it stands there,
  -- white space at its ends included, whatever the provider and the columns.
  pub map_row-password :
      (row hs : List Text) (p : CsvProvider) (i : ℕ) {e : ImportedEntryPreview}
      → map_row hostname suffix row hs p i ≡ some e
      → (e.password ≡ []) ⊎ IsCell e.password row
  unfolding map_row
  map_row-password row hs p i h = ground (arith, provider_fields-Kept hs row p)

  -- A row is left out exactly when its title, address, user name, password and notes are all empty; its
  -- one-time-password secret and its folder do not keep it.
  pub map_row-eq-none_iff :
      (row hs : List Text) (p : CsvProvider) (i : ℕ)
      → (map_row hostname suffix row hs p i ≡ none) ↔ IsVacant (provider_fields hs row p)
  unfolding map_row
  map_row-eq-none_iff row hs p i = (λ h. ground arith, λ h. ground arith)
