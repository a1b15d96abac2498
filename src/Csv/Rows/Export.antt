-- ===== src/Csv/Rows/Export.antt =====
-- A Chrome export, from its text to the preview.
use kypassword_server.Base.{
  ℕ, suc, Text, codes, trim, is_blank, is_space, decimal, Bool, true, false, Option, some, List, [],
  ◌∷◌, ◌++◌, map, all, All, length, length-map, ◌≡◌, ◌≢◌, refl, arith,
}
use kypassword_server.Csv.Provider.{auto, chrome, normalize_header, detect_csv_provider}
use kypassword_server.Csv.Records.{has_content, parse_csv_records}
use kypassword_server.Csv.Records.Delimiter.{IsHeaderUnit}
use kypassword_server.Csv.Records.Bare.{records_text, parse_csv_records-records_text}
use kypassword_server.Csv.Rows.{
  ImportedEntryPreview, first_of_two, get_field, Fields, provider_fields, title_of, map_row,
  map_rows, parse_and_preview_csv,
}

pub record Login : Type 0 where
  pub name : Text
  pub url : Text
  pub username : Text
  pub password : Text
  pub note : Text

abbrev pub header : List Text
header = codes "name" ∷ codes "url" ∷ codes "username" ∷ codes "password" ∷ codes "note" ∷ []

abbrev pub cells : Login → List Text
cells l = l.name ∷ l.url ∷ l.username ∷ l.password ∷ l.note ∷ []

-- No white space at the ends, but in the password.
pub record IsTrimmed (l : Login) : Type 0 where
  pub named : l.name ≢ []
  pub name : trim l.name ≡ l.name
  pub url : trim l.url ≡ l.url
  pub username : trim l.username ≡ l.username
  pub note : trim l.note ≡ l.note

abbrev columns : List Text
columns = map normalize_header header

first_of_two-nil : (v : Text) → first_of_two v [] ≡ v
unfolding first_of_two
first_of_two-nil [] = refl
first_of_two-nil (c ∷ v) = refl

abbrev login_fields : Login → Fields
login_fields l = record {
  title = l.name;
  username = l.username;
  password = l.password;
  url = l.url;
  notes = l.note;
  totp_seed = [];
  folder = [];
}

first_of_two-named : (v w : Text) → v ≢ [] → first_of_two v w ≡ v
unfolding first_of_two
first_of_two-named [] w h = absurd (h refl)
first_of_two-named (c ∷ v) w h = refl

provider_fields-cells :
    (l : Login) → IsTrimmed l → provider_fields columns (cells l) chrome ≡ login_fields l
unfolding provider_fields get_field
provider_fields-cells l t =
    rw (t.name, t.url, t.username, t.note, first_of_two-named l.name _ t.named)
      (simp first_of_two-nil)

is_blank-named : (v : Text) → v ≢ [] → trim v ≡ v → is_blank v ≡ false
unfolding is_blank
is_blank-named [] h e = absurd (h refl)
is_blank-named (c ∷ v) h e = rw e

all-blank_cells : (l : Login) → IsTrimmed l → all is_blank (cells l) ≡ false
all-blank_cells l t = rw (is_blank-named l.name t.named t.name)

has_content-cells : (l : Login) → IsTrimmed l → has_content (cells l) ≡ true
has_content-cells l t = rw (is_blank-named l.name t.named t.name)

header-provider : detect_csv_provider header ≡ chrome
unfolding detect_csv_provider
header-provider = refl

header-has_content : has_content header ≡ true
unfolding is_blank
header-has_content = refl

module _ (hostname : Text → Option Text) (suffix : ℕ → Text) where
  -- The entry that the login in row `i` becomes.
  abbrev pub login_entry : ℕ → Login → ImportedEntryPreview
  login_entry i l = record {
    id = codes "import-" ++ (decimal i ++ (codes "-" ++ suffix i));
    title = l.name;
    username = l.username;
    password = l.password;
    url = l.url;
    notes = l.note;
    totp_seed = [];
    folder = [];
    selected = true;
  }

  abbrev pub login_entries : ℕ → List Login → List ImportedEntryPreview
  login_entries i [] = []
  login_entries i (l ∷ ls) = login_entry i l ∷ login_entries (suc i) ls

  title_of-login :
      (l : Login) (i : ℕ) → l.name ≢ [] → title_of hostname (login_fields l) i ≡ some l.name
  unfolding title_of
  title_of-login l i h = ground arith

  map_row-cells :
      (l : Login) (i : ℕ)
      → IsTrimmed l
      → map_row hostname suffix (cells l) columns chrome i ≡ some (login_entry i l)
  unfolding map_row
  map_row-cells l i t = rw (provider_fields-cells l t, title_of-login l i t.named)

  map_rows-cells :
      (i : ℕ) (ls : List Login)
      → All IsTrimmed ls
      → map_rows hostname suffix columns chrome i (map cells ls) ≡ login_entries i ls
  unfolding map_rows
  map_rows-cells i [] t = refl
  map_rows-cells i (l ∷ ls) t =
      rw (all-blank_cells l t.0, map_row-cells l i t.0, map_rows-cells (suc i) ls t.1)

  All-has_content :
      (ls : List Login) → All IsTrimmed ls → All (λ r. has_content r ≡ true) (map cells ls)
  All-has_content [] t = tt
  All-has_content (l ∷ ls) t = (has_content-cells l t.0, All-has_content ls t.1)

  header-units : All (All IsHeaderUnit) header
  header-units = omega arith

  parse_csv_records-export :
      (more : Text → Bool) (crlf : Bool) (ls : List Login)
      → All IsTrimmed ls
      → parse_csv_records (records_text more crlf (header ∷ map cells ls)) ≡ header ∷ map cells ls
  parse_csv_records-export more crlf ls t =
      parse_csv_records-records_text more crlf b'n' (codes "ame")
        (codes "url" ∷ codes "username" ∷ codes "password" ∷ codes "note" ∷ []) (map cells ls)
        (unfold is_space in refl) refl header-units (header-has_content, All-has_content ls t)

  -- A Chrome export, in either kind of line end, previews as exactly its logins, in order, field by
  -- field: the provider is found by itself, and no row is lost. A field that holds a comma, a quote or a
  -- line end is quoted; every other one, the header's names included, is bare unless `more` chooses to
  -- quote it. Each login has a name and no white space at the ends of its texts, but in the password.
  pub parse_and_preview_csv-export :
      (more : Text → Bool) (crlf : Bool) (ls : List Login)
      → All IsTrimmed ls
      → let s =
          parse_and_preview_csv hostname suffix
            (records_text more crlf (header ∷ map cells ls))
            auto in
        (s.provider ≡ chrome) × (s.total_rows ≡ length ls) × (s.valid_entries ≡ login_entries 0 ls)
  unfolding parse_and_preview_csv
  parse_and_preview_csv-export more crlf ls t =
      rw (parse_csv_records-export more crlf ls t, header-provider)
        (refl, length-map ls cells, map_rows-cells 0 ls t)
