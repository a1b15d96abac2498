-- ===== src/Tests/Importing.antt =====
-- Runs of the CSV import.
use kypassword_server.Base.{
  Bool, ◌||◌, ℕ, Text, codes, equal, is_space, trim, starts_with, decimal, map, true, false, Option,
  none, some, List, [], ◌∷◌, ◌≡◌, refl, ◌↔◌, inl, inr, arith,
}
use kypassword_server.Csv.Records.{parse_csv_records}
use kypassword_server.Csv.Records.RoundTrip.{rows_text}
use kypassword_server.Csv.Records.Delimiter.{parse_csv_records-rows_text, parse_csv_records-comma}
use kypassword_server.Csv.Provider.{auto, chrome, generic, detect_csv_provider}
use kypassword_server.Csv.Rows.{provider_fields, get_field, cell, map_row, parse_and_preview_csv}
use kypassword_server.Csv.Records.Bare.{records_text}
use kypassword_server.Csv.Rows.Kept.{IsVacant, map_row-eq-none_iff}
use kypassword_server.Csv.Rows.Export.{
  Login, header, cells, IsTrimmed, login_entries, parse_and_preview_csv-export,
}

program : Unit {0}
unfolding parse_csv_records detect_csv_provider get_field provider_fields map_row is_space equal
    starts_with decimal cell
program = tt

||-swap : (a b : Bool) → (a || (b || false)) ≡ (b || (a || false))
||-swap a b = ground arith

-- A field with a comma, a quote and a line end, and a semicolon that a header may not have.
abbrev table : List (List Text)
table = (codes "name" ∷ codes "note" ∷ []) ∷ (codes "a, \"b\"" ∷ codes "x\r\ny;z" ∷ []) ∷ []

parse_csv_records-comma_example : parse_csv_records (rows_text b',' true table) ≡ table
unfolding program
parse_csv_records-comma_example =
    parse_csv_records-comma true (codes "name" ∷ codes "note" ∷ [])
      ((codes "a, \"b\"" ∷ codes "x\r\ny;z" ∷ []) ∷ []) (omega arith) (refl, (refl, tt))

parse_csv_records-rows_text_example : parse_csv_records (rows_text b';' false table) ≡ table
unfolding program
parse_csv_records-rows_text_example =
    parse_csv_records-rows_text b';' false table (inr (inl refl)) (refl, (refl, tt)) refl

-- Delimiters inside quotes count: this file is read with the wrong one.
quoted_delimiters : parse_csv_records (codes "\"a;b;c\",\"d\"\n") ≡ (codes "a;b;c,d" ∷ []) ∷ []
unfolding program
quoted_delimiters = refl

-- The first line decides, also if it is empty.
empty_first_line : parse_csv_records (codes "\nname;url\n") ≡ (codes "name;url" ∷ []) ∷ []
unfolding program
empty_first_line = refl

abbrev no_host : Text → Option Text
no_host t = none

abbrev fixed : ℕ → Text
fixed i = codes "abcde"

abbrev columns : List Text
columns = codes "name" ∷ codes "password" ∷ codes "totp" ∷ []

abbrev spaced_row : List Text
spaced_row = codes " Mail " ∷ codes " s3cret " ∷ [] ∷ []

spaced :
    map_row no_host fixed spaced_row columns generic 0
    ≡ some (record {
      id = codes "import-0-abcde";
      title = codes "Mail";
      username = [];
      password = codes " s3cret ";
      url = [];
      notes = [];
      totp_seed = [];
      folder = [];
      selected = true;
    })
unfolding program
spaced = refl

-- A row with nothing but a one-time-password secret.
abbrev secret_row : List Text
secret_row = [] ∷ [] ∷ codes "JBSWY3DP" ∷ []

map_row-eq-none_iff_example :
    (map_row no_host fixed secret_row columns generic 0 ≡ none)
    ↔ IsVacant (provider_fields columns secret_row generic)
map_row-eq-none_iff_example = map_row-eq-none_iff no_host fixed secret_row columns generic 0

secret_dropped : map_row no_host fixed secret_row columns generic 0 ≡ none
unfolding program
secret_dropped = refl

abbrev login : Login
login = record {
  name = codes "Mail";
  url = codes "https://mail.example";
  username = codes "me";
  password = codes " p\"w, ";
  note = [];
}

login-IsTrimmed : IsTrimmed login
unfolding trim
login-IsTrimmed = record { named = λ e. cc; name = refl; url = refl; username = refl; note = refl }

-- No field is quoted without need.
abbrev none_more : Text → Bool
none_more f = false

exported_text :
    records_text none_more true (header ∷ map cells (login ∷ []))
    ≡ codes "name,url,username,password,note\r\nMail,https://mail.example,me,\" p\"\"w, \",\r\n"
exported_text = refl

parse_and_preview_csv-export_example :
    let s =
      parse_and_preview_csv no_host fixed
        (records_text none_more true (header ∷ map cells (login ∷ [])))
        auto in
    (s.provider ≡ chrome)
    × (s.total_rows ≡ 1)
    × (s.valid_entries ≡ login_entries no_host fixed 0 (login ∷ []))
parse_and_preview_csv-export_example =
    parse_and_preview_csv-export no_host fixed none_more true (login ∷ []) (login-IsTrimmed, tt)
