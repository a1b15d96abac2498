-- ===== src/Csv/Rows.antt =====
-- `mapRowToEntry` and `parseAndPreviewCsv` of frontend/src/lib/csvImport.ts. `hostname` stands for
-- `new URL(…).hostname`, with `none` where the constructor throws, and `suffix` for the random end of
-- a preview's id; both are the browser's.
pub mod Kept
pub mod Export
use kypassword_server.Base.{
  ℕ, zero, suc, ◌+◌, Text, codes, equal, trim, is_blank, is_empty, starts_with, decimal, drop, Bool,
  true, false, not, ◌&&◌, ◌||◌, Option, none, some, List, [], ◌∷◌, ◌++◌, map, all, get_elem?,
  length, if◌then◌else◌,
}
use kypassword_server.Csv.Records.{parse_csv_records}
use kypassword_server.Csv.Provider.{
  CsvProvider, auto, chrome, onepassword, bitwarden, lastpass, dashlane, generic, label,
  normalize_header, detect_csv_provider,
}

pub record ImportedEntryPreview : Type 0 where
  pub id : Text
  pub title : Text
  pub username : Text
  pub password : Text
  pub url : Text
  pub notes : Text
  pub totp_seed : Text
  pub folder : Text
  pub selected : Bool

-- `row[normalizedHeaders.indexOf(key)]`.
unfoldable pub cell : Text → List Text → List Text → Option Text
cell key [] row = none
cell key (h ∷ hs) row = if equal h key then get_elem? row 0 else cell key hs (drop 1 row)

first_of_two : Text → Text → Text
first_of_two [] rest = rest
first_of_two (c ∷ v) rest = c ∷ v

value_of : Bool → Option Text → Text
value_of trimmed none = []
value_of trimmed (some v) = if trimmed then trim v else v

-- `getField`: the first cell, in the order of the keys, that is not empty.
unfoldable pub get_field : Bool → List Text → List Text → List Text → Text
unfolding cell first_of_two value_of normalize_header equal
get_field trimmed headers row [] = []
get_field trimmed headers row (key ∷ keys) =
    first_of_two (value_of trimmed (cell (normalize_header key) headers row))
      (get_field trimmed headers row keys)

-- The variables of `mapRowToEntry`.
pub record Fields : Type 0 where
  pub title : Text
  pub username : Text
  pub password : Text
  pub url : Text
  pub notes : Text
  pub totp_seed : Text
  pub folder : Text

custom_fields_notes : Text → Text → Text
custom_fields_notes notes [] = notes
custom_fields_notes [] (c ∷ fields) = codes "[Custom Fields]\n" ++ c ∷ fields
custom_fields_notes (n ∷ notes) (c ∷ fields) =
    (n ∷ notes) ++ (codes "\n\n[Custom Fields]\n" ++ c ∷ fields)

-- LastPass marks its secure notes by a placeholder.
without_placeholder : Text → Text
without_placeholder url =
    if equal url (codes "http://sn") || equal url (codes "https://sn") then [] else url

module _ (headers row : List Text) where
  abbrev value : List Text → Text
  value = get_field true headers row

  abbrev password_value : List Text → Text
  password_value = get_field false headers row

  -- The `switch`.
  unfoldable pub provider_fields : CsvProvider → Fields
  unfolding custom_fields_notes without_placeholder
  provider_fields chrome = record {
    title = value (codes "name" ∷ codes "title" ∷ codes "url" ∷ []);
    url = value (codes "url" ∷ []);
    username = value (codes "username" ∷ codes "user" ∷ codes "login" ∷ []);
    password = password_value (codes "password" ∷ codes "pass" ∷ []);
    notes = value (codes "note" ∷ codes "notes" ∷ []);
    totp_seed = [];
    folder = [];
  }
  provider_fields onepassword = record {
    title = value (codes "title" ∷ codes "name" ∷ codes "url" ∷ codes "website" ∷ []);
    url = value (codes "url" ∷ codes "website" ∷ codes "login_url" ∷ []);
    username = value (codes "username" ∷ codes "user" ∷ codes "login" ∷ codes "email" ∷ []);
    password = password_value (codes "password" ∷ codes "pass" ∷ []);
    notes = value (codes "notes" ∷ codes "note" ∷ codes "description" ∷ []);
    totp_seed =
        value (codes "otpauth" ∷ codes "onetimepassword" ∷ codes "otp" ∷ codes "authcode" ∷ []);
    folder = value (codes "folder" ∷ codes "section" ∷ codes "vault" ∷ codes "category" ∷ []);
  }
  provider_fields bitwarden = record {
    title = value (codes "name" ∷ codes "title" ∷ []);
    url = value (codes "loginuri" ∷ codes "login_uri" ∷ codes "uri" ∷ codes "url" ∷ []);
    username = value (codes "loginusername" ∷ codes "login_username" ∷ codes "username" ∷ []);
    password =
        password_value (codes "loginpassword" ∷ codes "login_password" ∷ codes "password" ∷ []);
    notes =
        custom_fields_notes (value (codes "notes" ∷ codes "note" ∷ []))
          (value (codes "fields" ∷ []));
    totp_seed = value (codes "logintotp" ∷ codes "login_totp" ∷ codes "totp" ∷ codes "otp" ∷ []);
    folder = value (codes "folder" ∷ codes "group" ∷ []);
  }
  provider_fields lastpass = record {
    title = value (codes "name" ∷ codes "title" ∷ []);
    url = without_placeholder (value (codes "url" ∷ []));
    username = value (codes "username" ∷ codes "login" ∷ []);
    password = password_value (codes "password" ∷ []);
    notes = value (codes "extra" ∷ codes "note" ∷ codes "notes" ∷ []);
    totp_seed = value (codes "totp" ∷ codes "otp" ∷ []);
    folder = value (codes "grouping" ∷ codes "group" ∷ codes "folder" ∷ []);
  }
  provider_fields dashlane = record {
    title = value (codes "title" ∷ codes "name" ∷ []);
    url = value (codes "url" ∷ codes "website" ∷ []);
    username = value (
        codes "username"
        ∷ codes "login"
        ∷ codes "username2"
        ∷ codes "username3"
        ∷ codes "email"
        ∷ []);
    password = password_value (codes "password" ∷ []);
    notes = value (codes "note" ∷ codes "notes" ∷ []);
    totp_seed = value (codes "otpsecret" ∷ codes "secondaryotpsecret" ∷ codes "otp" ∷ []);
    folder = value (codes "category" ∷ codes "folder" ∷ codes "group" ∷ []);
  }
  provider_fields _ = record {
    title = value (
        codes "title"
        ∷ codes "name"
        ∷ codes "sitename"
        ∷ codes "site"
        ∷ codes "account"
        ∷ codes "label"
        ∷ codes "service"
        ∷ codes "system"
        ∷ []);
    url = value (
        codes "url"
        ∷ codes "website"
        ∷ codes "uri"
        ∷ codes "loginuri"
        ∷ codes "link"
        ∷ codes "webpage"
        ∷ codes "host"
        ∷ []);
    username = value (
        codes "username"
        ∷ codes "login"
        ∷ codes "user"
        ∷ codes "email"
        ∷ codes "loginusername"
        ∷ codes "accountname"
        ∷ []);
    password = password_value (
        codes "password"
        ∷ codes "pass"
        ∷ codes "loginpassword"
        ∷ codes "secret"
        ∷ codes "pwd"
        ∷ []);
    notes = value (
        codes "notes"
        ∷ codes "note"
        ∷ codes "extra"
        ∷ codes "comments"
        ∷ codes "description"
        ∷ codes "memo"
        ∷ []);
    totp_seed = value (
        codes "totp"
        ∷ codes "logintotp"
        ∷ codes "otp"
        ∷ codes "otpauth"
        ∷ codes "onetimepassword"
        ∷ codes "otpsecret"
        ∷ []);
    folder = value (
        codes "folder"
        ∷ codes "group"
        ∷ codes "grouping"
        ∷ codes "category"
        ∷ codes "section"
        ∷ codes "collection"
        ∷ []);
  }

-- `hostname.replace(/^www\./, "")`.
unfoldable pub without_www : Text → Text
without_www h = if starts_with (codes "www.") h then drop 4 h else h

push_entry : Option ImportedEntryPreview → List ImportedEntryPreview → List ImportedEntryPreview
push_entry none es = es
push_entry (some e) es = e ∷ es

pub record CsvParseSummary : Type 0 where
  pub provider : CsvProvider
  pub provider_name : Text
  pub total_rows : ℕ
  pub valid_entries : List ImportedEntryPreview
  pub errors : List Text
  pub detected_columns : List Text

abbrev effective : CsvProvider → List Text → CsvProvider
effective auto headers = detect_csv_provider headers
effective p headers = p

module _ (hostname : Text → Option Text) where
  host_title : Text → Option Text → Text
  unfolding without_www starts_with
  host_title url none = url
  host_title url (some h) = without_www h

  -- The title that an entry without one gets; `none` for a row that is left out.
  unfoldable pub title_of : Fields → ℕ → Option Text
  unfolding host_title decimal
  title_of f i =
      if not (is_empty f.title)
      then some f.title
      else if not (is_empty f.url)
      then some (
          host_title f.url (
            hostname
              (if starts_with (codes "http") f.url then f.url else codes "https://" ++ f.url)))
      else if not (is_empty f.username)
      then some f.username
      else if not (is_empty f.password) || not (is_empty f.notes)
      then some (codes "Account #" ++ decimal (i + 1))
      else none

  module _ (suffix : ℕ → Text) where
    preview_of : Fields → ℕ → Option Text → Option ImportedEntryPreview
    preview_of f i none = none
    preview_of f i (some title) = some (record {
      id = codes "import-" ++ (decimal i ++ (codes "-" ++ suffix i));
      title = title;
      username = f.username;
      password = f.password;
      url = f.url;
      notes = f.notes;
      totp_seed = f.totp_seed;
      folder = f.folder;
      selected = true;
    })

    unfoldable pub map_row : List Text → List Text → CsvProvider → ℕ → Option ImportedEntryPreview
    unfolding preview_of title_of
    map_row row headers p i = let f = provider_fields headers row p in preview_of f i (title_of f i)

    -- The loop over the data rows from row `i` on. Nothing in its body throws: the only call that may,
    -- the URL constructor, is caught in `mapRowToEntry`.
    unfoldable pub map_rows :
        List Text → CsvProvider → ℕ → List (List Text) → List ImportedEntryPreview
    unfolding map_row push_entry is_blank
    map_rows headers p i [] = []
    map_rows headers p i (row ∷ rows) =
        push_entry (if all is_blank row then none else map_row row headers p i)
          (map_rows headers p (suc i) rows)

    preview_rows : List (List Text) → CsvProvider → CsvParseSummary
    unfolding map_rows
    preview_rows [] preferred = record {
      provider = preferred;
      provider_name = label preferred;
      total_rows = 0;
      valid_entries = [];
      errors = codes "The provided CSV is empty." ∷ [];
      detected_columns = [];
    }
    preview_rows (headers ∷ rows) preferred =
        let p = effective preferred headers in
        record {
          provider = p;
          provider_name = label p;
          total_rows = length rows;
          valid_entries = map_rows (map normalize_header headers) p 0 rows;
          errors = [];
          detected_columns = headers;
        }

    unfoldable pub parse_and_preview_csv : Text → CsvProvider → CsvParseSummary
    unfolding preview_rows
    parse_and_preview_csv text preferred = preview_rows (parse_csv_records text) preferred
