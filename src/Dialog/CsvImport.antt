-- ===== src/Dialog/CsvImport.antt =====
-- frontend/src/components/CsvImportModal.tsx: the preview of an import, its counts and its execution.
-- `lower`, `stringify`, `hostname` and `suffix` stand for `toLowerCase`, `JSON.stringify`, the URL parser
-- and the random part of an id.
pub mod Counts
use kypassword_server.Base.{
  ℕ, ◌-◌, ◌==◌, Text, codes, equal, is_empty, is_blank, trim, length, select, map, Bool, true,
  false, not, ◌&&◌, ◌||◌, Option, none, some, List, [], ◌∷◌, ◌++◌, if◌then◌else◌, Result, ok, throw,
  or_else, includes,
}
use kypassword_server.Api.{Thrown, other_error, http_error, no_error, http_message}
use kypassword_server.Csv.Provider.{CsvProvider, auto}
use kypassword_server.Csv.Rows.{ImportedEntryPreview, CsvParseSummary, parse_and_preview_csv}
use kypassword_server.Csv.Duplicates.{has, find_duplicate_imports}
use kypassword_server.Csv.Import.{FolderMode, csv_folders, Options, Summary, apply_import_to_vault}
use kypassword_server.Vault.{Kdbxweb}
use kypassword_server.Vault.Listing.{Database, VaultGroup, Library, get_live_entries}
use kypassword_server.Vault.Operations.{Changes}

pub data InputMode : Type 0 where
  file paste : InputMode

pub record Dialog : Type 0 where
  pub vault : Database
  pub input_mode : InputMode
  pub csv_content : Text
  pub file_name : Text
  pub provider : CsvProvider
  pub folder_mode : FolderMode
  pub selected_folder_uuid : Text
  pub new_folder_name : Text
  pub use_new_folder : Bool
  pub preview_entries : List ImportedEntryPreview
  pub parse_summary : Option CsvParseSummary
  pub table_search : Text
  -- the ids whose password is shown
  pub revealed_passwords : List Text
  pub skip_duplicates : Bool
  pub is_importing : Bool
  pub alert : Option Text
  -- what `onImportComplete` was called with, and whether `onClose` was
  pub completed : Option Summary
  pub is_closed : Bool

abbrev first_uuid : List VaultGroup → Text
first_uuid [] = []
first_uuid (g ∷ gs) = g.uuid

unfoldable pub open_dialog : List VaultGroup → Database → Dialog
open_dialog groups db = record {
  vault = db;
  input_mode = file;
  csv_content = [];
  file_name = [];
  provider = auto;
  folder_mode = csv_folders;
  selected_folder_uuid = first_uuid groups;
  new_folder_name = [];
  use_new_folder = false;
  preview_entries = [];
  parse_summary = none;
  table_search = [];
  revealed_passwords = [];
  skip_duplicates = true;
  is_importing = false;
  alert = none;
  completed = none;
  is_closed = false;
}

module _ (hostname : Text → Option Text) (suffix : ℕ → Text) where
  abbrev show_summary : CsvParseSummary → Dialog → Dialog
  show_summary summary s = record s {
    parse_summary = some summary;
    preview_entries = summary.valid_entries;
  }

  unfoldable pub handle_process_csv : Text → CsvProvider → Dialog → Dialog
  unfolding parse_and_preview_csv is_blank
  handle_process_csv text provider s =
      if is_blank text
      then record s { csv_content = text; parse_summary = none; preview_entries = [] }
      else show_summary (parse_and_preview_csv hostname suffix text provider)
          (record s { csv_content = text })

  -- `handleFileChange`, and the end of the reading with the provider chosen at its start.
  unfoldable pub handle_file_change : Text → Dialog → Dialog
  handle_file_change name s = record s { file_name = name }

  unfoldable pub file_read : CsvProvider → Text → Dialog → Dialog
  unfolding handle_process_csv
  file_read provider text s = handle_process_csv text provider s

  unfoldable pub handle_provider_change : CsvProvider → Dialog → Dialog
  unfolding handle_process_csv
  handle_provider_change provider s =
      let chosen = record s { provider = provider } in
      if is_empty s.csv_content then chosen else handle_process_csv s.csv_content provider chosen

unfoldable pub toggle_select_all : Bool → Dialog → Dialog
toggle_select_all checked s = record s {
  preview_entries =
      map (λ (e : ImportedEntryPreview). record e { selected = checked }) s.preview_entries;
}

unfoldable pub toggle_select_entry : Text → Dialog → Dialog
unfolding equal
toggle_select_entry id s = record s {
  preview_entries =
      map
        (λ (e : ImportedEntryPreview).
          if equal e.id id then record e { selected = not e.selected } else e)
        s.preview_entries;
}

unfoldable pub toggle_reveal : Text → Dialog → Dialog
toggle_reveal id s = record s {
  revealed_passwords =
      if has s.revealed_passwords id
      then select (λ i. not (equal i id)) s.revealed_passwords
      else id ∷ s.revealed_passwords;
}

abbrev pub message_or_text : Thrown → Text
message_or_text (http_error status m) = http_message status m
message_or_text (other_error m) = or_else m (codes "Error")
message_or_text no_error = []

-- The text of what is no `Error` is left out.
abbrev pub import_failed : Thrown → Text
unfolding http_message
import_failed e = codes "Failed to import entries: " ++ message_or_text e

module _ (lower : Text → Text) where
  -- The rows of the table.
  unfoldable pub filtered_entries : Dialog → List ImportedEntryPreview
  unfolding trim
  filtered_entries s =
      let q = lower s.table_search in
      if is_empty (trim s.table_search)
      then s.preview_entries
      else select
          (λ e.
            includes (lower e.title) q
            || includes (lower e.username) q
            || includes (lower e.url) q
            || includes (lower e.folder) q
            || includes (lower e.notes) q)
          s.preview_entries

unfoldable pub selected_count : Dialog → ℕ
selected_count s = length (select (λ e. e.selected) s.preview_entries)

module _ (lib : Library) (stringify : List Text → Text) where
  -- What `useMemo` keeps until the vault or the entries change, computed at each use.
  unfoldable pub duplicates_of : Dialog → List Text
  unfolding find_duplicate_imports get_live_entries
  duplicates_of s =
      find_duplicate_imports stringify (get_live_entries lib s.vault) s.preview_entries

  unfoldable pub skipped_count : Dialog → ℕ
  unfolding duplicates_of
  skipped_count s =
      if s.skip_duplicates
      then length (select (λ e. e.selected && has (duplicates_of s) e.id) s.preview_entries)
      else 0

  unfoldable pub import_count : Dialog → ℕ
  unfolding skipped_count selected_count
  import_count s = selected_count s - skipped_count s

abbrev pub options_of : Dialog → Options
options_of s = record {
  folder_mode = s.folder_mode;
  target_folder_uuid = s.selected_folder_uuid;
  default_folder_name = codes "Imported Passwords";
  skip_duplicates = s.skip_duplicates;
  new_folder_name = if s.use_new_folder then s.new_folder_name else [];
}

-- What goes on with the result of `applyImportToVault`.
unfoldable pub import_ends : Database × Result Thrown Summary → Dialog → Dialog
import_ends (db, ok summary) s = record s {
  vault = db;
  completed = some summary;
  is_closed = true;
  is_importing = false;
}
import_ends (db, throw e) s = record s {
  vault = db;
  alert = some (import_failed e);
  is_importing = false;
}

module _ (lower : Text → Text) (k : Kdbxweb) (lib : Library) (ch : Changes)
    (stringify : List Text → Text) where
  unfoldable pub handle_execute_import : Dialog → Dialog
  unfolding import_count import_ends apply_import_to_vault
  handle_execute_import s =
      if import_count lib stringify s == 0
      then s
      else import_ends
          (apply_import_to_vault lower k lib ch stringify s.preview_entries (options_of s) s.vault)
          (record s { is_importing = true })
