-- ===== src/Page/Dialogs.antt =====
-- What frontend/src/pages/VaultPage.tsx does when one of its dialogs reports: `onImportComplete`,
-- `onRecovered`, and the ticker of the one-time code. The dialogs change the vault object that the page
-- shows; `db` is that object after the dialog.
use kypassword_server.Base.{
  ℕ, ◌+◌, ◌==◌, ltb, Text, codes, decimal, length, Bool, true, false, Option, none, some, List, [],
  ◌∷◌, ◌++◌, if◌then◌else◌,
}
use kypassword_server.Csv.Import.{Summary}
use kypassword_server.Page.{Page, all_items, refresh_vault_data}
use kypassword_server.Vault.{Kdbxweb, Entry}
use kypassword_server.Vault.Listing.{Database, Library}
use kypassword_server.Vault.Operations.{Changes}

abbrev plural : ℕ → Text
plural n = if n == 1 then [] else codes "s"

abbrev folder_text : List Text → Text
folder_text folders =
    let n = length folders in
    if ltb 0 n
    then codes " (" ++ (decimal n ++ (codes " folder" ++ (plural n ++ codes " created)")))
    else []

unfoldable pub import_message : Summary → Text
unfolding decimal
import_message m =
    codes "Successfully imported "
    ++ (decimal m.imported_count
        ++ (codes " password"
            ++ (plural m.imported_count
                ++ (folder_text m.folders_created
                    ++ (codes ". "
                        ++ (decimal m.skipped_duplicates
                            ++ (codes " duplicate"
                                ++ (plural m.skipped_duplicates
                                    ++ (codes " skipped."
                                        ++ (if ltb 0 m.imported_count
                                            then codes " Changes are saved automatically."
                                            else []))))))))))

module _ (k : Kdbxweb) (lib : Library) (ch : Changes)
    (move : Text → Text → List Entry → List Entry) where
  -- `onImportComplete`: the page, and its import message.
  unfoldable pub on_import_complete : Summary → Database → Page → Page × Text
  unfolding refresh_vault_data import_message
  on_import_complete m db s =
      let imported =
        if ltb 0 m.imported_count
        then record s { vault = db; changes = s.changes + 1 }
        else record s { vault = db } in
      (refresh_vault_data k lib ch move s.selected_entry_uuid imported, import_message m)

  -- `onRecovered`.
  unfoldable pub on_recovered : Text → Database → Page → Page
  unfolding refresh_vault_data
  on_recovered uuid db s =
      record (refresh_vault_data k lib ch move s.selected_entry_uuid
        (record s { vault = db; changes = s.changes + 1 })) {
          selected_group_uuid = all_items;
          show_reused_passwords = false;
          selected_entry_uuid = some uuid;
        }

-- The one-time code that is shown, and whether the effect that computes it is still active.
pub record Ticker : Type 0 where
  pub totp_code : Option Text
  pub totp_remaining : ℕ
  pub is_active : Bool

-- The effect for the secret of the selected entry.
unfoldable pub start_ticker : Text → Ticker → Ticker
start_ticker [] t = record t { totp_code = none; is_active = false }
start_ticker (c ∷ seed) t = record t { is_active = true }

-- A code that was computed with its remaining seconds, and the end of the effect.
unfoldable pub code_computed : Text → ℕ → Ticker → Ticker
code_computed code seconds t =
    if t.is_active then record t { totp_code = some code; totp_remaining = seconds } else t

unfoldable pub stop_ticker : Ticker → Ticker
stop_ticker t = record t { is_active = false }
