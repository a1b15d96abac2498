-- ===== src/Tests/Dialogs.antt =====
-- The dialogs at concrete inputs.
use kypassword_server.Base.{
  ◌==◌, ◌≤◌, Text, codes, equal_iff, true, false, none, some, [], ◌∷◌, ◌≡◌, ◌↔◌, inl, inr, refl,
  arith,
}
use kypassword_server.Base.{Option-cases, is_empty}
use kypassword_server.Vault.{find_entry-uuid}
use kypassword_server.Vault.Groups.{find_group}
use kypassword_server.Crypto.{wrap_vault_key}
use kypassword_server.Csv.Duplicates.{find_duplicate_imports, import_content_key}
use kypassword_server.Vault.Listing.{get_live_entries}
use kypassword_server.Dialog.CsvImport.{
  Dialog, open_dialog, import_count, skipped_count, selected_count, duplicates_of,
  handle_execute_import,
}
use kypassword_server.Dialog.CsvImport.Counts.{Executed, handle_execute_import-Executed}
use kypassword_server.Dialog.Security.{
  Settings, handle_change_password, handle_generate_paper_recovery, paper_code_of,
}
use kypassword_server.Dialog.Security.Unlocks.{
  Unlocks, handle_change_password-Unlocks, handle_generate_paper_recovery-Unlocks,
}
use kypassword_server.Session.Unlock.{Metadata}
use kypassword_server.Page.Imported.{Reported, handle_execute_import-Reported}
use kypassword_server.Tests.Pages.{page}
use kypassword_server.Tests.Codecs.{plain_primitives, plain_primitives-IsSound}
use kypassword_server.Tests.Sessions.{open_state, pending}
use kypassword_server.Tests.Merging.{adding, adding-IsGrowing, items, joined, same_text}
use kypassword_server.Crypto.{Bytes}
use kypassword_server.Api.{no_error}
use kypassword_server.Vault.{find_entry}
use kypassword_server.Vault.Update.{update_entry}
use kypassword_server.Vault.Update.Refines.{
  KeepsOthers, texts_at, replace, editor_texts, update_entry-Refines, find_entry-change_entry_other,
}
use kypassword_server.Dialog.Pairing.{open_pairing, fetch_pairing_code, has_timer, run_timer}
use kypassword_server.Dialog.Pairing.Countdown.{fetch_pairing_code-Ends}
use kypassword_server.Dialog.History.{World, Event, Reaches, open_modal, step}
use kypassword_server.Dialog.History.Requests.{WaitsFor, Reaches-WaitsFor}
use kypassword_server.Dialog.Attachments.{EntryAttachments, end_add}
use kypassword_server.Dialog.Attachments.Stale.{end_add-stale}
use kypassword_server.Tests.Vaults.{
  web, web-IsSound, move_in_place, move_in_place-IsMove, settings, folders, edit_of_mail, mail,
  home_folder,
}
use kypassword_server.Tests.Folders.{library, database}

move_in_place-KeepsOthers : KeepsOthers move_in_place
move_in_place-KeepsOthers uuid g u es d = elim (Option-cases (find_entry uuid es)) [
  | inl missing ↦ rw (missing)
  | inr (e, found) ↦ rw (found) (
      find_entry-change_entry_other uuid u (record e { parent = some g }) es
        (rw ((equal_iff e.uuid uuid).0 (find_entry-uuid uuid es found)) d) d)
]

update_entry-Refines_example :
    texts_at
      (update_entry web move_in_place settings folders edit_of_mail (mail ∷ [])).0
      (codes "e1")
    ≡ replace edit_of_mail.uuid (editor_texts edit_of_mail) (texts_at (mail ∷ [])) (codes "e1")
update_entry-Refines_example =
    update_entry-Refines web-IsSound move_in_place move_in_place-IsMove move_in_place-KeepsOthers
      settings folders edit_of_mail (mail ∷ []) (inr (home_folder, unfold find_group in refl))
      (codes "e1")

fetch_pairing_code-Ends_example :
    (has_timer (run_timer 90 (fetch_pairing_code open_pairing)) ≡ false) ↔ (90 ≤ 90)
fetch_pairing_code-Ends_example = fetch_pairing_code-Ends open_pairing 90

-- A click on a snapshot and one on a conflict before the answer.
abbrev start : World
start = record { modal = open_modal; pending = []; sent = [] }

abbrev clicked : World
unfolding step
clicked =
    step true (Event.clicks_discard true (codes "c1"))
      (step true (Event.clicks_restore true (codes "s1")) start)

Reaches-WaitsFor_example :
    WaitsFor clicked.modal.busy_id clicked.pending × (true ≡ false → clicked.sent ≡ [])
unfolding clicked
Reaches-WaitsFor_example = Reaches-WaitsFor true clicked (
    Reaches.follows true (Event.clicks_discard true (codes "c1"))
      (Reaches.follows true (Event.clicks_restore true (codes "s1")) Reaches.opens))

abbrev attachments : EntryAttachments
attachments = record {
  vault = database;
  generation = 2;
  busy = false;
  error = [];
  remove_from_history = false;
  changes = 0;
}

-- The entry is left while the file is hashed: it was read in the generation of the call.
end_add-stale_example :
    end_add web library no_error 1 1
      (codes "e1")
      (codes "a.txt")
      3
      (codes "hash")
      database
      attachments
    ≡ (database, attachments)
end_add-stale_example =
    end_add-stale web library no_error 1 1 (codes "e1") (codes "a.txt") (codes "hash") 3 database
      attachments refl

-- The import of two selected items.
abbrev preview : Dialog
unfolding open_dialog
preview = record (open_dialog [] database) { preview_entries = items }

preview-announces : (import_count library joined preview == 0) ≡ false
unfolding import_count skipped_count selected_count duplicates_of find_duplicate_imports
    get_live_entries preview import_content_key
preview-announces = refl

preview-fresh : preview.completed ≡ none
unfolding preview open_dialog
preview-fresh = refl

handle_execute_import-Executed_example :
    Executed same_text web library adding joined preview
      (handle_execute_import same_text web library adding joined preview)
handle_execute_import-Executed_example =
    handle_execute_import-Executed same_text web library adding joined adding-IsGrowing preview
      preview-announces

abbrev key : Bytes
key = 7 ∷ 200 ∷ []

abbrev form : Settings
form = record {
  new_password = codes "new";
  confirm_password = codes "new";
  devices = [];
  paper_code = none;
  sso_config = none;
  show_pairing = false;
  show_vault_key = false;
  busy = false;
  message = [];
  error = [];
  updates = 0;
}

abbrev new_envelope : Text
new_envelope = wrap_vault_key plain_primitives key (codes "new") (1 ∷ []) (3 ∷ [])

abbrev after_change : Metadata
after_change = record { version = 4; password_envelope = new_envelope; recovery_envelope = [] }

change-sent :
    (handle_change_password plain_primitives key (1 ∷ []) (3 ∷ []) form).1 ≡ some new_envelope
unfolding handle_change_password
change-sent = refl

envelope-filled : is_empty new_envelope ≡ false
unfolding wrap_vault_key
envelope-filled = refl

handle_change_password-Unlocks_example :
    Unlocks plain_primitives key after_change (codes "new") pending 6000 open_state
handle_change_password-Unlocks_example =
    handle_change_password-Unlocks plain_primitives plain_primitives-IsSound key (1 ∷ []) (3 ∷ [])
      (omega arith) (omega arith) (omega arith) form new_envelope after_change pending 6000
      open_state change-sent refl envelope-filled refl

abbrev random_bytes : Bytes
random_bytes = 0 ∷ 1 ∷ 2 ∷ 3 ∷ 4 ∷ 5 ∷ 6 ∷ 7 ∷ 8 ∷ 9 ∷ 10 ∷ 11 ∷ 12 ∷ 13 ∷ 14 ∷ 255 ∷ []

paper_code_of_bytes : paper_code_of random_bytes ≡ codes "KYPASS-ABCD-EFGH-JKLM-NPQ9"
unfolding paper_code_of
paper_code_of_bytes = refl

abbrev paper_envelope : Text
unfolding paper_code_of
paper_envelope = wrap_vault_key plain_primitives key (paper_code_of random_bytes) (1 ∷ []) (3 ∷ [])

abbrev paper_only : Metadata
paper_only = record { version = 4; password_envelope = []; recovery_envelope = paper_envelope }

paper-sent :
    (handle_generate_paper_recovery plain_primitives key random_bytes (1 ∷ []) (3 ∷ []) true form).1
    ≡ some (paper_code_of random_bytes, paper_envelope)
unfolding handle_generate_paper_recovery paper_envelope
paper-sent = refl

paper-filled : is_empty paper_envelope ≡ false
unfolding wrap_vault_key paper_envelope
paper-filled = refl

handle_generate_paper_recovery-Unlocks_example :
    Unlocks plain_primitives key paper_only (paper_code_of random_bytes) pending 6000 open_state
handle_generate_paper_recovery-Unlocks_example =
    handle_generate_paper_recovery-Unlocks plain_primitives plain_primitives-IsSound key (1 ∷ [])
      (3 ∷ []) (omega arith) (omega arith) (omega arith) form random_bytes true
      (paper_code_of random_bytes) paper_envelope paper_only pending 6000 open_state paper-sent refl
      refl paper-filled refl

handle_execute_import-Reported_example :
    Reported same_text web library adding joined move_in_place preview page
      (handle_execute_import same_text web library adding joined preview)
handle_execute_import-Reported_example =
    handle_execute_import-Reported same_text web library adding joined move_in_place
      adding-IsGrowing preview page preview-fresh preview-announces
