-- ===== src/Page.antt =====
-- The state and the handlers of frontend/src/pages/VaultPage.tsx. The vault that the page shows is part
-- of the state. `confirm` and `prompt` are arguments: what the user answers.
pub mod Shown
pub mod Dialogs
pub mod Imported
use kypassword_server.Base.{
  ℕ, ◌+◌, Text, codes, equal, is_empty, index_of, Bool, true, false, not, ◌&&◌, ◌||◌, Option, none,
  some, List, [], ◌∷◌, map, select, if◌then◌else◌, Result, ok, throw, includes,
}
use kypassword_server.Api.{Thrown}
use kypassword_server.Draft.{EntryDraft}
use kypassword_server.Reuse.{find_reused_passwords}
use kypassword_server.Reuse
use kypassword_server.Vault.{Kdbxweb, Entry, has_group}
use kypassword_server.Vault.Fields.{get_key}
use kypassword_server.Vault.Listing.{
  Database, VaultGroup, Library, get_entries, get_live_entries, get_live_groups,
  get_recycled_entries,
}
use kypassword_server.Vault.Operations.{
  Changes, create_entry, create_group, delete_entry, rename_group, restore_entry,
}
use kypassword_server.Vault.Update.{VaultEntry, update_entry}

pub record Page : Type 0 where
  pub vault : Database
  pub groups : List VaultGroup
  pub selected_group_uuid : Text
  pub recycled_ids : List Text
  pub entries : List VaultEntry
  pub selected_entry_uuid : Option Text
  pub pending_draft : Option EntryDraft
  pub search_query : Text
  pub show_reused_passwords : Bool
  pub reused_passwords : List (Text × ℕ)
  pub is_editing : Bool
  -- the fields of the editor, with the id of no entry
  pub edit : VaultEntry
  pub reveal_password : Bool
  -- the number of calls of `onChanged`
  pub changes : ℕ

abbrev pub all_items : Text
all_items = codes "all"

abbrev pub recycle_bin_view : Text
recycle_bin_view = codes "recycle"

-- A text that is there and not empty.
abbrev given : Option Text → Option Text
given none = none
given (some []) = none
given (some (c ∷ t)) = some (c ∷ t)

abbrev pub find_by_uuid : Text → List VaultEntry → Option VaultEntry
find_by_uuid uuid [] = none
find_by_uuid uuid (e ∷ es) = if equal e.uuid uuid then some e else find_by_uuid uuid es

unfoldable pub selected_entry : Page → Option VaultEntry
selected_entry s = elim s.selected_entry_uuid [
  | none ↦ none
  | some uuid ↦ find_by_uuid uuid s.entries
]

-- The texts of the editor differ from those of the entry.
unfoldable pub differs : VaultEntry → VaultEntry → Bool
differs edit e =
    not (equal edit.title e.title)
    || not (equal edit.username e.username)
    || not (equal edit.password e.password)
    || not (equal edit.url e.url)
    || not (equal edit.notes e.notes)
    || not (equal edit.totp_seed e.totp_seed)
    || not (equal edit.group_uuid e.group_uuid)

unfoldable pub draft_dirty : Page → Bool
unfolding selected_entry differs
draft_dirty s = s.is_editing && elim (selected_entry s) [ none ↦ false | some e ↦ differs s.edit e ]

abbrev draft_of : Text → VaultEntry → EntryDraft
draft_of uuid edit = record {
  uuid = uuid;
  title = edit.title;
  username = edit.username;
  password = edit.password;
  url = edit.url;
  notes = edit.notes;
  totp_seed = edit.totp_seed;
  group_uuid = edit.group_uuid;
}

-- What the page reports to `onDraftChange`.
unfoldable pub reported_draft : Page → Option EntryDraft
unfolding draft_dirty
reported_draft s =
    if draft_dirty s
    then elim (given s.selected_entry_uuid) [
      | none ↦ none
      | some uuid ↦ some (draft_of uuid s.edit)
    ]
    else none

unfoldable pub can_change_entry : Bool → Page → Bool
unfolding draft_dirty
can_change_entry confirmed s = not (draft_dirty s) || confirmed

abbrev edit_of_draft : EntryDraft → VaultEntry
edit_of_draft d = record {
  uuid = d.uuid;
  title = d.title;
  username = d.username;
  password = d.password;
  url = d.url;
  notes = d.notes;
  totp_seed = d.totp_seed;
  group_uuid = d.group_uuid;
}

abbrev load_entry : VaultEntry → Page → Page
load_entry e s = record s { edit = e; reveal_password = false }

abbrev load_draft : EntryDraft → VaultEntry → Page → Page
load_draft d e s =
    if equal d.uuid e.uuid
    then record s {
      pending_draft = none;
      edit = edit_of_draft d;
      is_editing = true;
      reveal_password = false;
    }
    else load_entry e s

unfoldable pub load_editor : Page → Page
unfolding selected_entry
load_editor s = elim (selected_entry s) [
  | none ↦ s
  | some e ↦ elim s.pending_draft [ none ↦ load_entry e s | some d ↦ load_draft d e s ]
]

abbrev first_entry : List VaultEntry → Option Text
first_entry [] = none
first_entry (e ∷ es) = some e.uuid

abbrev reused_entry : VaultEntry → Reuse.Entry
reused_entry e = record { uuid = e.uuid; password = e.password }

-- The tests of `filteredEntries`; `lower` stands for `toLowerCase`.
abbrev pub matches_group : Page → VaultEntry → Bool
unfolding get_key
matches_group s e =
    if equal s.selected_group_uuid recycle_bin_view
    then has_group s.recycled_ids e.uuid
    else not (has_group s.recycled_ids e.uuid)
      && (if s.show_reused_passwords
          then elim (get_key e.uuid s.reused_passwords) [ none ↦ false | some _ ↦ true ]
          else equal s.selected_group_uuid all_items || equal e.group_uuid s.selected_group_uuid)

abbrev pub matches_search : (Text → Text) → Page → VaultEntry → Bool
matches_search lower s e =
    let q = lower s.search_query in
    is_empty q
    || includes (lower e.title) q
    || includes (lower e.username) q
    || includes (lower e.url) q
    || includes (lower e.notes) q

unfoldable pub filtered_entries : (Text → Text) → Page → List VaultEntry
unfolding matches_group
filtered_entries lower s = select (λ e. matches_group s e && matches_search lower s e) s.entries

abbrev find_folder : Text → List VaultGroup → Option VaultGroup
find_folder uuid [] = none
find_folder uuid (g ∷ gs) = if equal g.uuid uuid then some g else find_folder uuid gs

unfoldable pub selected_folder : Page → Option VaultGroup
selected_folder s = find_folder s.selected_group_uuid s.groups

abbrev changed : Page → Page
changed s = record s { changes = s.changes + 1 }

-- The folder of a new entry.
abbrev pub new_entry_group : Page → Text
new_entry_group s =
    if equal s.selected_group_uuid all_items || equal s.selected_group_uuid recycle_bin_view
    then elim s.groups [ [] ↦ [] | g ∷ _ ↦ g.uuid ]
    else s.selected_group_uuid

abbrev new_account : Text → VaultEntry
new_account g = record {
  uuid = [];
  title = codes "New Account";
  username = [];
  password = [];
  url = [];
  notes = [];
  totp_seed = [];
  group_uuid = g;
}

-- The choice of the recycle bin in the sidebar.
unfoldable pub choose_recycle_bin : Bool → Page → Page
unfolding can_change_entry
choose_recycle_bin confirmed s =
    if can_change_entry confirmed s
    then record s {
      is_editing = false;
      selected_entry_uuid = none;
      selected_group_uuid = recycle_bin_view;
      show_reused_passwords = false;
    }
    else s

unfoldable pub choose_entry : Bool → Text → Page → Page
unfolding can_change_entry
choose_entry confirmed uuid s =
    if can_change_entry confirmed s
    then record s { is_editing = false; selected_entry_uuid = some uuid }
    else s

module _ (k : Kdbxweb) (lib : Library) (ch : Changes)
    (move : Text → Text → List Entry → List Entry) where
  -- `refreshVaultData`; `selected` is the selected entry at the last render.
  unfoldable pub refresh_vault_data : Option Text → Page → Page
  unfolding get_entries get_live_entries get_live_groups get_recycled_entries find_reused_passwords
  refresh_vault_data selected s =
      let live = get_live_entries lib s.vault in
      record s {
        groups = get_live_groups lib s.vault;
        entries = get_entries s.vault;
        recycled_ids = map (λ e. e.uuid) (get_recycled_entries lib s.vault);
        reused_passwords = find_reused_passwords (map reused_entry live);
        selected_entry_uuid = elim (given selected) [
          | none ↦ first_entry live
          | some _ ↦ s.selected_entry_uuid
        ];
      }

  -- `updateEntry` with the editor's fields: the vault, and whether it changed.
  abbrev apply_edit : Text → Page → Database × Bool
  unfolding update_entry
  apply_edit uuid s =
      let updated =
        update_entry k move s.vault.meta s.vault.root (record s.edit { uuid = uuid })
          s.vault.entries in
      (record s.vault { entries = updated.0 }, updated.1)

  unfoldable pub handle_save_entry : Page → Page
  unfolding apply_edit refresh_vault_data
  handle_save_entry s = elim (given s.selected_entry_uuid) [
    | none ↦ s
    | some uuid ↦
        let applied = apply_edit uuid s in
        let saved = record s { vault = applied.0; is_editing = false } in
        refresh_vault_data (some uuid) (if applied.1 then changed saved else saved)
  ]

  -- What goes on with the new entry.
  abbrev show_created : Page → Database × VaultEntry → Page
  unfolding refresh_vault_data
  show_created s created =
      record (refresh_vault_data s.selected_entry_uuid (changed (record s { vault = created.0 }))) {
        selected_group_uuid =
            if equal s.selected_group_uuid recycle_bin_view
            then all_items
            else s.selected_group_uuid;
        selected_entry_uuid = some created.1.uuid;
        is_editing = true;
      }

  unfoldable pub handle_create_new_entry : Bool → Page → Page
  unfolding can_change_entry create_entry show_created
  handle_create_new_entry confirmed s =
      if can_change_entry confirmed s
      then show_created s (create_entry k lib ch (new_account (new_entry_group s)) s.vault)
      else s

  unfoldable pub handle_delete_entry : Bool → Page → Page
  unfolding delete_entry refresh_vault_data
  handle_delete_entry confirmed s = elim (given s.selected_entry_uuid) [
    | none ↦ s
    | some uuid ↦
        if confirmed
        then refresh_vault_data (some uuid) (
            changed
              (record s { vault = delete_entry k lib ch uuid s.vault; selected_entry_uuid = none }))
        else s
  ]

  abbrev after_restore : Text → Page → Result Thrown Database → Page
  unfolding refresh_vault_data
  after_restore uuid s (throw e) = s
  after_restore uuid s (ok db) =
      record (refresh_vault_data (some uuid) (changed (record s { vault = db }))) {
        selected_group_uuid = all_items;
        show_reused_passwords = false;
      }

  unfoldable pub handle_restore_entry : Page → Page
  unfolding restore_entry after_restore
  handle_restore_entry s = elim (given s.selected_entry_uuid) [
    | none ↦ s
    | some uuid ↦ after_restore uuid s (restore_entry k lib ch uuid s.vault)
  ]

  abbrev after_creation : Page → Result Thrown (Database × Option VaultGroup) → Page
  unfolding refresh_vault_data
  after_creation s (throw e) = s
  after_creation s (ok made) =
      refresh_vault_data s.selected_entry_uuid (changed (record s { vault = made.0 }))

  abbrev folder_uuid : Option VaultGroup → Option Text
  folder_uuid none = none
  folder_uuid (some g) = some g.uuid

  unfoldable pub handle_create_group : Option Text → Page → Page
  unfolding selected_folder create_group after_creation
  handle_create_group none s = s
  handle_create_group (some name) s =
      after_creation s (create_group k lib ch name (folder_uuid (selected_folder s)) s.vault)

  abbrev after_renaming : Page → Result Thrown (Database × Bool) → Page
  unfolding refresh_vault_data
  after_renaming s (throw e) = s
  after_renaming s (ok (db, false)) = record s { vault = db }
  after_renaming s (ok (db, true)) =
      refresh_vault_data s.selected_entry_uuid (changed (record s { vault = db }))

  unfoldable pub handle_rename_group : Option Text → Page → Page
  unfolding selected_folder rename_group after_renaming
  handle_rename_group none s = s
  handle_rename_group (some name) s = elim (selected_folder s) [
    | none ↦ s
    | some g ↦ after_renaming s (rename_group k lib ch g.uuid name s.vault)
  ]
