-- ===== src/Tests/Pages.antt =====
-- The vault page and the reused passwords at concrete inputs.
use kypassword_server.Base.{
  ◌∷◌, true, is_empty, length, ◌<◌, Text, codes, equal, false, none, List, [], All, ◌≡◌, refl,
}
use kypassword_server.Vault.{Entry, has_group}
use kypassword_server.Vault.Listing.{recycled_group_ids}
use kypassword_server.Vault.Operations.{delete_entry}
use kypassword_server.Reuse
use kypassword_server.Reuse.{find_reused_passwords}
use kypassword_server.Reuse.Groups.{ids_with, is_among}
use kypassword_server.Reuse.Counts.{IsCount, reports, find_reused_passwords-IsCount}
use kypassword_server.Page.{Page, all_items, filtered_entries, refresh_vault_data}
use kypassword_server.Page.Shown.{filtered_entries-live}
use kypassword_server.Tests.Vaults.{web, edit_of_mail}
use kypassword_server.Tests.Folders.{library, changes, database}

abbrev same : Text → Text
same t = t

abbrev in_place : Text → Text → List Entry → List Entry
in_place uuid g es = es

-- The page after the only entry was deleted.
abbrev pub page : Page
page = record {
  vault = delete_entry web library changes (codes "e1") database;
  groups = [];
  selected_group_uuid = all_items;
  recycled_ids = [];
  entries = [];
  selected_entry_uuid = none;
  pending_draft = none;
  search_query = [];
  show_reused_passwords = false;
  reused_passwords = [];
  is_editing = false;
  edit = edit_of_mail;
  reveal_password = false;
  changes = 0;
}

filtered_entries-live_example :
    All
      (λ e. has_group (recycled_group_ids library page.vault) e.group_uuid ≡ false)
      (filtered_entries same (refresh_vault_data web library changes in_place none page))
unfolding equal
filtered_entries-live_example =
    filtered_entries-live same web library changes in_place none page refl

abbrev account : Text → Text → Reuse.Entry
account uuid password = record { uuid = uuid; password = password }

-- Two of these entries have one password, and two have none.
abbrev accounts : List Reuse.Entry
accounts =
    account (codes "a") (codes "pw")
    ∷ account (codes "b") []
    ∷ account (codes "c") (codes "pw")
    ∷ account (codes "d") []
    ∷ []

find_reused_passwords-IsCount_example :
    All (IsCount accounts) (find_reused_passwords accounts)
    × ((p id : Text)
        → is_empty p ≡ false
        → is_among id (ids_with p accounts) ≡ true
        → 1 < length (ids_with p accounts)
        → reports id (find_reused_passwords accounts) ≡ true)
find_reused_passwords-IsCount_example = find_reused_passwords-IsCount accounts

reused_accounts : find_reused_passwords accounts ≡ (codes "a", 2) ∷ (codes "c", 2) ∷ []
unfolding find_reused_passwords equal
reused_accounts = refl
