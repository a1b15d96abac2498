-- ===== src/Dialog/EntryHistory.antt =====
-- frontend/src/components/EntryHistoryModal.tsx: the saved versions of an entry, and the restoring of one.
use kypassword_server.Base.{
  ℕ, ◌+◌, ◌==◌, Text, codes, any, Bool, false, ◌&&◌, Option, none, some, List, [], ◌∷◌,
  if◌then◌else◌, Result, ok, throw,
}
use kypassword_server.Api.{Thrown, http_error, other_error, no_error, http_message}
use kypassword_server.Vault.{Kdbxweb}
use kypassword_server.Vault.History.{restore_entry_version}
use kypassword_server.Vault.Listing.{
  Database, Library, HistoryItem, VersionView, get_entry_history, get_entry_history_version,
  recycled_group_ids,
}

pub record EntryHistory : Type 0 where
  pub vault : Database
  -- no number stands for -1
  pub selected_index : Option ℕ
  pub reveal : Bool
  pub error : Text
  -- the number of calls of `onRestored`
  pub restored : ℕ

abbrev first_index : List HistoryItem → Option ℕ
first_index [] = none
first_index (v ∷ _) = some v.index

unfoldable pub open_entry_history : Text → Database → EntryHistory
unfolding get_entry_history
open_entry_history entry_uuid db = record {
  vault = db;
  selected_index = first_index (get_entry_history entry_uuid db);
  reveal = false;
  error = [];
  restored = 0;
}

-- `selected`, by its index.
unfoldable pub selected : Text → EntryHistory → Option ℕ
unfolding get_entry_history
selected entry_uuid s = elim s.selected_index [
  | none ↦ none
  | some i ↦ if any (λ v. v.index == i) (get_entry_history entry_uuid s.vault) then some i else none
]

unfoldable pub preview : Text → EntryHistory → Option (Result Thrown VersionView)
unfolding selected get_entry_history_version
preview entry_uuid s = elim (selected entry_uuid s) [
  | none ↦ none
  | some i ↦ some (get_entry_history_version entry_uuid i s.vault)
]

unfoldable pub select_version : ℕ → EntryHistory → EntryHistory
select_version i s = record s { selected_index = some i; reveal = false; error = [] }

abbrev error_text : Thrown → Text
error_text (http_error status m) = http_message status m
error_text (other_error m) = m
error_text no_error = codes "Unable to restore this entry version."

unfoldable pub restore : Kdbxweb → Library → Bool → Bool → Text → EntryHistory → EntryHistory
unfolding selected restore_entry_version recycled_group_ids
restore k lib allow_restore confirmed entry_uuid s = elim (selected entry_uuid s) [
  | none ↦ s
  | some i ↦
      if allow_restore && confirmed
      then elim (restore_entry_version k s.vault.meta (recycled_group_ids lib s.vault) entry_uuid i
          s.vault.entries) [
            | ok entries ↦ record s {
              vault = record s.vault { entries = entries };
              restored = s.restored + 1;
            }
            | throw e ↦ record s { error = error_text e }
          ]
      else s
]
