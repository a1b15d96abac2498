-- ===== src/Tests/Vaults.antt =====
-- The entries of the vault on concrete inputs, with an instance of what kdbxweb does.
use kypassword_server.Base.{
  equal, throw, Text, codes, true, false, Option, none, some, List, [], ◌∷◌, ◌≡◌, refl, drop, ok,
}
use kypassword_server.Base.{trim, length, any, ◌≤◌, is_space}
use kypassword_server.Base.{◌++◌, map, ◌||◌}
use kypassword_server.Csv.Rows.{ImportedEntryPreview}
use kypassword_server.Csv.Duplicates.{
  has, import_content_key, live_key, preview_key, earlier, find_duplicate_imports,
  find_duplicate_imports_lem,
}
use kypassword_server.Api.{other_error}
use kypassword_server.Vault.FolderName.{folder_name, folder_name-ok, is_forbidden}
use kypassword_server.Vault.{
  plain, protected, Version, Entry, unset, at_most, Meta, Kdbxweb, IsSound, find_entry,
  change_entry, find_entry-uuid, find_entry-change_entry,
}
use kypassword_server.Vault.Groups.{Group, group, no_groups, more_groups}
use kypassword_server.Vault.History.{entry_history_enabled, restore_entry_version}
use kypassword_server.Vault.History.Restored.{restore_entry_version-IsRestored, IsRestored}
use kypassword_server.Vault.Update.{VaultEntry, update_entry}
use kypassword_server.Vault.Update.Again.{IsMove}

abbrev pub web : Kdbxweb
web = record {
  snapshot = λ v. v;
  copy_from = λ target v. v;
  touch = λ v. record v { last_modified = some 9 };
  remove_history = λ n versions. drop n versions;
}

pub web-IsSound : IsSound web
web-IsSound = record {
  snapshot-fields = λ v. refl;
  snapshot-binaries = λ v. refl;
  copy_from-fields = λ target v. refl;
  copy_from-binaries = λ target v. refl;
  touch-fields = λ v. refl;
  touch-custom_data = λ v. refl;
  touch-binaries = λ v. refl;
  remove_history-drop = λ n versions. refl;
}

-- A move that leaves the order of the entries.
abbrev pub move_found : Text → Text → List Entry → Option Entry → List Entry
move_found uuid g es none = es
move_found uuid g es (some e) = change_entry uuid (record e { parent = some g }) es

abbrev pub move_in_place : Text → Text → List Entry → List Entry
move_in_place uuid g es = move_found uuid g es (find_entry uuid es)

pub move_in_place-IsMove : IsMove move_in_place
move_in_place-IsMove uuid g es e found = rw (found) (
  record e { parent = some g },
  find_entry-change_entry uuid (record e { parent = some g }) es found
      (find_entry-uuid uuid es found),
  refl,
  refl,
)

abbrev pub version_of : Text → Version
version_of password = record {
  fields = (codes "Title", plain (codes "Mail")) ∷ (codes "Password", protected password) ∷ [];
  binaries = [];
  custom_data = [];
  quality_check = none;
  previous_parent = none;
  location_changed = none;
  last_modified = some 1;
}

abbrev pub mail : Entry
mail = record {
  uuid = codes "e1";
  parent = some (codes "work");
  current = version_of (codes "new");
  history = version_of (codes "older") ∷ version_of (codes "old") ∷ [];
}

abbrev pub settings : Meta
settings = record { history_max_items = at_most 2; history_max_size = unset }

abbrev pub home_folder : Group
home_folder = group (codes "home") (codes "Home") no_groups

abbrev pub folders : Group
folders = group (codes "root") (codes "Vault") (
    more_groups (group (codes "work") (codes "Work") no_groups) (more_groups home_folder no_groups))

abbrev pub edit_of_mail : VaultEntry
edit_of_mail = record {
  uuid = codes "e1";
  title = codes "Mail at home";
  username = codes "ada";
  password = codes "newer";
  url = [];
  notes = [];
  totp_seed = codes "JBSW";
  group_uuid = codes "home";
}

-- The first edit is a change, and the new password can be read.
first_edit : (update_entry web move_in_place settings folders edit_of_mail (mail ∷ [])).1 ≡ true
unfolding update_entry
first_edit = refl

restore_entry_version-IsRestored_example :
    (es' : List Entry) × (new : Entry) × (restore_entry_version web settings []
        (codes "e1")
        0
        (mail ∷ [])
      ≡ ok es')
    × (find_entry (codes "e1") es' ≡ some new)
    × IsRestored web-IsSound settings mail new (version_of (codes "older"))
restore_entry_version-IsRestored_example =
    restore_entry_version-IsRestored web-IsSound settings [] (codes "e1") 0 (mail ∷ []) mail
      (version_of (codes "older")) (unfold find_entry in refl) refl refl
      (unfold entry_history_enabled in refl)

folder_name-ok_example :
    (codes "Work" ≡ trim (codes " Work "))
    × (length (codes "Work") ≤ 255)
    × (any is_forbidden (codes "Work") ≡ false)
    × (folder_name (codes "Work") ≡ ok (codes "Work"))
folder_name-ok_example =
    folder_name-ok (codes " Work ") (codes "Work") (unfold folder_name is_space in refl)

-- A zero-width space inside a name is refused.
zero_width_name :
    folder_name (b'a' ∷ 0x200b ∷ b'b' ∷ [])
    ≡ throw (other_error (codes "Enter a folder name without control characters."))
unfolding folder_name is_space
zero_width_name = refl

abbrev join : List Text → Text
join [] = []
join (t ∷ ts) = t ++ (b',' ∷ join ts)

abbrev import_of : Text → Text → ImportedEntryPreview
import_of id password = record {
  id = id;
  title = codes "Mail";
  username = codes "ada";
  password = password;
  url = [];
  notes = [];
  totp_seed = [];
  folder = [];
  selected = true;
}

-- Two equal imports: the second one is a duplicate.
find_duplicate_imports_lem_example :
    has
      (find_duplicate_imports join
        (edit_of_mail ∷ [])
        (import_of (codes "i0") (codes "pw") ∷ import_of (codes "i1") (codes "pw") ∷ []))
      (codes "i1")
    ≡ (has
          (map (live_key join) (edit_of_mail ∷ []))
          (preview_key join (import_of (codes "i1") (codes "pw")))
        || earlier join
            (preview_key join (import_of (codes "i1") (codes "pw")))
            (import_of (codes "i0") (codes "pw") ∷ []))
find_duplicate_imports_lem_example =
    find_duplicate_imports_lem join (edit_of_mail ∷ []) (import_of (codes "i0") (codes "pw") ∷ [])
      (import_of (codes "i1") (codes "pw")) [] (unfold equal in refl, tt) tt

second_is_duplicate :
    find_duplicate_imports join
      (edit_of_mail ∷ [])
      (import_of (codes "i0") (codes "pw") ∷ import_of (codes "i1") (codes "pw") ∷ [])
    ≡ codes "i1" ∷ []
unfolding find_duplicate_imports import_content_key equal
second_is_duplicate = refl
