-- ===== src/Tests/Folders.antt =====
-- Folders, new entries and the recycle bin at concrete inputs, with an instance of what kdbxweb does.
use kypassword_server.Vault.Listing.Preorder.{is_found, lists, find_group-lists}
use kypassword_server.Vault.FolderName.{folder_name}
use kypassword_server.Base.{
  Bool, throw, ℕ, ◌⊎◌, Text, codes, equal, equal_refl, true, false, Option, none, some, [], ◌∷◌,
  ◌≡◌, refl, ok, map, trim, is_space,
}
use kypassword_server.Vault.Listing.{FieldView, get_entry_history_version}
use kypassword_server.Vault.{plain, Entry, has_group, find_entry, find_entry-uuid}
use kypassword_server.Vault.Fields.{get_key}
use kypassword_server.Vault.Groups.{group, no_groups, find_group, more_groups}
use kypassword_server.Vault.Listing.{
  Database, Library, group_uuid, recycled_group_ids, get_groups, entry_view, VaultGroup,
}
use kypassword_server.Vault.Operations.{
  Changes, change_found, find_entry-change_found, recycling_enabled, no_live_folder, delete_entry,
  restore_entry, create_entry, target_group, rename_group,
}
use kypassword_server.Vault.Operations.Created.{IsCreation, create_entry-entry_view}
use kypassword_server.Vault.Operations.Recycled.{
  IsRecycling, IsMoving, IsBack, restore_entry-delete_entry,
}
use kypassword_server.Tests.Vaults.{
  web, web-IsSound, mail, settings, folders, edit_of_mail, version_of, home_folder,
}

-- A library that knows a bin by its id alone.
abbrev pub library : Library
library = record {
  get_group = λ db uuid. some (group uuid [] no_groups);
  all_groups = λ g. group_uuid g ∷ [];
}

abbrev or_new : Option Text → Text → Text
or_new none new = new
or_new (some old) new = old

-- The recycle bin, or the id of a new one.
abbrev bin_of : Database → Text
bin_of db = or_new db.recycle_bin (b'b' ∷ group_uuid db.root)

abbrev put_in : Option Text → Text → Database → Database
put_in parent uuid db =
    change_found (λ e. record e { parent = parent }) uuid (find_entry uuid db.entries) db

abbrev pub new_entry : Text → Entry
new_entry g = record {
  uuid = codes "new";
  parent = some g;
  current = record (version_of []) { fields = [] };
  history = [];
}

abbrev pub changes : Changes
changes = record {
  create_entry = λ g db. (record db { entries = new_entry g ∷ db.entries }, codes "new");
  create_group = λ g name db. (db, g);
  move = λ uuid g db. put_in (some g) uuid db;
  remove = λ uuid db. put_in db.recycle_bin uuid db;
  create_recycle_bin = λ db. record db { recycle_bin = some (bin_of db) };
}

changes-IsCreation : IsCreation changes
unfolding find_entry get_key equal
changes-IsCreation g db = (new_entry g, refl, refl, refl, refl)

changes-IsMoving : IsMoving library changes
changes-IsMoving uuid g db e found = (
  record e { parent = some g },
  find_entry-change_found (λ e. record e { parent = some g }) uuid db e found
      (find_entry-uuid uuid db.entries found),
  refl,
  refl,
  refl,
)

changes-IsRecycling : IsRecycling library changes
unfolding recycled_group_ids change_found
changes-IsRecycling uuid db e found =
    let d : Database = record db { recycle_bin = some (bin_of db) } in
    (
      record e { parent = some (bin_of db) },
      find_entry-change_found (λ e. record e { parent = some (bin_of db) }) uuid d e found
          (find_entry-uuid uuid db.entries found),
      rw (found, equal_refl (bin_of db)),
      refl,
      refl,
    )

abbrev pub database : Database
database = record {
  root = folders;
  entries = mail ∷ [];
  meta = settings;
  recycle_bin = none;
  recycle_bin_enabled = none;
}

abbrev deleted_mail : Database
deleted_mail = delete_entry web library changes (codes "e1") database

restore_entry-delete_entry_example :
    let stuck =
      has_group (recycled_group_ids library deleted_mail) (group_uuid deleted_mail.root) in
    (delete_entry web library changes (codes "e1") deleted_mail ≡ deleted_mail)
    × (((stuck ≡ true)
          × (restore_entry web library changes (codes "e1") deleted_mail ≡ throw no_live_folder))
        ⊎ ((stuck ≡ false)
            × ((after : Database) × (restore_entry web library changes (codes "e1") deleted_mail
                  ≡ ok after)
                × IsBack web web-IsSound library changes mail deleted_mail after (codes "e1"))))
restore_entry-delete_entry_example =
    restore_entry-delete_entry web web-IsSound library changes changes-IsRecycling changes-IsMoving
      (codes "e1") database mail (unfold find_entry equal in refl)
      (unfold recycled_group_ids in refl) (unfold recycling_enabled in refl)

-- With a new bin the default group is live; when the bin is the default group, nothing can be restored.
default_live :
    has_group (recycled_group_ids library deleted_mail) (group_uuid deleted_mail.root) ≡ false
unfolding delete_entry recycled_group_ids recycling_enabled find_entry equal change_found
default_live = refl

abbrev rooted : Database
rooted = record database { recycle_bin = some (codes "root") }

restore_refused :
    restore_entry web library changes
      (codes "e1")
      (delete_entry web library changes (codes "e1") rooted)
    ≡ throw no_live_folder
unfolding delete_entry restore_entry recycled_group_ids recycling_enabled find_entry equal
    change_found
restore_refused = refl

create_entry-entry_view_example :
    let after = create_entry web library changes edit_of_mail database in
    (e : Entry) × (find_entry after.1.uuid after.0.entries ≡ some e)
    × (entry_view e ≡ after.1)
    × (after.1 ≡ record edit_of_mail {
      uuid = after.1.uuid;
      group_uuid = target_group (codes "home") folders;
    })
create_entry-entry_view_example =
    create_entry-entry_view web library changes changes-IsCreation edit_of_mail database

find_group-lists_example :
    is_found (find_group (codes "home") folders) ≡ lists (get_groups database) (codes "home")
find_group-lists_example = find_group-lists database (codes "home")

paths_of_folders :
    map {B = Text × ℕ} (λ (v : VaultGroup). (v.path, v.depth)) (get_groups database)
    ≡ (codes "Vault", 0) ∷ (codes "Vault / Work", 1) ∷ (codes "Vault / Home", 1) ∷ []
unfolding get_groups
paths_of_folders = refl

-- A folder gets the trimmed name; a name with a line end is refused.
renamed :
    rename_group web library changes (codes "work") (codes " Job ") database
    ≡ ok (
      record database {
        root = group (codes "root") (codes "Vault") (
            more_groups
              (group (codes "work") (codes "Job") no_groups)
              (more_groups home_folder no_groups));
      },
      true,
    )
unfolding rename_group folder_name trim is_space recycled_group_ids
renamed = refl

abbrev secret_database : Database
secret_database = record database {
  entries =
      record mail {
        history =
            version_of []
            ∷ record (version_of []) {
              fields = (codes "Title", plain (codes "t")) ∷ (codes "OTP", plain (codes "s")) ∷ [];
            }
            ∷ [];
      }
      ∷ [];
}

-- The second saved version of the entry; the names of secret fields are compared without case.
second_version :
    map {B = Text × Bool}
      (λ (f : FieldView). (f.name, f.is_protected))
      ((elim (get_entry_history_version (codes "e1") 1 secret_database) [
        | ok v ↦ v.fields
        | throw _ ↦ []
      ]))
    ≡ (codes "Title", false) ∷ (codes "OTP", true) ∷ []
unfolding get_entry_history_version equal
second_version = refl
