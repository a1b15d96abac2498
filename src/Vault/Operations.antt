-- ===== src/Vault/Operations.antt =====
-- The operations of frontend/src/lib/kdbx.ts on entries and folders. `Changes` is what they use of
-- kdbxweb to change the database.
pub mod Created
pub mod Recycled
use kypassword_server.Base.{
  Text, codes, equal, is_empty, Bool, true, false, not, ◌&&◌, ◌||◌, Option, none, some, List, [],
  ◌∷◌, if◌then◌else◌, Result, ok, throw, ◌>>=◌, ◌≡◌,
}
use kypassword_server.Api.{Thrown, other_error}
use kypassword_server.Vault.{
  Value, plain, protected, Entry, Kdbxweb, find_entry, change_entry, has_group,
  find_entry-change_entry,
}
use kypassword_server.Vault.Fields.{set_key}
use kypassword_server.Vault.FolderName.{folder_name}
use kypassword_server.Vault.Groups.{Group, group, Groups, no_groups, more_groups, find_group}
use kypassword_server.Vault.Listing.{
  Database, VaultGroup, Library, group_uuid, get_groups, recycled_group_ids,
}
use kypassword_server.Vault.Update.{
  VaultEntry, Map, title_key, username_key, password_key, url_key, notes_key, otp_key,
}

pub record Changes : Type 0 where
  -- `createEntry` in a group, with the id of the new entry
  pub create_entry : Text → Database → Database × Text
  -- `createGroup` below a group under a name, with the id of the new group
  pub create_group : Text → Text → Database → Database × Text
  -- `move` of an entry into a group
  pub move : Text → Text → Database → Database
  pub remove : Text → Database → Database
  pub create_recycle_bin : Database → Database

unfoldable pub recycling_enabled : Database → Bool
recycling_enabled db = elim db.recycle_bin_enabled [ none ↦ true | some b ↦ b ]

abbrev pub in_groups : List Text → Option Text → Bool
in_groups groups none = false
in_groups groups (some g) = has_group groups g

-- A change of the entry with this id.
unfoldable pub change_found : (Entry → Entry) → Text → Option Entry → Database → Database
unfolding change_entry
change_found f uuid none db = db
change_found f uuid (some e) db = record db { entries = change_entry uuid (f e) db.entries }

pub find_entry-change_found :
    (f : Entry → Entry) (uuid : Text) (db : Database) (e : Entry)
    → find_entry uuid db.entries ≡ some e
    → equal (f e).uuid uuid ≡ true
    → find_entry uuid (change_found f uuid (find_entry uuid db.entries) db).entries ≡ some (f e)
unfolding change_found
find_entry-change_found f uuid db e found same =
    rw (found) (find_entry-change_entry uuid (f e) db.entries found same)

unfoldable pub change_fields : (Map → Map) → Entry → Entry
change_fields f e = record e { current = record e.current { fields = f e.current.fields } }

-- The fields that `createEntry` sets.
unfoldable pub new_fields : VaultEntry → Map → Map
unfolding set_key
new_fields v fields =
    let basic = set_key notes_key (plain v.notes) (
      set_key url_key (plain v.url) (
        set_key password_key (protected v.password)
          (set_key username_key (plain v.username) (set_key title_key (plain v.title) fields)))) in
    if is_empty v.totp_seed then basic else set_key otp_key (plain v.totp_seed) basic

-- The group of the given id, or the default group.
unfoldable pub target_group : Text → Group → Text
unfolding find_group
target_group uuid root =
    if is_empty uuid
    then group_uuid root
    else elim (find_group uuid root) [ none ↦ group_uuid root | some g ↦ group_uuid g ]

abbrev not_recycled : Thrown
not_recycled = other_error (codes "This entry is not in the recycle bin.")

abbrev pub no_live_folder : Thrown
no_live_folder = other_error (codes "No live vault folder is available.")

abbrev no_folder : Thrown
no_folder = other_error (codes "This folder is no longer available.")

abbrev no_live_choice : Thrown
no_live_choice = other_error (codes "Choose a folder in the live vault.")

-- The view of a group in the listing.
unfoldable pub find_view : Text → List VaultGroup → Option VaultGroup
unfolding equal
find_view uuid [] = none
find_view uuid (v ∷ vs) = if equal v.uuid uuid then some v else find_view uuid vs

-- The group whose name changes is the one that `findGroup` finds; the flag tells that it was passed.
unfoldable mutual
  unfolding equal

  pub set_name : Text → Text → Group → Group × Bool
  set_name uuid name (group u old below) =
      let rest = set_name_below uuid name below in
      if equal u uuid then (group u name below, true) else (group u old rest.0, rest.1)

  pub set_name_below : Text → Text → Groups → Groups × Bool
  set_name_below uuid name no_groups = (no_groups, false)
  set_name_below uuid name (more_groups g gs) =
      let first = set_name uuid name g in
      let rest = set_name_below uuid name gs in
      if first.1 then (more_groups first.0 gs, true) else (more_groups g rest.0, rest.1)

unfoldable pub parent_group : Option Text → Group → Option Group
unfolding find_group
parent_group none root = some root
parent_group (some []) root = some root
parent_group (some (c ∷ u)) root = find_group (c ∷ u) root

module _ (k : Kdbxweb) (lib : Library) (ch : Changes) where
  -- `createEntry`: the database and the view of the new entry.
  unfoldable pub create_entry : VaultEntry → Database → Database × VaultEntry
  unfolding target_group find_entry change_found change_fields new_fields
  create_entry v db =
      let created = ch.create_entry (target_group v.group_uuid db.root) db in
      (
        change_found (change_fields (new_fields v)) created.1
            (find_entry created.1 created.0.entries) created.0,
        record v { uuid = created.1; group_uuid = target_group v.group_uuid db.root },
      )

  delete_found : Text → Option Entry → Database → Database
  unfolding recycling_enabled recycled_group_ids
  delete_found uuid none db = db
  delete_found uuid (some e) db =
      if in_groups (recycled_group_ids lib db) e.parent
      then db
      else ch.remove uuid (if recycling_enabled db then ch.create_recycle_bin db else db)

  unfoldable pub delete_entry : Text → Database → Database
  unfolding delete_found find_entry
  delete_entry uuid db = delete_found uuid (find_entry uuid db.entries) db

  touch_found : Text → Database → Database
  unfolding find_entry change_found
  touch_found uuid db =
      change_found (λ e. record e { current = k.touch e.current }) uuid (find_entry uuid db.entries)
        db

  restore_found : Text → Option Entry → Database → Result Thrown Database
  unfolding recycled_group_ids touch_found
  restore_found uuid none db = throw not_recycled
  restore_found uuid (some e) db =
      let recycled = recycled_group_ids lib db in
      if not (in_groups recycled e.parent)
      then throw not_recycled
      else if has_group recycled (group_uuid db.root)
      then throw no_live_folder
      else ok (touch_found uuid (ch.move uuid (group_uuid db.root) db))

  unfoldable pub restore_entry : Text → Database → Result Thrown Database
  unfolding restore_found find_entry
  restore_entry uuid db = restore_found uuid (find_entry uuid db.entries) db

  unfoldable pub create_below :
      Text → Option Group → Database → Result Thrown (Database × Option VaultGroup)
  unfolding get_groups find_view
  create_below name none db = throw no_folder
  create_below name (some parent) db =
      let created = ch.create_group (group_uuid parent) name db in
      ok (created.0, find_view created.1 (get_groups created.0))

  -- `createGroup`: the database and the view of the new group.
  unfoldable pub create_group :
      Text → Option Text → Database → Result Thrown (Database × Option VaultGroup)
  unfolding create_below folder_name parent_group
  create_group name parent db = do
    valid ← folder_name name
    create_below valid (parent_group parent db.root) db

  rename_found : Text → Text → Option Group → Database → Result Thrown (Database × Bool)
  unfolding recycled_group_ids set_name equal
  rename_found uuid name none db = throw no_live_choice
  rename_found uuid name (some (group u old below)) db =
      if has_group (recycled_group_ids lib db) uuid
      then throw no_live_choice
      else if equal old name
      then ok (db, false)
      else ok (record db { root = (set_name uuid name db.root).0 }, true)

  unfoldable pub rename_group : Text → Text → Database → Result Thrown (Database × Bool)
  unfolding rename_found folder_name find_group
  rename_group uuid name db = do
    valid ← folder_name name
    rename_found uuid valid (find_group uuid db.root) db
