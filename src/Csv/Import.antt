-- ===== src/Csv/Import.antt =====
-- `applyImportToVault` of frontend/src/lib/csvImport.ts, on the vault of Vault.Operations. A call
-- answers with the database that it leaves and with what it returns or throws. `lower` stands for
-- `toLowerCase`, `stringify` for `JSON.stringify` of an array of strings.
pub mod Names
pub mod Folders
pub mod Made
pub mod Loops
pub mod Atomic
use kypassword_server.Base.{
  ℕ, ◌+◌, ◌-◌, ◌==◌, Text, codes, is_empty, or_else, trim, Bool, not, ◌||◌, Option, none, some,
  List, [], ◌∷◌, ◌++◌, map, select, length, if◌then◌else◌, Result, ok, throw, ◌>>=◌, ltb,
}
use kypassword_server.Api.{Thrown, other_error}
use kypassword_server.Csv.Rows.{ImportedEntryPreview}
use kypassword_server.Csv.Duplicates.{has, find_duplicate_imports}
use kypassword_server.Vault.{Kdbxweb}
use kypassword_server.Vault.Fields.{get_key, set_key}
use kypassword_server.Vault.FolderName.{folder_name}
use kypassword_server.Vault.Listing.{
  Database, VaultGroup, Library, get_live_entries, get_live_groups,
}
use kypassword_server.Vault.Operations.{Changes, create_entry, create_group}
use kypassword_server.Vault.Update.{VaultEntry}

pub data FolderMode : Type 0 where
  csv_folders single_folder : FolderMode

-- The options; the empty text stands for a text that is not given.
pub record Options : Type 0 where
  pub folder_mode : FolderMode
  pub target_folder_uuid : Text
  pub default_folder_name : Text
  pub skip_duplicates : Bool
  pub new_folder_name : Text

pub record Summary : Type 0 where
  pub imported_count : ℕ
  pub skipped_duplicates : ℕ
  pub folders_created : List Text

abbrev max_folder_depth : ℕ
max_folder_depth = 16

abbrev is_separator : ℕ → Bool
is_separator c = c == b'/' || c == 0x5c

abbrev on_first : ℕ → List Text → List Text
on_first c [] = (c ∷ []) ∷ []
on_first c (segment ∷ segments) = (c ∷ segment) ∷ segments

-- `split(/[/\\]/)`.
abbrev split_at_separators : Text → List Text
split_at_separators [] = [] ∷ []
split_at_separators (c ∷ t) =
    let rest = split_at_separators t in if is_separator c then [] ∷ rest else on_first c rest

unfoldable pub split_folder_path : Text → List Text
unfolding trim
split_folder_path folder =
    select (λ segment. not (is_empty segment)) (map trim (split_at_separators folder))

-- The loop over the segments of a path.
unfoldable pub check_segments : List Text → Result Thrown (Unit {0})
unfolding folder_name
check_segments [] = ok tt
check_segments (segment ∷ segments) = do _ ← folder_name segment; check_segments segments

abbrev pub folder_of : Options → ImportedEntryPreview → Text
folder_of o e = or_else e.folder o.default_folder_name

abbrev pub too_deep : Thrown
too_deep = other_error (codes "Keep folder paths to 16 levels or fewer.")

abbrev pub check_path : List Text → Result Thrown (Unit {0})
unfolding check_segments
check_path segments =
    if ltb max_folder_depth (length segments) then throw too_deep else check_segments segments

unfoldable pub check_paths : Options → List ImportedEntryPreview → Result Thrown (Unit {0})
unfolding split_folder_path check_path
check_paths o [] = ok tt
check_paths o (e ∷ es) = do _ ← check_path (split_folder_path (folder_of o e)); check_paths o es

abbrev pub check_new_folder : Text → Result Thrown (Unit {0})
unfolding folder_name trim
check_new_folder name = if is_empty (trim name) then ok tt else do _ ← folder_name name; ok tt

-- Every prospective name is looked at before anything is created.
unfoldable pub check_names :
    FolderMode → Options → List ImportedEntryPreview → Result Thrown (Unit {0})
unfolding check_paths check_new_folder
check_names single_folder o pending = check_new_folder o.new_folder_name
check_names csv_folders o pending = check_paths o pending

abbrev separator : ℕ
separator = 0

-- A segment at the end of a path.
abbrev pub below : Text → Text → Text
below path segment = if is_empty path then segment else path ++ (separator ∷ segment)

-- `Map`s from paths to ids, and back.
abbrev pub Paths : Type 0
Paths = List (Text × Text)

abbrev pub text_or : Option Text → Text → Text
text_or none t = t
text_or (some s) t = s

abbrev pub first_uuid : List VaultGroup → Text
first_uuid [] = []
first_uuid (g ∷ gs) = g.uuid

-- What the loops change: the vault, `groupMap` and `foldersCreated`.
pub record Import : Type 0 where
  pub vault : Database
  pub group_map : Paths
  pub folders_created : List Text

abbrev pub view_uuid : Option VaultGroup → Text
view_uuid none = []
view_uuid (some v) = v.uuid

module _ (lower : Text → Text) where
  -- The loop over the live groups; `root_uuid` is the first one's.
  unfoldable pub group_paths : Text → List VaultGroup → Paths → Paths → Paths
  unfolding get_key set_key trim
  group_paths root_uuid [] path_by_uuid group_map = group_map
  group_paths root_uuid (g ∷ gs) path_by_uuid group_map =
      let parent_path = text_or (get_key (text_or g.parent_uuid []) path_by_uuid) [] in
      let path = below parent_path (trim (lower g.name)) in
      let kept = group_paths root_uuid gs path_by_uuid group_map in
      let mapped =
        group_paths root_uuid gs (set_key g.uuid path path_by_uuid)
          (set_key path g.uuid group_map) in
      if has (root_uuid ∷ []) g.uuid then kept else mapped

-- The group at the path, where the map has one; the empty id counts as none.
abbrev pub existing : Option Text → Option Text
existing none = none
existing (some []) = none
existing (some (c ∷ u)) = some (c ∷ u)

module _ (lower : Text → Text) (k : Kdbxweb) (lib : Library) (ch : Changes) where
  abbrev pub Folder : Type 0
  Folder = Import × Result Thrown Text

  -- `createGroup`, and what goes on with the id of the new group.
  abbrev pub then_created :
      Text
      → Text
      → (Text → Import → Folder)
      → Import
      → Result Thrown (Database × Option VaultGroup)
      → Folder
  unfolding set_key
  then_created path segment next s (throw e) = (s, throw e)
  then_created path segment next s (ok made) = next (view_uuid made.1) (record {
    vault = made.0;
    group_map = set_key path (view_uuid made.1) s.group_map;
    folders_created = s.folders_created ++ segment ∷ [];
  })

  -- The loop of `getOrCreateGroup`.
  unfoldable pub make_folders : List Text → Text → Text → Import → Folder
  unfolding create_group get_key then_created
  make_folders [] path parent s = (s, ok parent)
  make_folders (segment ∷ segments) path parent s =
      let here = below path (lower segment) in
      elim (existing (get_key here s.group_map)) [
        | some u ↦ make_folders segments here u s
        | none ↦
            then_created here segment (make_folders segments here) s
              (create_group k lib ch segment (some parent) s.vault)
      ]

  unfoldable pub get_or_create_group : Text → Text → Import → Folder
  unfolding make_folders split_folder_path
  get_or_create_group root_uuid folder s = make_folders (split_folder_path folder) [] root_uuid s

  -- The group of an item.
  abbrev pub group_for : FolderMode → Options → Text → Text → ImportedEntryPreview → Import → Folder
  unfolding get_or_create_group
  group_for single_folder o root_uuid single e s = (s, ok single)
  group_for csv_folders o root_uuid single e s = get_or_create_group root_uuid (folder_of o e) s

  abbrev pub entry_for : Text → ImportedEntryPreview → VaultEntry
  entry_for g e = record {
    uuid = [];
    title = or_else e.title (codes "Untitled");
    username = e.username;
    password = e.password;
    url = e.url;
    notes = e.notes;
    totp_seed = e.totp_seed;
    group_uuid = g;
  }

  -- `createEntry` of an item in its group, and what goes on.
  abbrev pub then_entry :
      ImportedEntryPreview → (Import → Import × Result Thrown ℕ) → Folder → Import × Result Thrown ℕ
  unfolding create_entry
  then_entry e next (s, throw problem) = (s, throw problem)
  then_entry e next (s, ok g) =
      next (record s { vault = (create_entry k lib ch (entry_for g e) s.vault).0 })

  -- The loop over the items, with the number of those that were imported.
  unfoldable pub import_items :
      Options → Text → Text → ℕ → List ImportedEntryPreview → Import → Import × Result Thrown ℕ
  unfolding group_for then_entry
  import_items o root_uuid single n [] s = (s, ok n)
  import_items o root_uuid single n (e ∷ es) s =
      then_entry e (import_items o root_uuid single (n + 1) es)
        (group_for o.folder_mode o root_uuid single e s)

  -- The single folder: the new one, the one that is asked for, or the root.
  abbrev pub named : Text → Import → Result Thrown (Database × Option VaultGroup) → Folder
  named name s (throw e) = (s, throw e)
  named name s (ok made) = (
    record s { vault = made.0; folders_created = s.folders_created ++ name ∷ [] },
    ok (view_uuid made.1),
  )

  unfoldable pub single_folder_of : FolderMode → Options → Text → Import → Folder
  unfolding create_group trim
  single_folder_of csv_folders o root_uuid s = (s, ok (or_else o.target_folder_uuid root_uuid))
  single_folder_of single_folder o root_uuid s =
      let name = trim o.new_folder_name in
      if is_empty name
      then (s, ok (or_else o.target_folder_uuid root_uuid))
      else named name s (create_group k lib ch name none s.vault)

  abbrev pub Answer : Type 0
  Answer = Database × Result Thrown Summary

  abbrev pub summary_of : ℕ → Import × Result Thrown ℕ → Answer
  summary_of skipped (s, throw e) = (s.vault, throw e)
  summary_of skipped (s, ok n) = (
    s.vault,
    ok (record {
      imported_count = n;
      skipped_duplicates = skipped;
      folders_created = s.folders_created;
    }),
  )

  -- The loop, in the single folder if there is one.
  unfoldable pub import_into : Options → Text → ℕ → List ImportedEntryPreview → Folder → Answer
  unfolding import_items
  import_into o root_uuid skipped pending (s, throw e) = (s.vault, throw e)
  import_into o root_uuid skipped pending (s, ok single) =
      summary_of skipped (import_items o root_uuid single 0 pending s)

  abbrev pub start : Database → Import
  unfolding get_live_groups group_paths
  start db =
      let groups = get_live_groups lib db in
      record {
        vault = db;
        group_map = group_paths lower (first_uuid groups) groups ((first_uuid groups, []) ∷ []) [];
        folders_created = [];
      }

  -- From the check of the names on.
  unfoldable pub import_pending :
      Options → ℕ → List ImportedEntryPreview → Result Thrown (Unit {0}) → Database → Answer
  unfolding single_folder_of import_into start
  import_pending o skipped pending (throw e) db = (db, throw e)
  import_pending o skipped pending (ok _) db =
      let root_uuid = first_uuid (get_live_groups lib db) in
      import_into o root_uuid skipped pending
        (single_folder_of o.folder_mode o root_uuid (start db))

  unfoldable pub pending_of :
      (List Text → Text)
      → Options
      → List ImportedEntryPreview
      → Database
      → List ImportedEntryPreview
  unfolding find_duplicate_imports get_live_entries
  pending_of stringify o entries db =
      let duplicates =
        if o.skip_duplicates
        then find_duplicate_imports stringify (get_live_entries lib db) entries
        else [] in
      select (λ e. not (has duplicates e.id)) (select (λ e. e.selected) entries)

  unfoldable pub apply_import_to_vault :
      (List Text → Text) → List ImportedEntryPreview → Options → Database → Answer
  unfolding pending_of import_pending check_names
  apply_import_to_vault stringify entries o db =
      let pending = pending_of stringify o entries db in
      let skipped = length (select (λ e. e.selected) entries) - length pending in
      if length pending == 0
      then (
        db,
        ok (record { imported_count = 0; skipped_duplicates = skipped; folders_created = [] }),
      )
      else import_pending o skipped pending (check_names o.folder_mode o pending) db
