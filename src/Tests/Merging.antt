-- ===== src/Tests/Merging.antt =====
-- An import into the vault at concrete inputs, with an instance of what kdbxweb adds.
use kypassword_server.Base.{
  Text, codes, equal, equal_refl, Bool, Bool-cases, inl, inr, true, false, some, List, [], ◌∷◌,
  ◌++◌, ◌≡◌, refl, length,
}
use kypassword_server.Csv.Rows.{ImportedEntryPreview}
use kypassword_server.Csv.Import.{
  csv_folders, Options, apply_import_to_vault, check_names, pending_of,
}
use kypassword_server.Csv.Import.Folders.{Known}
use kypassword_server.Csv.Import.Made.{IsGrowing}
use kypassword_server.Csv.Import.Atomic.{AllOrNothing, apply_import_to_vault-AllOrNothing}
use kypassword_server.Vault.Groups.{Group, group, no_groups, more_groups, find_group}
use kypassword_server.Vault.Listing.Preorder.{is_found}
use kypassword_server.Vault.Operations.{Changes, parent_group}
use kypassword_server.Tests.Vaults.{web}
use kypassword_server.Tests.Folders.{library, database, new_entry}

-- A new folder is put first below the root.
abbrev pub with_folder : Text → Group → Group
with_folder name (group u n below) =
    group u n (more_groups (group (codes "new folder") name no_groups) below)

abbrev pub adding : Changes
adding = record {
  create_entry = λ g db. (record db { entries = new_entry g ∷ db.entries }, codes "new");
  create_group = λ g name db. (record db { root = with_folder name db.root }, codes "new folder");
  move = λ uuid g db. db;
  remove = λ uuid db. db;
  create_recycle_bin = λ db. db;
}

with_folder-found :
    (name u : Text) (root : Group)
    → is_found (find_group u root) ≡ true
    → is_found (find_group u (with_folder name root)) ≡ true
unfolding find_group
with_folder-found name u (group w n below) h = elim (Bool-cases (equal w u)) [
  | inl y ↦ rw (y) refl
  | inr m ↦ elim (Bool-cases (equal (codes "new folder") u)) [
    | inl y ↦ rw (m, y) refl
    | inr o ↦ rw (m, o) (rw (m) at h)
  ]
]

with_folder-new :
    (name : Text) (root : Group)
    → is_found (find_group (codes "new folder") (with_folder name root)) ≡ true
unfolding find_group
with_folder-new name (group w n below) = elim (Bool-cases (equal w (codes "new folder"))) [
  | inl y ↦ rw (y) refl
  | inr m ↦ rw (m, equal_refl (codes "new folder")) refl
]

with_folder-Known :
    (name u : Text) (root : Group)
    → is_found (parent_group (some u) root) ≡ true
    → is_found (parent_group (some u) (with_folder name root)) ≡ true
unfolding parent_group
with_folder-Known name [] root h = refl
with_folder-Known name (c ∷ u) root h = with_folder-found name (c ∷ u) root h

pub adding-IsGrowing : IsGrowing adding
unfolding Known parent_group
adding-IsGrowing = record {
  create_group-Known = λ g name db u. with_folder-Known name u db.root;
  create_group-new = λ g name db. with_folder-new name db.root;
  create_group-entries = λ g name db. refl;
  create_entry-root = λ g db. refl;
  create_entry-entries = λ g db. refl;
}

abbrev pub item : Text → Text → Bool → ImportedEntryPreview
item id folder selected = record {
  id = id;
  title = codes "Shop";
  username = codes "ann";
  password = codes "pw";
  url = [];
  notes = [];
  totp_seed = [];
  folder = folder;
  selected = selected;
}

abbrev pub items : List ImportedEntryPreview
items =
    item (codes "i1") (codes "work/jobs") true
    ∷ item (codes "i2") (codes "work") true
    ∷ item (codes "i3") [] false
    ∷ []

abbrev options : Options
options = record {
  folder_mode = csv_folders;
  target_folder_uuid = [];
  default_folder_name = [];
  skip_duplicates = true;
  new_folder_name = [];
}

abbrev pub joined : List Text → Text
joined [] = []
joined (t ∷ ts) = t ++ (b',' ∷ joined ts)

abbrev pub same_text : Text → Text
same_text t = t

apply_import_to_vault-AllOrNothing_example :
    AllOrNothing same_text web library adding adding-IsGrowing
      (check_names csv_folders options
        (pending_of same_text web library adding joined options items database))
      database
      (length (pending_of same_text web library adding joined options items database))
      2
      (apply_import_to_vault same_text web library adding joined items options database)
apply_import_to_vault-AllOrNothing_example =
    apply_import_to_vault-AllOrNothing same_text web library adding adding-IsGrowing joined items
      options database
