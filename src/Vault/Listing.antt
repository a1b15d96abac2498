-- ===== src/Vault/Listing.antt =====
-- The listings of frontend/src/lib/kdbx.ts: folders, entries, what of them is in the recycle bin, saved
-- versions and attachments. `Library` is what they call
-- of kdbxweb.
pub mod Preorder
use kypassword_server.Api.{Thrown, other_error}
use kypassword_server.Base.{
  ℕ, zero, suc, ◌+◌, ◌-◌, Text, codes, equal, is_empty, or_else, length, any, count_by, select, map,
  Bool, true, false, not, ◌&&◌, ◌||◌, Option, none, some, List, [], ◌∷◌, ◌++◌, if◌then◌else◌,
  Result, ok, throw, get_elem?, within,
}
use kypassword_server.Vault.{
  Value, Version, Binary, hashed, inline, Entry, Meta, find_entry, has_group, plain, protected,
}
use kypassword_server.Vault.Fields.{entry_field_text}
use kypassword_server.Vault.Groups.{Group, group, Groups, no_groups, more_groups}
use kypassword_server.Vault.Update.{
  VaultEntry, in_group, title_key, username_key, password_key, url_key, notes_key, otp_text,
}

-- The open database: the tree of the default group, its entries in the order of `allEntries`, and the
-- settings.
pub record Database : Type 0 where
  pub root : Group
  pub entries : List Entry
  pub meta : Meta
  -- `recycleBinUuid` and `recycleBinEnabled`
  pub recycle_bin : Option Text
  pub recycle_bin_enabled : Option Bool

pub record VaultGroup : Type 0 where
  pub uuid : Text
  pub name : Text
  pub parent_uuid : Option Text
  pub entries_count : ℕ
  pub path : Text
  pub depth : ℕ

abbrev pub group_uuid : Group → Text
group_uuid (group u name below) = u

-- `group.name || "Folder"`.
abbrev pub group_name : Group → Text
group_name (group u name below) = or_else name (codes "Folder")

-- The loop of `groupView` over the parents: the names from the outermost group on.
unfoldable pub path_names : List Group → List Text → List Text
path_names [] names = names
path_names (g ∷ parents) names = path_names parents (group_name g ∷ names)

-- `names.join(" / ")`.
unfoldable pub join_path : List Text → Text
join_path [] = []
join_path (n ∷ []) = n
join_path (n ∷ m ∷ names) = n ++ (codes " / " ++ join_path (m ∷ names))

abbrev pub parent_of : List Group → Option Text
parent_of [] = none
parent_of (g ∷ _) = some (group_uuid g)

-- `groupView` of a group below `parents`, the nearest one first.
unfoldable pub group_view : List Entry → List Group → Group → VaultGroup
unfolding path_names join_path in_group
group_view entries parents g =
    let names = path_names (g ∷ parents) [] in
    record {
      uuid = group_uuid g;
      name = group_name g;
      parent_uuid = parent_of parents;
      entries_count = count_by (λ e. in_group (group_uuid g) e.parent) entries;
      path = join_path names;
      depth = length names - 1;
    }

unfoldable mutual
  unfolding group_view

  -- `traverse` of `getGroups`.
  pub traverse : List Entry → List Group → Group → List VaultGroup
  traverse entries parents (group u name below) =
      group_view entries parents (group u name below)
      ∷ traverse_below entries (group u name below ∷ parents) below

  pub traverse_below : List Entry → List Group → Groups → List VaultGroup
  traverse_below entries parents no_groups = []
  traverse_below entries parents (more_groups g gs) =
      traverse entries parents g ++ traverse_below entries parents gs

unfoldable pub get_groups : Database → List VaultGroup
unfolding traverse
get_groups db = traverse db.entries [] db.root

-- What `getEntries` lists of an entry.
unfoldable pub entry_view : Entry → VaultEntry
unfolding entry_field_text
entry_view e = record {
  uuid = e.uuid;
  title = entry_field_text e.current.fields title_key;
  username = entry_field_text e.current.fields username_key;
  password = entry_field_text e.current.fields password_key;
  url = entry_field_text e.current.fields url_key;
  notes = entry_field_text e.current.fields notes_key;
  totp_seed = otp_text e.current.fields;
  group_uuid = elim e.parent [ none ↦ [] | some g ↦ g ];
}

-- `getEntries()` without a group.
unfoldable pub get_entries : Database → List VaultEntry
unfolding entry_view
get_entries db = map entry_view db.entries

-- `getGroup` and `allGroups` of kdbxweb.
pub record Library : Type 0 where
  pub get_group : Database → Text → Option Group
  pub all_groups : Group → List Text

module _ (lib : Library) where
  abbrev groups_of : Option Group → List Text
  groups_of none = []
  groups_of (some g) = lib.all_groups g

  unfoldable pub recycled_group_ids : Database → List Text
  recycled_group_ids db = elim db.recycle_bin [
    | none ↦ []
    | some bin ↦ groups_of (lib.get_group db bin)
  ]

  unfoldable pub get_live_entries : Database → List VaultEntry
  unfolding recycled_group_ids get_entries
  get_live_entries db =
      let recycled = recycled_group_ids db in
      select (λ e. not (has_group recycled e.group_uuid)) (get_entries db)

  unfoldable pub get_recycled_entries : Database → List VaultEntry
  unfolding recycled_group_ids get_entries
  get_recycled_entries db =
      let recycled = recycled_group_ids db in
      select (λ e. has_group recycled e.group_uuid) (get_entries db)

  unfoldable pub get_live_groups : Database → List VaultGroup
  unfolding recycled_group_ids get_groups
  get_live_groups db =
      let recycled = recycled_group_ids db in
      select (λ g. not (has_group recycled g.uuid)) (get_groups db)

-- An item of `getEntryHistory`.
pub record HistoryItem : Type 0 where
  pub index : ℕ
  pub updated_at : Option ℕ

abbrev number_versions : ℕ → List Version → List HistoryItem
number_versions n [] = []
number_versions n (v ∷ vs) =
    record { index = n; updated_at = v.last_modified } ∷ number_versions (suc n) vs

abbrev reverse_onto : List HistoryItem → List HistoryItem → List HistoryItem
reverse_onto [] done = done
reverse_onto (x ∷ xs) done = reverse_onto xs (x ∷ done)

unfoldable pub get_entry_history : Text → Database → List HistoryItem
unfolding find_entry
get_entry_history uuid db =
    reverse_onto
      (number_versions 0 (elim (find_entry uuid db.entries) [ none ↦ [] | some e ↦ e.history ])) []

abbrev pub binary_size : Binary → ℕ
binary_size (hashed _ n) = n
binary_size (inline n) = n

unfoldable pub get_attachments : Text → Database → List (Text × ℕ)
unfolding find_entry
get_attachments uuid db =
    map (λ (b : Text × Binary). (b.0, binary_size b.1))
      (elim (find_entry uuid db.entries) [ none ↦ [] | some e ↦ e.current.binaries ])

-- A field of a version, with whether it is shown hidden.
pub record FieldView : Type 0 where
  pub name : Text
  pub value : Text
  pub is_protected : Bool

abbrev lower_unit : ℕ → ℕ
lower_unit c = if within 0x41 0x5a c then c + 32 else c

-- `/^(password|otp|totp)$/i`.
abbrev pub is_secret_name : Text → Bool
unfolding equal
is_secret_name name =
    let lower = map lower_unit name in
    equal lower (codes "password") || equal lower (codes "otp") || equal lower (codes "totp")

abbrev field_view : Text × Value → FieldView
field_view (name, plain text) = record {
  name = name;
  value = text;
  is_protected = is_secret_name name;
}
field_view (name, protected text) = record { name = name; value = text; is_protected = true }

pub record VersionView : Type 0 where
  pub fields : List FieldView
  pub attachments : List Text

-- `getEntryHistoryVersion`, at an index that is a natural number.
unfoldable pub get_entry_history_version : Text → ℕ → Database → Result Thrown VersionView
unfolding find_entry
get_entry_history_version uuid index db =
    elim (get_elem? (elim (find_entry uuid db.entries) [ none ↦ [] | some e ↦ e.history ]) index) [
      | none ↦ throw (other_error (codes "This entry version is no longer available."))
      | some v ↦
          ok (record { fields = map field_view v.fields; attachments = map (λ b. b.0) v.binaries })
    ]
