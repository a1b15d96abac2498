-- ===== src/Vault/Recover.antt =====
-- `recoverEntryCopy` of frontend/src/lib/kdbx.ts: the copy of an entry of another vault, with the custom
-- icons of both vaults.
pub mod Icons
pub mod Rounds
pub mod Copies
use kypassword_server.Base.{
  ℕ, suc, Text, codes, is_empty, or_else, Bool, true, false, not, ◌||◌, Option, none, some, List,
  [], ◌∷◌, ◌++◌, if◌then◌else◌, Result, ok, throw,
}
use kypassword_server.Api.{Thrown, other_error}
use kypassword_server.Crypto.{Bytes}
use kypassword_server.Vault.{Value, plain, protected, Entry, find_entry, has_group, is_live}
use kypassword_server.Vault.Fields.{get_key, set_key, entry_field_text}
use kypassword_server.Vault.Listing.{Database, Library, recycled_group_ids, group_uuid}
use kypassword_server.Vault.Update.{title_key}

-- A state of the copied entry, with its custom icon's id.
pub record Item : Type 0 where
  pub fields : List (Text × Value)
  pub custom_icon : Option Text

pub record Copy : Type 0 where
  pub uuid : Text
  pub current : Item
  pub history : List Item

-- A vault's database and `meta.customIcons`.
pub record Stored : Type 0 where
  pub db : Database
  pub icons : List (Text × Bytes)

-- `db.importEntry(entry, destination, source.db)`, which gives the copy and adds it to the database, and
-- the ids that `KdbxUuid.random()` gives in turn.
pub record Imports : Type 0 where
  pub import_entry : Entry → Text → Stored → Stored → Copy × Stored
  pub random : ℕ → Text

-- The state of the loop over the copy's states: `importedIcons`, the custom icons, and the number of
-- ids drawn.
pub record IconState : Type 0 where
  pub imported : List (Text × Text)
  pub icons : List (Text × Bytes)
  pub drawn : ℕ

abbrev pub has_key : Text → List (Text × Bytes) → Bool
has_key k m = elim (get_key k m) [ none ↦ false | some _ ↦ true ]

abbrev pub has_title : Option Value → Bool
has_title none = false
has_title (some (plain t)) = false
has_title (some (protected t)) = true

-- The title of the copy of an entry with these fields.
unfoldable pub recovered_title : List (Text × Value) → Value
unfolding entry_field_text get_key
recovered_title fields =
    let title =
      or_else (entry_field_text fields title_key) (codes "Untitled") ++ codes " (recovered)" in
    if has_title (get_key title_key fields) then protected title else plain title

-- The last loop: `customIcons.set(id, icon)` of every icon that was there.
unfoldable pub set_icons : List (Text × Bytes) → List (Text × Bytes) → List (Text × Bytes)
unfolding set_key
set_icons [] icons = icons
set_icons ((id, icon) ∷ existing) icons = set_icons existing (set_key id icon icons)

module _ (random : ℕ → Text) (existing source : List (Text × Bytes)) where
  -- The new id of a source's icon.
  unfoldable pub new_id : Text → Bytes → IconState → Text × IconState
  unfolding get_key set_key
  new_id id icon s = elim (get_key id s.imported) [
    | some n ↦ (n, s)
    | none ↦ (
      random s.drawn,
      record {
        imported = set_key id (random s.drawn) s.imported;
        icons = set_key (random s.drawn) icon s.icons;
        drawn = suc s.drawn;
      },
    )
  ]

  -- One round of the loop.
  unfoldable pub re_identify : Item → IconState → Item × IconState
  unfolding new_id get_key
  re_identify item s = elim item.custom_icon [
    | none ↦ (item, s)
    | some id ↦
        if is_empty id || not (has_key id existing) then (item, s) else elim (get_key id source) [
          | none ↦ (item, s)
          | some icon ↦
              (record item { custom_icon = some ((new_id id icon s).0) }, (new_id id icon s).1)
        ]
  ]

  unfoldable pub re_identify_all : List Item → IconState → List Item × IconState
  unfolding re_identify
  re_identify_all [] s = ([], s)
  re_identify_all (item ∷ items) s =
      let r = re_identify item s in let rest = re_identify_all items r.1 in (r.0 ∷ rest.0, rest.1)

-- What `recoverEntryCopy` leaves: the vault with the entry that `importEntry` added, and that entry.
pub record Recovered : Type 0 where
  pub vault : Stored
  pub copy : Copy

module _ (lib : Library) (k : Imports) where
  unfoldable pub copy_entry : Stored → Entry → Stored → Recovered
  unfolding re_identify re_identify_all set_icons set_key recovered_title
  copy_entry source entry this =
      let imported = k.import_entry entry (group_uuid this.db.root) source this in
      let copy = imported.0 in
      let start : IconState = record { imported = []; icons = imported.1.icons; drawn = 0 } in
      let current = re_identify k.random this.icons source.icons copy.current start in
      let rest = re_identify_all k.random this.icons source.icons copy.history current.1 in
      record {
        vault = record { db = imported.1.db; icons = set_icons this.icons rest.1.icons };
        copy = record {
          uuid = copy.uuid;
          current = record {
            fields = set_key title_key (recovered_title entry.current.fields) current.0.fields;
            custom_icon = current.0.custom_icon;
          };
          history = rest.0;
        };
      }

  unfoldable pub recover_entry_copy : Stored → Text → Stored → Result Thrown (Text × Recovered)
  unfolding find_entry recycled_group_ids copy_entry
  recover_entry_copy source uuid this = elim (find_entry uuid source.db.entries) [
    | none ↦ throw (other_error (codes "Select a live entry from the conflict."))
    | some entry ↦
        if is_live (recycled_group_ids lib source.db) entry
        then if has_group (recycled_group_ids lib this.db) (group_uuid this.db.root)
          then throw (other_error (codes "No live vault folder is available."))
          else ok ((copy_entry source entry this).copy.uuid, copy_entry source entry this)
        else throw (other_error (codes "Select a live entry from the conflict."))
  ]
