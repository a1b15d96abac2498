-- ===== src/Vault/Recover/Copies.antt =====
-- `recoverEntryCopy` of frontend/src/lib/kdbx.ts keeps the icons of the open vault and of the copy.
use kypassword_server.Base.{All, Text, true, false, none, some, ◌≡◌, ok}
use kypassword_server.Crypto.{Bytes}
use kypassword_server.Vault.{[], Entry, find_entry, has_group, is_live}
use kypassword_server.Vault.Fields.{get_key}
use kypassword_server.Vault.Listing.{Library, recycled_group_ids, group_uuid}
use kypassword_server.Vault.Update.{title_key}
use kypassword_server.Vault.Recover.{recovered_title}
use mathlib.Core.Option.{none-ne-some}
use kypassword_server.Vault.Fields.{get_key-set_key}
use kypassword_server.Vault.Recover.{
  Stored, Imports, IconState, Recovered, copy_entry, recover_entry_copy, re_identify,
  re_identify_all,
}
use kypassword_server.Vault.Recover.Icons.{
  HasUniqueKeys, IsFresh, HasIcon, ShowsIcon, ShowIcons, set_icons-keeps,
}
use kypassword_server.Vault.Recover.Rounds.{
  re_identify-IsDone, re_identify_all-Settled, All-HasIcon, SettledItem-IsKept,
  SettledItem-ShowsIcon, SettledItems-ShowIcons,
}

-- `importEntry` adds the source's icons of all states of the copy.
pub record IsSound (k : Imports) : Type 0 where
  pub has_icons :
      (e : Entry) (d : Text) (source this : Stored)
      → HasIcon source.icons
          (k.import_entry e d source this).1.icons
          (k.import_entry e d source this).0.current
        × All
            (HasIcon source.icons (k.import_entry e d source this).1.icons)
            (k.import_entry e d source this).0.history

module _ (k : Imports) (lib : Library) (source this : Stored) (e : Entry) where
  copy_entry-keeps :
      HasUniqueKeys this.icons
      → (i : Text) (v : Bytes) → get_key i this.icons ≡ some v
      → get_key i (copy_entry lib k source e this).vault.icons ≡ some v
  unfolding copy_entry
  copy_entry-keeps unique i v h =
      let imported = k.import_entry e (group_uuid this.db.root) source this in
      let start : IconState = record { imported = []; icons = imported.1.icons; drawn = 0 } in
      let first = re_identify k.random this.icons source.icons imported.0.current start in
      set_icons-keeps i v this.icons
        (re_identify_all k.random this.icons source.icons imported.0.history first.1).1.icons unique
        h

  copy_entry-title :
      get_key title_key (copy_entry lib k source e this).copy.current.fields
      ≡ some (recovered_title e.current.fields)
  unfolding copy_entry
  copy_entry-title =
      let imported = k.import_entry e (group_uuid this.db.root) source this in
      let start : IconState = record { imported = []; icons = imported.1.icons; drawn = 0 } in
      let first = re_identify k.random this.icons source.icons imported.0.current start in
      get_key-set_key title_key (recovered_title e.current.fields) first.0.fields

recover_entry_copy-live :
    (k : Imports) (lib : Library) (source this : Stored) (uuid : Text) (e : Entry)
    → find_entry uuid source.db.entries ≡ some e
    → is_live (recycled_group_ids lib source.db) e ≡ true
    → has_group (recycled_group_ids lib this.db) (group_uuid this.db.root) ≡ false
    → recover_entry_copy lib k source uuid this
      ≡ ok ((copy_entry lib k source e this).copy.uuid, copy_entry lib k source e this)
unfolding recover_entry_copy
recover_entry_copy-live k lib source this uuid e found live there =
    rw (recover_entry_copy, found, live, there)

module _ (k : Imports) (sound : IsSound k) (lib : Library) where
  copy_entry-Shows :
      (source this : Stored) (e : Entry)
      → get_key [] source.icons ≡ none
      → IsFresh k.random this.icons source.icons
      → ShowsIcon source.icons
          (copy_entry lib k source e this).vault.icons
          (k.import_entry e (group_uuid this.db.root) source this).0.current
          (copy_entry lib k source e this).copy.current
        × ShowIcons source.icons
            (copy_entry lib k source e this).vault.icons
            (k.import_entry e (group_uuid this.db.root) source this).0.history
            (copy_entry lib k source e this).copy.history
  unfolding copy_entry
  copy_entry-Shows source this e ne fresh =
      let imported = k.import_entry e (group_uuid this.db.root) source this in
      let start : IconState = record { imported = []; icons = imported.1.icons; drawn = 0 } in
      let has = sound.has_icons e (group_uuid this.db.root) source this in
      let copy = imported.0 in
      let one =
        re_identify-IsDone k.random this.icons source.icons fresh copy.current.fields
          copy.current.custom_icon start ne (λ i n v h g. absurd (none-ne-some n h)) has.0 in
      let first = re_identify k.random this.icons source.icons copy.current start in
      let rest =
        re_identify_all-Settled k.random this.icons source.icons fresh copy.history first.1 ne
          one.1.1
          (All-HasIcon k.random this.icons source.icons fresh start first.1 copy.history one.1.0
            has.1) in
      let end = re_identify_all k.random this.icons source.icons copy.history first.1 in
      (
        SettledItem-ShowsIcon k.random this.icons source.icons fresh end.1 copy.current first.0 (
            SettledItem-IsKept k.random this.icons source.icons fresh first.1 end.1 copy.current
              first.0 rest.1 one.0),
        SettledItems-ShowIcons k.random this.icons source.icons fresh end.1 copy.history end.0
            rest.0,
      )

  -- Where `importEntry` adds the icons of what it copies (`IsSound`), the ids of the icons are different and
  -- not empty and the ids drawn are new (`IsFresh`): the recovery of a live entry of the source, with the
  -- top folder not in the recycle bin, gives the id of the copy; every icon of the open vault is what
  -- it was, the copy has the recovered title, and each of its states has the icon that the
  -- copied state has in the source.
  pub recover_entry_copy-Shows :
      (source this : Stored) (uuid : Text) (e : Entry)
      → find_entry uuid source.db.entries ≡ some e
      → is_live (recycled_group_ids lib source.db) e ≡ true
      → has_group (recycled_group_ids lib this.db) (group_uuid this.db.root) ≡ false
      → HasUniqueKeys this.icons
      → get_key [] source.icons ≡ none
      → IsFresh k.random this.icons source.icons
      → (r : Recovered) × (recover_entry_copy lib k source uuid this ≡ ok (r.copy.uuid, r))
        × ((i : Text) (v : Bytes)
            → get_key i this.icons ≡ some v
            → get_key i r.vault.icons ≡ some v)
        × (get_key title_key r.copy.current.fields ≡ some (recovered_title e.current.fields))
        × ShowsIcon source.icons r.vault.icons
            (k.import_entry e (group_uuid this.db.root) source this).0.current
            r.copy.current
        × ShowIcons source.icons r.vault.icons
            (k.import_entry e (group_uuid this.db.root) source this).0.history
            r.copy.history
  recover_entry_copy-Shows source this uuid e found live there unique ne fresh =
      let shown = copy_entry-Shows source this e ne fresh in
      (
        copy_entry lib k source e this,
        recover_entry_copy-live k lib source this uuid e found live there,
        copy_entry-keeps k lib source this e unique,
        copy_entry-title k lib source this e,
        shown.0,
        shown.1,
      )
