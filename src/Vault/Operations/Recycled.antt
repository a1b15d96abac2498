-- ===== src/Vault/Operations/Recycled.antt =====
-- The way into the recycle bin and back.
use kypassword_server.Base.{Text, true, false, some, ◌≡◌, ok, throw, ◌∙◌, ◌⊎◌, inl, inr, Bool-cases}
use kypassword_server.Vault.{Entry, Kdbxweb, IsSound, find_entry, find_entry-uuid, has_group}
use kypassword_server.Vault.Listing.{Database, Library, group_uuid, recycled_group_ids}
use kypassword_server.Vault.Operations.{
  Changes, in_groups, recycling_enabled, delete_entry, delete_found, restore_entry, restore_found,
  touch_found, find_entry-change_found, change_found, no_live_folder,
}

-- What the client relies on when kdbxweb removes an entry while there is a recycle bin: the entry
-- stays, with its fields and attachments, in a group of the bin.
abbrev pub IsRecycling : Library → Changes → Type 0
IsRecycling lib ch =
    (uuid : Text) (db : Database) (e : Entry)
    → find_entry uuid db.entries ≡ some e
    → let d = ch.remove uuid (ch.create_recycle_bin db) in
      (e' : Entry) × (find_entry uuid d.entries ≡ some e')
      × (in_groups (recycled_group_ids lib d) e'.parent ≡ true)
      × (e'.current.fields ≡ e.current.fields)
      × (e'.current.binaries ≡ e.current.binaries)

-- What it relies on when kdbxweb moves an entry: the entry stays, with its fields and attachments, and is
-- in the group that it was moved to.
abbrev pub IsMoving : Library → Changes → Type 0
IsMoving lib ch =
    (uuid g : Text) (db : Database) (e : Entry)
    → find_entry uuid db.entries ≡ some e
    → (e' : Entry) × (find_entry uuid (ch.move uuid g db).entries ≡ some e')
      × (e'.parent ≡ some g)
      × (e'.current.fields ≡ e.current.fields)
      × (e'.current.binaries ≡ e.current.binaries)

module _ (k : Kdbxweb) (sound : IsSound k) (lib : Library) (ch : Changes) where
  -- An entry that is back in the default group as it was.
  pub record IsBack (old : Entry) (db after : Database) (uuid : Text) : Type 0 where
    pub entry : Entry
    pub found : find_entry uuid after.entries ≡ some entry
    pub parent : entry.parent ≡ some (group_uuid db.root)
    pub fields : entry.current.fields ≡ old.current.fields
    pub binaries : entry.current.binaries ≡ old.current.binaries

  delete_entry-eq-remove :
      (uuid : Text) (db : Database) (e : Entry)
      → find_entry uuid db.entries ≡ some e
      → in_groups (recycled_group_ids lib db) e.parent ≡ false
      → recycling_enabled db ≡ true
      → delete_entry k lib ch uuid db ≡ ch.remove uuid (ch.create_recycle_bin db)
  unfolding delete_entry delete_found
  delete_entry-eq-remove uuid db e found live enabled = rw (found, live, enabled)

  delete_recycled :
      (uuid : Text) (db : Database) (e : Entry)
      → find_entry uuid db.entries ≡ some e
      → in_groups (recycled_group_ids lib db) e.parent ≡ true
      → delete_entry k lib ch uuid db ≡ db
  unfolding delete_entry delete_found
  delete_recycled uuid db e found recycled = rw (found, recycled)

  restore_recycled :
      IsMoving lib ch
      → (uuid : Text) (db : Database) (e : Entry) → find_entry uuid db.entries ≡ some e
      → in_groups (recycled_group_ids lib db) e.parent ≡ true
      → has_group (recycled_group_ids lib db) (group_uuid db.root) ≡ false
      → (after : Database) × (restore_entry k lib ch uuid db ≡ ok after) × IsBack e db after uuid
  unfolding restore_entry restore_found touch_found
  restore_recycled moving uuid db e found recycled live =
      let moved = moving uuid (group_uuid db.root) db e found in
      let d = ch.move uuid (group_uuid db.root) db in
      let f = λ (x : Entry). record x { current = k.touch x.current } in
      (
        change_found f uuid (find_entry uuid d.entries) d,
        rw (found, recycled, live),
        record {
          entry = f moved.0;
          found =
              find_entry-change_found f uuid d moved.0 moved.1
                (find_entry-uuid uuid d.entries moved.1);
          parent = moved.2;
          fields = sound.touch-fields moved.0.current ∙ moved.3;
          binaries = sound.touch-binaries moved.0.current ∙ moved.4;
        },
      )

  restore_stuck :
      (uuid : Text) (db : Database) (e : Entry)
      → find_entry uuid db.entries ≡ some e
      → in_groups (recycled_group_ids lib db) e.parent ≡ true
      → has_group (recycled_group_ids lib db) (group_uuid db.root) ≡ true
      → restore_entry k lib ch uuid db ≡ throw no_live_folder
  unfolding restore_entry restore_found
  restore_stuck uuid db e found recycled stuck = rw (found, recycled, stuck)

  -- Under the laws of kdbxweb (`IsSound`, `IsRecycling`, `IsMoving`), with recycling enabled, for a live
  -- entry that is deleted: deleting it a second time changes nothing. If the default group is
  -- itself in the recycle bin then, restoring the entry throws that no live folder is available;
  -- otherwise it succeeds and the entry has its fields and attachments, in the default group.
  pub restore_entry-delete_entry :
      IsRecycling lib ch
      → IsMoving lib ch
      → (uuid : Text) (db : Database) (e : Entry) → find_entry uuid db.entries ≡ some e
      → in_groups (recycled_group_ids lib db) e.parent ≡ false
      → recycling_enabled db ≡ true
      → let deleted = delete_entry k lib ch uuid db in
        let stuck = has_group (recycled_group_ids lib deleted) (group_uuid deleted.root) in
        (delete_entry k lib ch uuid deleted ≡ deleted)
        × (((stuck ≡ true) × (restore_entry k lib ch uuid deleted ≡ throw no_live_folder))
            ⊎ ((stuck ≡ false)
                × ((after : Database) × (restore_entry k lib ch uuid deleted ≡ ok after)
                    × IsBack e deleted after uuid)))
  restore_entry-delete_entry recycling moving uuid db e found live enabled =
      let removed = recycling uuid db e found in
      let d = ch.remove uuid (ch.create_recycle_bin db) in
      rw (delete_entry-eq-remove uuid db e found live enabled) (
        delete_recycled uuid d removed.0 removed.1 removed.2,
        elim (Bool-cases (has_group (recycled_group_ids lib d) (group_uuid d.root))) [
          | inl stuck ↦ inl (stuck, restore_stuck uuid d removed.0 removed.1 removed.2 stuck)
          | inr free ↦
              let back = restore_recycled moving uuid d removed.0 removed.1 removed.2 free in
              inr (
                free,
                (
                  back.0,
                  back.1,
                  record {
                    entry = back.2.entry;
                    found = back.2.found;
                    parent = back.2.parent;
                    fields = back.2.fields ∙ removed.3;
                    binaries = back.2.binaries ∙ removed.4;
                  },
                ),
              )
        ],
      )
