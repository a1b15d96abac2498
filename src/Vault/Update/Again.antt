-- ===== src/Vault/Update/Again.antt =====
-- An edit that was taken over reads back, so that handing it over again changes nothing.
use kypassword_server.Base.{
  Text, equal, equal_refl, is_empty, true, false, ◌||◌, Option, none, some, List, [], ◌∷◌, ◌≡◌, ◌⊎◌,
  inl, inr, refl, arith, Bool-cases, Option-cases,
}
use kypassword_server.Vault.{
  Entry, Meta, Kdbxweb, IsSound, find_entry, change_entry, find_entry-uuid, find_entry-change_entry,
}
use kypassword_server.Vault.History.{push_entry_history-uuid, push_entry_history-parent}
use kypassword_server.Vault.Groups.{Group, find_group}
use kypassword_server.Vault.Update.{
  Map, VaultEntry, update_fields, in_group, is_unchanged, edited, move_to, touch_entry,
  update_found, update_entry,
}
use kypassword_server.Vault.Update.Texts.{same_fields-update_fields}

-- What the client relies on when kdbxweb moves an entry: it stays findable, with its fields, and
-- stands in the group.
abbrev pub IsMove : (Text → Text → List Entry → List Entry) → Type 0
IsMove move =
    (uuid g : Text) (es : List Entry) (e : Entry)
    → find_entry uuid es ≡ some e
    → (e' : Entry) × (find_entry uuid (move uuid g es) ≡ some e')
      × (e'.parent ≡ some g)
      × (e'.current.fields ≡ e.current.fields)

-- The group that the editor names, if any, is one of the vault.
abbrev pub HasTarget : Group → VaultEntry → Type 0
HasTarget root f =
    (is_empty f.group_uuid ≡ true) ⊎ ((g : Group) × (find_group f.group_uuid root ≡ some g))

module _ {k : Kdbxweb} (sound : IsSound k) (move : Text → Text → List Entry → List Entry)
    (is_move : IsMove move) where
  pub update_entry_unchanged :
      (m : Meta) (root : Group) (f : VaultEntry) (es : List Entry) (e : Entry)
      → find_entry f.uuid es ≡ some e
      → is_unchanged f e ≡ true
      → update_entry k move m root f es ≡ (es, false)
  unfolding update_entry update_found
  update_entry_unchanged m root f es e found same = rw (found, same)

  pub update_entry_found :
      (m : Meta) (root : Group) (f : VaultEntry) (es : List Entry) (e : Entry)
      → find_entry f.uuid es ≡ some e
      → update_entry k move m root f es ≡ update_found k move m root f (some e) es
  unfolding update_entry
  update_entry_found m root f es e found = rw (found)

  -- The entry is found after the move, in the editor's group.
  abbrev Moved : VaultEntry → Entry → List Entry → Type 0
  Moved f e es =
      (e' : Entry) × (find_entry f.uuid es ≡ some e')
      × ((is_empty f.group_uuid || in_group f.group_uuid e'.parent) ≡ true)
      × (e'.current.fields ≡ e.current.fields)

  in_own_group : (g : Text) (p : Option Text) → p ≡ some g → (is_empty g || in_group g p) ≡ true
  unfolding in_group
  in_own_group [] p h = refl
  in_own_group (c ∷ g) p h = rw (h) (equal_refl (c ∷ g))

  enter_group-Moved :
      (root : Group) (f : VaultEntry) (new : Entry) (es : List Entry)
      → HasTarget root f
      → is_empty f.group_uuid ≡ false
      → find_entry f.uuid es ≡ some new
      → Moved f new
          (elim (find_group f.group_uuid root) [ none ↦ es | some _ ↦ move f.uuid f.group_uuid es ])
  enter_group-Moved root f new es (inl empty) there found = cc
  enter_group-Moved root f new es (inr (g, there_is)) there found =
      let moved = is_move f.uuid f.group_uuid es new found in
      rw (there_is) (moved.0, moved.1, in_own_group f.group_uuid moved.0.parent moved.2, moved.3)

  move_to-Moved :
      (root : Group) (f : VaultEntry) (e new : Entry) (es : List Entry)
      → HasTarget root f
      → find_entry f.uuid es ≡ some new
      → new.parent ≡ e.parent
      → Moved f new (move_to k move root f e es)
  unfolding move_to
  move_to-Moved root f e new es target found parent =
      elim (Bool-cases (is_empty f.group_uuid || in_group f.group_uuid e.parent)) [
        | inl here ↦ rw (here) (new, found, rw (parent) here, refl)
        | inr there ↦ rw (there) (enter_group-Moved root f new es target (ground arith) found)
      ]

  pub edited-uuid : (m : Meta) (f : VaultEntry) (e : Entry) → (edited k move m f e).uuid ≡ e.uuid
  unfolding edited
  edited-uuid m f e = push_entry_history-uuid k m e

  edited-parent : (m : Meta) (f : VaultEntry) (e : Entry) → (edited k move m f e).parent ≡ e.parent
  unfolding edited
  edited-parent m f e = push_entry_history-parent k m e

  edited-fields :
      (m : Meta) (f : VaultEntry) (e : Entry)
      → (edited k move m f e).current.fields ≡ update_fields f e.current.fields
  unfolding edited
  edited-fields m f e = refl

  -- An entry with the editor's fields, in the editor's group.
  is_unchanged-update_fields :
      (f : VaultEntry) (new : Entry) (fs : Map)
      → new.current.fields ≡ update_fields f fs
      → (is_empty f.group_uuid || in_group f.group_uuid new.parent) ≡ true
      → is_unchanged f new ≡ true
  unfolding is_unchanged
  is_unchanged-update_fields f new fs h there = rw (h, same_fields-update_fields f fs) there

  -- What `updateEntry` leaves of an entry that it changed is unchanged to a second call.
  pub update_found-again :
      (m : Meta) (root : Group) (f : VaultEntry) (es : List Entry) (e : Entry)
      → HasTarget root f
      → find_entry f.uuid es ≡ some e
      → is_unchanged f e ≡ false
      → (new : Entry) × (find_entry f.uuid (update_found k move m root f (some e) es).0 ≡ some new)
        × (is_unchanged f new ≡ true)
  unfolding update_found touch_entry
  update_found-again m root f es e target found same =
      let changed = edited k move m f e in
      let named : equal changed.uuid f.uuid ≡ true =
        rw (edited-uuid m f e) (find_entry-uuid f.uuid es found) in
      let placed = find_entry-change_entry f.uuid changed es found named in
      let moved =
        move_to-Moved root f e changed (change_entry f.uuid changed es) target placed
          (edited-parent m f e) in
      let new = record moved.0 { current = k.touch moved.0.current } in
      (
        new,
        rw (same, moved.1)
            (find_entry-change_entry f.uuid new _ moved.1 (find_entry-uuid f.uuid _ moved.1)),
        is_unchanged-update_fields f new e.current.fields
            (rw (sound.touch-fields moved.0.current, moved.3) (edited-fields m f e)) moved.2,
      )

  -- Under the laws of kdbxweb (`IsSound`, `IsMove`), if the editor names no folder or one that exists,
  -- handing over the same edit a second time is refused as no change, and
  -- leaves all entries as they are, whether the first call found the entry or changed it.
  pub update_entry_again :
      (m : Meta) (root : Group) (f : VaultEntry) (es : List Entry)
      → HasTarget root f
      → update_entry k move m root f (update_entry k move m root f es).0
        ≡ ((update_entry k move m root f es).0, false)
  update_entry_again m root f es target = elim (Option-cases (find_entry f.uuid es)) [
    | inl missing ↦ unfold update_entry update_found in rw (missing, missing)
    | inr (e, found) ↦ elim (Bool-cases (is_unchanged f e)) [
      | inl same ↦ let first = update_entry_unchanged m root f es e found same in rw (first, first)
      | inr different ↦
          let again = update_found-again m root f es e target found different in
          rw (update_entry_found m root f es e found)
            (update_entry_unchanged m root f _ again.0 again.1 again.2)
    ]
  ]
