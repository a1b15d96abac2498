-- ===== src/Vault/Operations/Created.antt =====
-- A new entry reads as it was created.
use kypassword_server.Base.{
  ◌∷◌, Text, equal, is_empty, false, none, some, ◌≡◌, refl, Bool-cases, inl, inr, or_else, ◌∙◌, ap,
  equal_iff,
}
use kypassword_server.Vault.{
  true, [], Value, plain, protected, Entry, find_entry, Kdbxweb, find_entry-uuid,
}
use kypassword_server.Vault.Fields.{
  get_key, set_key, value_text, entry_field_text, get_key-set_key, get_key-set_key_other,
}
use kypassword_server.Vault.Listing.{Database, entry_view, Library}
use kypassword_server.Vault.Update.{
  VaultEntry, Map, title_key, username_key, password_key, url_key, notes_key, otp_key, totp_key,
  otp_text,
}
use kypassword_server.Vault.Operations.{
  Changes, new_fields, create_entry, target_group, change_fields, find_entry-change_found,
}

-- What the client relies on when kdbxweb creates an entry: it can be found, in its group, and has no
-- one-time-password secret.
abbrev pub IsCreation : Changes → Type 0
IsCreation ch =
    (g : Text) (db : Database)
    → (e : Entry) × (find_entry (ch.create_entry g db).1 (ch.create_entry g db).0.entries ≡ some e)
      × (e.parent ≡ some g)
      × (get_key otp_key e.current.fields ≡ none)
      × (get_key totp_key e.current.fields ≡ none)

text-set_key :
    (n : Text) (v : Value) (fs : Map) → entry_field_text (set_key n v fs) n ≡ value_text (some v)
unfolding entry_field_text
text-set_key n v fs = rw (get_key-set_key n v fs)

text-set_key_other :
    (n l : Text) (v : Value) (fs : Map)
    → equal l n ≡ false
    → entry_field_text (set_key l v fs) n ≡ entry_field_text fs n
unfolding entry_field_text
text-set_key_other n l v fs h = rw (get_key-set_key_other n l v fs h)

no_text : (n : Text) (fs : Map) → get_key n fs ≡ none → entry_field_text fs n ≡ []
unfolding entry_field_text value_text
no_text n fs h = rw (h)

empty_nil : (t : Text) → is_empty t ≡ true → t ≡ []
empty_nil [] h = refl
empty_nil (c ∷ t) h = cc

or_else_nonempty : (a b : Text) → is_empty a ≡ false → or_else a b ≡ a
or_else_nonempty [] b h = cc
or_else_nonempty (c ∷ a) b h = refl

module _ (v : VaultEntry) (fs : Map) where
  abbrev basic : Map
  basic = set_key notes_key (plain v.notes) (
      set_key url_key (plain v.url) (
        set_key password_key (protected v.password)
          (set_key username_key (plain v.username) (set_key title_key (plain v.title) fs))))

  text-new_fields :
      (n : Text)
      → equal otp_key n ≡ false
      → entry_field_text (new_fields v fs) n ≡ entry_field_text basic n
  unfolding new_fields
  text-new_fields n h = elim (Bool-cases (is_empty v.totp_seed)) [
    | inl y ↦ rw (y)
    | inr f ↦ rw (f, text-set_key_other n otp_key (plain v.totp_seed) basic h)
  ]

  title-new_fields : entry_field_text (new_fields v fs) title_key ≡ v.title
  unfolding value_text
  title-new_fields = rw (
    text-new_fields title_key (unfold equal in refl),
    text-set_key_other title_key notes_key (plain v.notes) _ (unfold equal in refl),
    text-set_key_other title_key url_key (plain v.url) _ (unfold equal in refl),
    text-set_key_other title_key password_key (protected v.password) _ (unfold equal in refl),
    text-set_key_other title_key username_key (plain v.username) _ (unfold equal in refl),
    text-set_key title_key (plain v.title) _,
  )

  username-new_fields : entry_field_text (new_fields v fs) username_key ≡ v.username
  unfolding value_text
  username-new_fields = rw (
    text-new_fields username_key (unfold equal in refl),
    text-set_key_other username_key notes_key (plain v.notes) _ (unfold equal in refl),
    text-set_key_other username_key url_key (plain v.url) _ (unfold equal in refl),
    text-set_key_other username_key password_key (protected v.password) _ (unfold equal in refl),
    text-set_key username_key (plain v.username) _,
  )

  password-new_fields : entry_field_text (new_fields v fs) password_key ≡ v.password
  unfolding value_text
  password-new_fields = rw (
    text-new_fields password_key (unfold equal in refl),
    text-set_key_other password_key notes_key (plain v.notes) _ (unfold equal in refl),
    text-set_key_other password_key url_key (plain v.url) _ (unfold equal in refl),
    text-set_key password_key (protected v.password) _,
  )

  url-new_fields : entry_field_text (new_fields v fs) url_key ≡ v.url
  unfolding value_text
  url-new_fields = rw (
    text-new_fields url_key (unfold equal in refl),
    text-set_key_other url_key notes_key (plain v.notes) _ (unfold equal in refl),
    text-set_key url_key (plain v.url) _,
  )

  notes-new_fields : entry_field_text (new_fields v fs) notes_key ≡ v.notes
  unfolding value_text
  notes-new_fields =
      rw
        (text-new_fields notes_key (unfold equal in refl), text-set_key notes_key (plain v.notes) _)

  basic_other :
      (n : Text)
      → equal title_key n ≡ false
      → equal username_key n ≡ false
      → equal password_key n ≡ false
      → equal url_key n ≡ false
      → equal notes_key n ≡ false
      → entry_field_text basic n ≡ entry_field_text fs n
  basic_other n a b c d e = rw (
    text-set_key_other n notes_key (plain v.notes) _ e,
    text-set_key_other n url_key (plain v.url) _ d,
    text-set_key_other n password_key (protected v.password) _ c,
    text-set_key_other n username_key (plain v.username) _ b,
    text-set_key_other n title_key (plain v.title) fs a,
  )

  otp-new_fields :
      get_key otp_key fs ≡ none
      → get_key totp_key fs ≡ none
      → otp_text (new_fields v fs) ≡ v.totp_seed
  unfolding new_fields
  otp-new_fields ho ht = elim (Bool-cases (is_empty v.totp_seed)) [
    | inl y ↦ rw (
      y,
      basic_other otp_key (unfold equal in refl) (unfold equal in refl) (unfold equal in refl)
          (unfold equal in refl) (unfold equal in refl),
      basic_other totp_key (unfold equal in refl) (unfold equal in refl) (unfold equal in refl)
          (unfold equal in refl) (unfold equal in refl),
      no_text otp_key fs ho,
      no_text totp_key fs ht,
      empty_nil v.totp_seed y,
    )
    | inr f ↦
        rw (f, text-set_key otp_key (plain v.totp_seed) basic)
          (unfold value_text in or_else_nonempty v.totp_seed _ f)
  ]

  entry_view-new_fields :
      (e : Entry) (g : Text)
      → e.current.fields ≡ fs
      → e.parent ≡ some g
      → get_key otp_key fs ≡ none
      → get_key totp_key fs ≡ none
      → entry_view (change_fields (new_fields v) e) ≡ record v { uuid = e.uuid; group_uuid = g }
  unfolding entry_view change_fields
  entry_view-new_fields e g hf hg ho ht = rw (
    hf,
    hg,
    title-new_fields,
    username-new_fields,
    password-new_fields,
    url-new_fields,
    notes-new_fields,
    otp-new_fields ho ht,
  )

-- Under the law of `IsCreation`, the entry that `create_entry` answers with is what the list shows of
-- the entry found under its id: the texts it was created with, in the folder that was asked for or,
-- where there is none, in the default one.
pub create_entry-entry_view :
    (k : Kdbxweb) (lib : Library) (ch : Changes)
    → IsCreation ch
    → (v : VaultEntry) (db : Database)
    → let after = create_entry k lib ch v db in
      (e : Entry) × (find_entry after.1.uuid after.0.entries ≡ some e)
      × (entry_view e ≡ after.1)
      × (after.1 ≡ record v { uuid = after.1.uuid; group_uuid = target_group v.group_uuid db.root })
unfolding create_entry
create_entry-entry_view k lib ch law v db =
    let made = law (target_group v.group_uuid db.root) db in
    let created = ch.create_entry (target_group v.group_uuid db.root) db in
    let same_id = find_entry-uuid created.1 created.0.entries made.1 in
    let new = change_fields (new_fields v) made.0 in
    (
      new,
      find_entry-change_found (change_fields (new_fields v)) created.1 created.0 made.0 made.1
          (unfold change_fields in same_id),
      entry_view-new_fields v made.0.current.fields made.0 (target_group v.group_uuid db.root) refl
            made.2 made.3 made.4
          ∙ ap (λ u. record v { uuid = u; group_uuid = target_group v.group_uuid db.root })
              ((equal_iff _ _).0 same_id),
      refl,
    )
