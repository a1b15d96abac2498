-- ===== src/Vault/Update/Texts.antt =====
-- The texts of an updated entry are the editor's (frontend/src/lib/kdbx.ts, `updateEntry`).
use kypassword_server.Base.{
  Text, equal, equal_refl, Bool, true, false, not, ◌||◌, Option, none, some, [], ◌∷◌, ◌≡◌, inl, inr,
  refl, if◌then◌else◌, Bool-cases,
}
use kypassword_server.Vault.{Value, plain, protected}
use kypassword_server.Vault.Fields.{
  get_key, delete_key, value_text, entry_field_text, get_key-set_key, get_key-set_key_other,
  get_key-delete_key, get_key-delete_key_other,
}
use kypassword_server.Vault.Update.{
  Map, VaultEntry, title_key, username_key, password_key, url_key, notes_key, otp_key, totp_key,
  otp_text, has_key, set_field, update_totp, update_fields, same_fields,
}

value_text_if : (b : Bool) (v : Text) → value_text (some (if b then protected v else plain v)) ≡ v
unfolding value_text
value_text_if true v = refl
value_text_if false v = refl

field_text-set_field : (n v : Text) (fs : Map) → entry_field_text (set_field n v fs) n ≡ v
unfolding entry_field_text set_field
field_text-set_field n v fs = rw (get_key-set_key n _ fs, value_text_if _ v)

field_text-set_field_other :
    (n l v : Text) (fs : Map)
    → equal l n ≡ false
    → entry_field_text (set_field l v fs) n ≡ entry_field_text fs n
unfolding entry_field_text set_field
field_text-set_field_other n l v fs h = rw (get_key-set_key_other n l _ fs h)

field_text-delete_key : (n : Text) (fs : Map) → entry_field_text (delete_key n fs) n ≡ []
unfolding entry_field_text value_text
field_text-delete_key n fs = rw (get_key-delete_key n fs)

field_text-delete_key_other :
    (n l : Text) (fs : Map)
    → equal l n ≡ false
    → entry_field_text (delete_key l fs) n ≡ entry_field_text fs n
unfolding entry_field_text
field_text-delete_key_other n l fs h = rw (get_key-delete_key_other n l fs h)

-- A field that is no one-time-password secret.
field_text-update_totp :
    (n seed : Text) (fs : Map)
    → equal otp_key n ≡ false
    → equal totp_key n ≡ false
    → entry_field_text (update_totp seed fs) n ≡ entry_field_text fs n
unfolding update_totp
field_text-update_totp n [] fs o t = rw (
  field_text-delete_key_other n totp_key (delete_key otp_key fs) t,
  field_text-delete_key_other n otp_key fs o,
)
field_text-update_totp n (c ∷ s) fs o t =
    elim (Bool-cases (has_key otp_key fs || not (has_key totp_key fs))) [
      | inl y ↦ rw (y, field_text-set_field_other n otp_key (c ∷ s) fs o)
      | inr z ↦ rw (z, field_text-set_field_other n totp_key (c ∷ s) fs t)
    ]

absent : (o : Option Value) → (elim o [ none ↦ false | some _ ↦ true ]) ≡ false → o ≡ none
absent none h = refl
absent (some _) h = cc

otp_text-set_totp :
    (seed : Text) (fs : Map)
    → has_key otp_key fs ≡ false
    → otp_text (set_field totp_key seed fs) ≡ seed
otp_text-set_totp seed fs h =
    rw
      (
        field_text-set_field_other otp_key totp_key seed fs (unfold equal in refl),
        field_text-set_field totp_key seed fs,
      )
      (unfold entry_field_text value_text in rw (absent (get_key otp_key fs) h) refl)

otp_text-update_totp : (seed : Text) (fs : Map) → otp_text (update_totp seed fs) ≡ seed
unfolding update_totp
otp_text-update_totp [] fs = rw (
  field_text-delete_key totp_key (delete_key otp_key fs),
  field_text-delete_key_other otp_key totp_key (delete_key otp_key fs) (unfold equal in refl),
  field_text-delete_key otp_key fs,
)
otp_text-update_totp (c ∷ s) fs = elim (Bool-cases (has_key otp_key fs)) [
  | inl y ↦ rw (y, field_text-set_field otp_key (c ∷ s) fs)
  | inr n ↦ elim (Bool-cases (has_key totp_key fs)) [
    | inl t ↦ rw (n, t) (otp_text-set_totp (c ∷ s) fs n)
    | inr f ↦ rw (n, f, field_text-set_field otp_key (c ∷ s) fs)
  ]
]

module _ (f : VaultEntry) (fs : Map) where
  title-update_fields : entry_field_text (update_fields f fs) title_key ≡ f.title
  unfolding update_fields
  title-update_fields = rw (
    field_text-update_totp title_key f.totp_seed _ (unfold equal in refl) (unfold equal in refl),
    field_text-set_field_other title_key notes_key f.notes _ (unfold equal in refl),
    field_text-set_field_other title_key url_key f.url _ (unfold equal in refl),
    field_text-set_field_other title_key password_key f.password _ (unfold equal in refl),
    field_text-set_field_other title_key username_key f.username _ (unfold equal in refl),
    field_text-set_field title_key f.title _,
  )

  username-update_fields : entry_field_text (update_fields f fs) username_key ≡ f.username
  unfolding update_fields
  username-update_fields = rw (
    field_text-update_totp username_key f.totp_seed _ (unfold equal in refl) (unfold equal in refl),
    field_text-set_field_other username_key notes_key f.notes _ (unfold equal in refl),
    field_text-set_field_other username_key url_key f.url _ (unfold equal in refl),
    field_text-set_field_other username_key password_key f.password _ (unfold equal in refl),
    field_text-set_field username_key f.username _,
  )

  password-update_fields : entry_field_text (update_fields f fs) password_key ≡ f.password
  unfolding update_fields
  password-update_fields = rw (
    field_text-update_totp password_key f.totp_seed _ (unfold equal in refl) (unfold equal in refl),
    field_text-set_field_other password_key notes_key f.notes _ (unfold equal in refl),
    field_text-set_field_other password_key url_key f.url _ (unfold equal in refl),
    field_text-set_field password_key f.password _,
  )

  url-update_fields : entry_field_text (update_fields f fs) url_key ≡ f.url
  unfolding update_fields
  url-update_fields = rw (
    field_text-update_totp url_key f.totp_seed _ (unfold equal in refl) (unfold equal in refl),
    field_text-set_field_other url_key notes_key f.notes _ (unfold equal in refl),
    field_text-set_field url_key f.url _,
  )

  notes-update_fields : entry_field_text (update_fields f fs) notes_key ≡ f.notes
  unfolding update_fields
  notes-update_fields = rw (
    field_text-update_totp notes_key f.totp_seed _ (unfold equal in refl) (unfold equal in refl),
    field_text-set_field notes_key f.notes _,
  )

  otp-update_fields : otp_text (update_fields f fs) ≡ f.totp_seed
  unfolding update_fields
  otp-update_fields = otp_text-update_totp f.totp_seed (
      set_field notes_key f.notes (
        set_field url_key f.url (
          set_field password_key f.password
            (set_field username_key f.username (set_field title_key f.title fs)))))

  -- Each of the six texts of an updated entry is the editor's.
  pub same_fields-update_fields : same_fields f (update_fields f fs) ≡ true
  unfolding same_fields
  same_fields-update_fields =
      rw
        (
          title-update_fields,
          username-update_fields,
          password-update_fields,
          url-update_fields,
          notes-update_fields,
          otp-update_fields,
          equal_refl f.title,
          equal_refl f.username,
          equal_refl f.password,
          equal_refl f.url,
          equal_refl f.notes,
          equal_refl f.totp_seed,
        )
        refl
