-- ===== src/Vault/Update.antt =====
-- `updateEntry` of frontend/src/lib/kdbx.ts. `move` stands for kdbxweb's `move` of an entry into a
-- group, on the entries in the order of `allEntries`.
pub mod Texts
pub mod Again
pub mod Refines
use kypassword_server.Base.{
  Text, codes, equal, is_empty, or_else, Bool, true, false, not, ◌&&◌, ◌||◌, Option, none, some,
  List, ◌≡◌, if◌then◌else◌,
}
use kypassword_server.Vault.{
  Value, plain, protected, Version, Entry, Meta, Kdbxweb, find_entry, change_entry,
}
use kypassword_server.Vault.Fields.{get_key, set_key, delete_key, entry_field_text}
use kypassword_server.Vault.History.{push_entry_history}
use kypassword_server.Vault.Groups.{Group, find_group}

-- What the editor hands over, a `VaultEntry`; a missing one-time-password secret is the empty text.
pub record VaultEntry : Type 0 where
  pub uuid : Text
  pub title : Text
  pub username : Text
  pub password : Text
  pub url : Text
  pub notes : Text
  pub totp_seed : Text
  pub group_uuid : Text

abbrev pub Map : Type 0
Map = List (Text × Value)

abbrev pub title_key : Text
title_key = codes "Title"

abbrev pub username_key : Text
username_key = codes "UserName"

abbrev pub password_key : Text
password_key = codes "Password"

abbrev pub url_key : Text
url_key = codes "URL"

abbrev pub notes_key : Text
notes_key = codes "Notes"

abbrev pub otp_key : Text
otp_key = codes "otp"

abbrev pub totp_key : Text
totp_key = codes "TOTP"

-- `entryFieldText(e, "otp") || entryFieldText(e, "TOTP")`.
abbrev pub otp_text : Map → Text
otp_text fields = or_else (entry_field_text fields otp_key) (entry_field_text fields totp_key)

abbrev pub has_key : Text → Map → Bool
has_key name fields = elim (get_key name fields) [ none ↦ false | some _ ↦ true ]

abbrev pub is_protected : Option Value → Bool
is_protected (some (protected _)) = true
is_protected _ = false

-- `setField`.
unfoldable pub set_field : Text → Text → Map → Map
unfolding equal get_key set_key
set_field name value fields =
    set_key name
      (if equal name password_key || is_protected (get_key name fields)
        then protected value
        else plain value)
      fields

unfoldable pub update_totp : Text → Map → Map
unfolding set_field delete_key get_key
update_totp seed fields =
    if is_empty seed
    then delete_key totp_key (delete_key otp_key fields)
    else set_field
        (if has_key otp_key fields || not (has_key totp_key fields) then otp_key else totp_key) seed
        fields

unfoldable pub update_fields : VaultEntry → Map → Map
unfolding set_field update_totp
update_fields f fields = update_totp f.totp_seed (
    set_field notes_key f.notes (
      set_field url_key f.url (
        set_field password_key f.password
          (set_field username_key f.username (set_field title_key f.title fields)))))

-- The six comparisons of fields.
unfoldable pub same_fields : VaultEntry → Map → Bool
unfolding equal entry_field_text
same_fields f fields =
    equal (entry_field_text fields title_key) f.title
    && equal (entry_field_text fields username_key) f.username
    && equal (entry_field_text fields password_key) f.password
    && equal (entry_field_text fields url_key) f.url
    && equal (entry_field_text fields notes_key) f.notes
    && equal (otp_text fields) f.totp_seed

unfoldable pub in_group : Text → Option Text → Bool
unfolding equal
in_group g none = false
in_group g (some p) = equal p g

unfoldable pub is_unchanged : VaultEntry → Entry → Bool
unfolding same_fields in_group
is_unchanged f e =
    same_fields f e.current.fields && (is_empty f.group_uuid || in_group f.group_uuid e.parent)

module _ (k : Kdbxweb) (move : Text → Text → List Entry → List Entry) where
  unfoldable pub edited : Meta → VaultEntry → Entry → Entry
  unfolding push_entry_history update_fields
  edited m f e = record (push_entry_history k m e) {
    current = record e.current { fields = update_fields f e.current.fields };
  }

  -- The move into the group of the editor, if it is another one and there is one.
  unfoldable pub move_to : Group → VaultEntry → Entry → List Entry → List Entry
  unfolding in_group find_group
  move_to root f e es =
      if is_empty f.group_uuid || in_group f.group_uuid e.parent
      then es
      else elim (find_group f.group_uuid root) [ none ↦ es | some _ ↦ move f.uuid f.group_uuid es ]

  -- `e.times.update()`.
  unfoldable pub touch_entry : Text → Option Entry → List Entry → List Entry
  unfolding change_entry
  touch_entry uuid none es = es
  touch_entry uuid (some e) es = change_entry uuid (record e { current = k.touch e.current }) es

  unfoldable pub update_found :
      Meta → Group → VaultEntry → Option Entry → List Entry → List Entry × Bool
  unfolding is_unchanged edited move_to touch_entry find_entry change_entry
  update_found m root f none es = (es, false)
  update_found m root f (some e) es =
      let moved = move_to root f e (change_entry f.uuid (edited m f e) es) in
      if is_unchanged f e
      then (es, false)
      else (touch_entry f.uuid (find_entry f.uuid moved) moved, true)

  -- `updateEntry`: the entries after it, and its result.
  unfoldable pub update_entry : Meta → Group → VaultEntry → List Entry → List Entry × Bool
  unfolding update_found find_entry
  update_entry m root f es = update_found m root f (find_entry f.uuid es) es
