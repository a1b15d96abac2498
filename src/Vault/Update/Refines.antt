-- ===== src/Vault/Update/Refines.antt =====
-- `updateEntry` of frontend/src/lib/kdbx.ts against a map from the ids of entries to their six texts.
use kypassword_server.Base.{
  Text, equal, equal_iff, is_empty, Bool, true, false, ◌||◌, ◌&&◌, Option, none, some, List, [],
  ◌∷◌, ◌≡◌, inl, inr, refl, sym, ap, ◌∙◌, arith, Bool-cases, Option-cases, if◌then◌else◌,
}
use kypassword_server.Vault.{
  Entry, Meta, Kdbxweb, IsSound, find_entry, change_entry, find_entry-uuid,
}
use kypassword_server.Vault.Fields.{entry_field_text}
use kypassword_server.Vault.Groups.{Group, find_group}
use kypassword_server.Vault.Update.{
  Map, VaultEntry, in_group, is_unchanged, same_fields, edited, move_to, touch_entry, update_found,
  update_entry, title_key, username_key, password_key, url_key, notes_key, otp_text,
}
use kypassword_server.Vault.Update.Again.{
  IsMove, HasTarget, update_found-again, update_entry_unchanged, update_entry_found, edited-uuid,
}

-- The texts that the client shows of an entry.
pub record Texts : Type 0 where
  pub title : Text
  pub username : Text
  pub password : Text
  pub url : Text
  pub notes : Text
  pub totp_seed : Text

abbrev pub texts_of : Map → Texts
texts_of fields = record {
  title = entry_field_text fields title_key;
  username = entry_field_text fields username_key;
  password = entry_field_text fields password_key;
  url = entry_field_text fields url_key;
  notes = entry_field_text fields notes_key;
  totp_seed = otp_text fields;
}

abbrev pub editor_texts : VaultEntry → Texts
editor_texts f = record {
  title = f.title;
  username = f.username;
  password = f.password;
  url = f.url;
  notes = f.notes;
  totp_seed = f.totp_seed;
}

abbrev pub found_texts : Option Entry → Option Texts
found_texts none = none
found_texts (some e) = some (texts_of e.current.fields)

-- The map that the entries stand for.
abbrev pub texts_at : List Entry → Text → Option Texts
texts_at es uuid = found_texts (find_entry uuid es)

abbrev pub replaced : Option Texts → Texts → Option Texts
replaced none t = none
replaced (some _) t = some t

-- The map after the texts of an id that is there are replaced.
abbrev pub replace : Text → Texts → (Text → Option Texts) → Text → Option Texts
replace uuid t m u = if equal uuid u then replaced (m uuid) t else m u

-- What the client relies on of the other entries when kdbxweb moves one.
abbrev pub KeepsOthers : (Text → Text → List Entry → List Entry) → Type 0
KeepsOthers move =
    (uuid g u : Text) (es : List Entry)
    → equal uuid u ≡ false
    → find_entry u (move uuid g es) ≡ find_entry u es

and_split : (a b : Bool) → (a && b) ≡ true → (a ≡ true) × (b ≡ true)
and_split true b h = (refl, h)
and_split false b h = absurd (ground (arith, h))

six_split :
    (a b c d e f : Bool)
    → (a && b && c && d && e && f) ≡ true
    → (a ≡ true) × ((b ≡ true) × ((c ≡ true) × ((d ≡ true) × ((e ≡ true) × (f ≡ true)))))
six_split a b c d e f h =
    let p = and_split (a && b && c && d && e) f h in
    let q = and_split (a && b && c && d) e p.0 in
    let r = and_split (a && b && c) d q.0 in
    let s = and_split (a && b) c r.0 in
    let t = and_split a b s.0 in (t.0, (t.1, (s.1, (r.1, (q.1, p.1)))))

texts_eq :
    (s t : Texts)
    → s.title ≡ t.title
    → s.username ≡ t.username
    → s.password ≡ t.password
    → s.url ≡ t.url
    → s.notes ≡ t.notes
    → s.totp_seed ≡ t.totp_seed
    → s ≡ t
texts_eq s t a b c d e f = rw (a, b, c, d, e, f)

same_fields-texts_of :
    (f : VaultEntry) (fields : Map) → same_fields f fields ≡ true → texts_of fields ≡ editor_texts f
unfolding same_fields
same_fields-texts_of f fields h =
    let x = entry_field_text fields in
    let all =
      six_split (equal (x title_key) f.title) (equal (x username_key) f.username)
        (equal (x password_key) f.password) (equal (x url_key) f.url) (equal (x notes_key) f.notes)
        (equal (otp_text fields) f.totp_seed) h in
    texts_eq (texts_of fields) (editor_texts f) ((equal_iff (x title_key) f.title).0 all.0)
      ((equal_iff (x username_key) f.username).0 all.1.0)
      ((equal_iff (x password_key) f.password).0 all.1.1.0)
      ((equal_iff (x url_key) f.url).0 all.1.1.1.0)
      ((equal_iff (x notes_key) f.notes).0 all.1.1.1.1.0)
      ((equal_iff (otp_text fields) f.totp_seed).0 all.1.1.1.1.1)

pub find_entry-change_entry_other :
    (uuid u : Text) (new : Entry) (es : List Entry)
    → equal new.uuid u ≡ false
    → equal uuid u ≡ false
    → find_entry u (change_entry uuid new es) ≡ find_entry u es
unfolding find_entry change_entry
find_entry-change_entry_other uuid u new [] n d = refl
find_entry-change_entry_other uuid u new (e ∷ es) n d = elim (Bool-cases (equal e.uuid uuid)) [
  | inl t ↦ rw (t, n, (equal_iff e.uuid uuid).0 t, d)
  | inr f ↦ rw (f, find_entry-change_entry_other uuid u new es n d)
]

module _ {k : Kdbxweb} (sound : IsSound k) (move : Text → Text → List Entry → List Entry)
    (is_move : IsMove move) (keeps : KeepsOthers move) where
  move_to-other :
      (root : Group) (f : VaultEntry) (e : Entry) (u : Text) (es : List Entry)
      → equal f.uuid u ≡ false
      → find_entry u (move_to k move root f e es) ≡ find_entry u es
  unfolding move_to
  move_to-other root f e u es d =
      elim (Bool-cases (is_empty f.group_uuid || in_group f.group_uuid e.parent)) [
        | inl here ↦ rw (here)
        | inr there ↦ elim (Option-cases (find_group f.group_uuid root)) [
          | inl gone ↦ rw (there, gone)
          | inr (g, there_is) ↦ rw (there, there_is) (keeps f.uuid f.group_uuid u es d)
        ]
      ]

  touch_entry-other :
      (uuid u : Text) (o : Option Entry) (es : List Entry)
      → find_entry uuid es ≡ o
      → equal uuid u ≡ false
      → find_entry u (touch_entry k move uuid o es) ≡ find_entry u es
  unfolding touch_entry
  touch_entry-other uuid u none es found d = refl
  touch_entry-other uuid u (some e) es found d =
      find_entry-change_entry_other uuid u (record e { current = k.touch e.current }) es
        (rw ((equal_iff e.uuid uuid).0 (find_entry-uuid uuid es found)) d) d

  update_found-other :
      (m : Meta) (root : Group) (f : VaultEntry) (es : List Entry) (e : Entry) (u : Text)
      → find_entry f.uuid es ≡ some e
      → is_unchanged f e ≡ false
      → equal f.uuid u ≡ false
      → find_entry u (update_found k move m root f (some e) es).0 ≡ find_entry u es
  unfolding update_found
  update_found-other m root f es e u found same d =
      let changed = edited k move m f e in
      let named : equal changed.uuid u ≡ false =
        rw
          (
            edited-uuid sound move is_move m f e,
            (equal_iff e.uuid f.uuid).0 (find_entry-uuid f.uuid es found),
          )
          d in
      let after = change_entry f.uuid changed es in
      rw (same) (
        touch_entry-other f.uuid u (find_entry f.uuid (move_to k move root f e after))
          (move_to k move root f e after) refl d
        ∙ (move_to-other root f e u after d
            ∙ find_entry-change_entry_other f.uuid u changed es named d))

  update_entry_missing :
      (m : Meta) (root : Group) (f : VaultEntry) (es : List Entry)
      → find_entry f.uuid es ≡ none
      → update_entry k move m root f es ≡ (es, false)
  unfolding update_entry update_found
  update_entry_missing m root f es missing = rw (missing)

  is_unchanged-texts :
      (f : VaultEntry) (e : Entry)
      → is_unchanged f e ≡ true
      → texts_of e.current.fields ≡ editor_texts f
  unfolding is_unchanged
  is_unchanged-texts f e h = same_fields-texts_of f e.current.fields (
      (and_split (same_fields f e.current.fields)
        (is_empty f.group_uuid || in_group f.group_uuid e.parent) h).0)

  update_entry-own :
      (m : Meta) (root : Group) (f : VaultEntry) (es : List Entry)
      → HasTarget root f
      → texts_at (update_entry k move m root f es).0 f.uuid
        ≡ replaced (texts_at es f.uuid) (editor_texts f)
  update_entry-own m root f es target = elim (Option-cases (find_entry f.uuid es)) [
    | inl missing ↦ rw (update_entry_missing m root f es missing, missing)
    | inr (e, found) ↦ elim (Bool-cases (is_unchanged f e)) [
      | inl same ↦
          rw (update_entry_unchanged sound move is_move m root f es e found same, found)
            (ap some (is_unchanged-texts f e same))
      | inr different ↦
          let again = update_found-again sound move is_move m root f es e target found different in
          rw (update_entry_found sound move is_move m root f es e found, again.1, found)
            (ap some (is_unchanged-texts f again.0 again.2))
    ]
  ]

  update_entry-other :
      (m : Meta) (root : Group) (f : VaultEntry) (es : List Entry) (u : Text)
      → equal f.uuid u ≡ false
      → find_entry u (update_entry k move m root f es).0 ≡ find_entry u es
  update_entry-other m root f es u d = elim (Option-cases (find_entry f.uuid es)) [
    | inl missing ↦ rw (update_entry_missing m root f es missing)
    | inr (e, found) ↦ elim (Bool-cases (is_unchanged f e)) [
      | inl same ↦ rw (update_entry_unchanged sound move is_move m root f es e found same)
      | inr different ↦
          rw (update_entry_found sound move is_move m root f es e found)
            (update_found-other m root f es e u found different d)
    ]
  ]

  -- Under the laws of kdbxweb (`IsSound`, `IsMove`, `KeepsOthers`), if the editor names no folder or one
  -- that exists, the texts of all entries after the call are those of the map in which the texts of the
  -- editor replaced the ones of its entry, where there is one: no other entry's texts change.
  pub update_entry-Refines :
      (m : Meta) (root : Group) (f : VaultEntry) (es : List Entry)
      → HasTarget root f
      → (u : Text)
      → texts_at (update_entry k move m root f es).0 u
        ≡ replace f.uuid (editor_texts f) (texts_at es) u
  update_entry-Refines m root f es target u = elim (Bool-cases (equal f.uuid u)) [
    | inl own ↦ rw (own, sym ((equal_iff f.uuid u).0 own)) (update_entry-own m root f es target)
    | inr d ↦ rw (d) (ap found_texts (update_entry-other m root f es u d))
  ]
