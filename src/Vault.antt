-- ===== src/Vault.antt =====
-- frontend/src/lib/kdbx.ts: an entry of the open KeePass database with its fields, attachments and
-- history, and the settings of the database that the client reads. kdbxweb's own operations on them
-- are the parameters of `Kdbxweb`.
pub mod Fields
pub mod History
pub mod Groups
pub mod FolderName
pub mod Listing
pub mod Operations
pub mod Attachments
pub mod Update
pub mod File
pub mod Recover
use kypassword_server.Base.{
  inr, inl, Bool-cases, arith, ℕ, Text, equal, Bool, true, false, Option, none, some, List, [], ◌∷◌,
  ◌++◌, ◌≡◌, drop, any, if◌then◌else◌,
}

-- A field: a string, or a `ProtectedValue` of a text.
pub data Value : Type 0 where
  plain : Text → Value
  protected : Text → Value

-- An attachment: shared by hash, or inline in its entry; with the number of its bytes.
pub data Binary : Type 0 where
  hashed : Text → ℕ → Binary
  inline : ℕ → Binary

-- The state of an entry that its history keeps.
pub record Version : Type 0 where
  pub fields : List (Text × Value)
  pub binaries : List (Text × Binary)
  pub custom_data : List (Text × Text)
  pub quality_check : Option Bool
  pub previous_parent : Option Text
  pub location_changed : Option ℕ
  pub last_modified : Option ℕ

pub record Entry : Type 0 where
  pub uuid : Text
  -- `parentGroup.uuid`
  pub parent : Option Text
  pub current : Version
  pub history : List Version

-- A limit in the database's settings: none, below 0, or a number.
pub data Limit : Type 0 where
  unset unlimited : Limit
  at_most : ℕ → Limit

pub record Meta : Type 0 where
  pub history_max_items : Limit
  pub history_max_size : Limit

-- What the client uses of kdbxweb on one entry.
pub record Kdbxweb : Type 0 where
  -- what `pushHistory` appends to the history
  pub snapshot : Version → Version
  -- `target.copyFrom(source)`
  pub copy_from : Version → Version → Version
  -- `times.update()`
  pub touch : Version → Version
  -- `removeHistory(0, n)`
  pub remove_history : ℕ → List Version → List Version

pub record IsSound (k : Kdbxweb) : Type 0 where
  pub snapshot-fields : (v : Version) → (k.snapshot v).fields ≡ v.fields
  pub snapshot-binaries : (v : Version) → (k.snapshot v).binaries ≡ v.binaries
  pub copy_from-fields : (t v : Version) → (k.copy_from t v).fields ≡ v.fields
  pub copy_from-binaries : (t v : Version) → (k.copy_from t v).binaries ≡ v.binaries
  pub touch-fields : (v : Version) → (k.touch v).fields ≡ v.fields
  pub touch-custom_data : (v : Version) → (k.touch v).custom_data ≡ v.custom_data
  pub touch-binaries : (v : Version) → (k.touch v).binaries ≡ v.binaries
  pub remove_history-drop : (n : ℕ) (vs : List Version) → k.remove_history n vs ≡ drop n vs

-- `findEntry`, over the entries in the order of `allEntries`.
unfoldable pub find_entry : Text → List Entry → Option Entry
unfolding equal
find_entry uuid [] = none
find_entry uuid (e ∷ es) = if equal e.uuid uuid then some e else find_entry uuid es

-- A change of the object that `findEntry` found.
unfoldable pub change_entry : Text → Entry → List Entry → List Entry
unfolding equal
change_entry uuid new [] = []
change_entry uuid new (e ∷ es) =
    if equal e.uuid uuid then new ∷ es else e ∷ change_entry uuid new es

-- `recycledGroupIds().has(entry.parentGroup.uuid.toString())` of an entry with a group.
abbrev pub has_group : List Text → Text → Bool
has_group groups g = any (λ h. equal h g) groups

abbrev pub is_live : List Text → Entry → Bool
is_live recycled e = elim e.parent [
  | none ↦ false
  | some g ↦ if has_group recycled g then false else true
]

pub find_entry-uuid :
    (uuid : Text) (es : List Entry) {e : Entry}
    → find_entry uuid es ≡ some e
    → equal e.uuid uuid ≡ true
unfolding find_entry
find_entry-uuid uuid [] h = cc
find_entry-uuid uuid (e ∷ es) h = elim (Bool-cases (equal e.uuid uuid)) [
  | inl t ↦ let found = rw (t) at h in cc
  | inr f ↦ find_entry-uuid uuid es (rw (f) at h)
]

pub find_entry-change_entry :
    (uuid : Text) (new : Entry) (es : List Entry) {e : Entry}
    → find_entry uuid es ≡ some e
    → equal new.uuid uuid ≡ true
    → find_entry uuid (change_entry uuid new es) ≡ some new
unfolding find_entry change_entry
find_entry-change_entry uuid new [] h n = cc
find_entry-change_entry uuid new (e ∷ es) h n = elim (Bool-cases (equal e.uuid uuid)) [
  | inl t ↦ rw (t, n)
  | inr f ↦ rw (f, f, find_entry-change_entry uuid new es (rw (f) at h) n)
]
