-- ===== src/Draft.antt =====
-- frontend/src/lib/lockedDraft.ts: the encrypted checkpoint of unsaved edits. AES-GCM with additional
-- data, and the UTF-8 text of a JSON value, are the parameters of `Primitives`.
pub mod Frame
use kypassword_server.Base.{
  ℕ, ◌+◌, ◌*◌, ◌/◌, ◌%◌, ◌^◌, ◌≡◌, Text, codes, is_empty, length, take, drop, Bool, true, false,
  Option, none, some, List, [], ◌∷◌, ◌++◌, if◌then◌else◌, leb, ltb, Result, ok, throw, ◌>>=◌,
}
use kypassword_server.Crypto.{Bytes}
use kypassword_server.Api.{Thrown, other_error, no_error}
use kypassword_server.Json.{
  Json, null, boolean, number, natural, string, object, Fields, no_fields, field, member,
  safe_natural, as_boolean, as_string,
}

pub record EntryDraft : Type 0 where
  pub uuid : Text
  pub title : Text
  pub username : Text
  pub password : Text
  pub url : Text
  pub notes : Text
  pub totp_seed : Text
  pub group_uuid : Text

pub record DraftMetadata : Type 0 where
  pub version : ℕ
  pub dirty : Bool
  pub entry : Option EntryDraft

pub record LockedDraft : Type 0 where
  pub iv : Bytes
  pub ciphertext : Bytes

-- The value that `JSON.stringify` prints.
unfoldable pub entry_json : Option EntryDraft → Json
entry_json none = null
entry_json (some e) = object (
    field (codes "uuid") (string e.uuid) (
      field (codes "title") (string e.title) (
        field (codes "username") (string e.username) (
          field (codes "password") (string e.password) (
            field (codes "url") (string e.url) (
              field (codes "notes") (string e.notes) (
                field (codes "totpSeed") (string e.totp_seed)
                  (field (codes "groupUuid") (string e.group_uuid) no_fields))))))))

unfoldable pub metadata_json : DraftMetadata → Json
unfolding entry_json
metadata_json m = object (
    field (codes "version") (number (natural m.version)) (
      field (codes "dirty") (boolean m.dirty)
        (field (codes "entry") (entry_json m.entry) no_fields)))

pub record Primitives : Type 0 where
  -- AES-GCM under a key and a nonce, bound to an account
  pub encrypt : Bytes → Bytes → Text → Bytes → Bytes
  pub decrypt : Bytes → Bytes → Text → Bytes → Result Thrown Bytes
  -- the UTF-8 text that `JSON.stringify` gives
  pub print : DraftMetadata → Bytes
  pub parse : Bytes → Result Thrown Json
  -- the `RangeError` of `DataView.getUint32`
  pub range_error : Thrown

pub record IsSound (p : Primitives) : Type 0 where
  pub decrypt-encrypt :
      (k iv : Bytes) (account : Text) (m : Bytes)
      → p.decrypt k iv account (p.encrypt k iv account m) ≡ ok m
  pub parse-print : (m : DraftMetadata) → p.parse (p.print m) ≡ ok (metadata_json m)

-- `DataView.setUint32(0, n)`.
unfoldable pub set_uint32 : ℕ → Bytes
set_uint32 n = n / 16777216 % 256 ∷ n / 65536 % 256 ∷ n / 256 % 256 ∷ n % 256 ∷ []

-- `DataView.getUint32(0)`, which throws where fewer than four bytes are.
unfoldable pub get_uint32 : Thrown → Bytes → Result Thrown ℕ
get_uint32 range_error (a ∷ b ∷ c ∷ d ∷ _) = ok (a * 16777216 + b * 65536 + c * 256 + d)
get_uint32 range_error _ = throw range_error

unfoldable pub plain_text : Bytes → Bytes → Bytes
unfolding set_uint32
plain_text json binary = set_uint32 (length json) ++ (json ++ binary)

unfoldable pub seal_draft : Primitives → Bytes → DraftMetadata → Bytes → Text → Bytes → LockedDraft
unfolding plain_text
seal_draft p binary metadata key account iv = record {
  iv = iv;
  ciphertext = p.encrypt key iv account (plain_text (p.print metadata) binary);
}

abbrev pub invalid : Thrown
invalid = other_error (codes "Invalid recovery copy")

-- A field that has to be there, with a value of the wanted kind.
abbrev pub require : {A : Type 0} → (Json → Option A) → Text → Json → Result Thrown A
require read k j = elim (member k j) [
  | none ↦ throw invalid
  | some v ↦ elim (read v) [ none ↦ throw invalid | some a ↦ ok a ]
]

-- `isEntryDraft`, with the value that it lets through.
read_entry : Json → Result Thrown (Option EntryDraft)
read_entry null = ok none
read_entry j = do
  uuid ← require as_string (codes "uuid") j
  title ← require as_string (codes "title") j
  username ← require as_string (codes "username") j
  password ← require as_string (codes "password") j
  url ← require as_string (codes "url") j
  notes ← require as_string (codes "notes") j
  totp_seed ← require as_string (codes "totpSeed") j
  group_uuid ← require as_string (codes "groupUuid") j
  ok (
      some (record {
        uuid = uuid;
        title = title;
        username = username;
        password = password;
        url = url;
        notes = notes;
        totp_seed = totp_seed;
        group_uuid = group_uuid;
      }))

positive_version : ℕ → Result Thrown ℕ
positive_version v = if ltb v 1 then throw invalid else ok v

unfoldable pub read_metadata : Json → Result Thrown DraftMetadata
unfolding read_entry positive_version
read_metadata j = do
  v ← require safe_natural (codes "version") j
  version ← positive_version v
  dirty ← require as_boolean (codes "dirty") j
  e ← require (λ v. some v) (codes "entry") j
  entry ← read_entry e
  ok (record { version = version; dirty = dirty; entry = entry })

pub parse_metadata : Primitives → Bytes → Result Thrown DraftMetadata
unfolding read_metadata
parse_metadata p json = do j ← p.parse json; read_metadata j

with_metadata : Bytes → Result Thrown DraftMetadata → Result Thrown (Bytes × DraftMetadata)
with_metadata binary (ok metadata) = ok (binary, metadata)
with_metadata binary (throw e) = throw e

open_frame : Primitives → Bytes → ℕ → Result Thrown (Bytes × DraftMetadata)
unfolding parse_metadata with_metadata
open_frame p plain n =
    if ltb (length plain) (n + 4)
    then throw invalid
    else with_metadata (drop (4 + n) plain) (parse_metadata p (take n (drop 4 plain)))

-- `openDraft` behind the decryption. The test `length > plain.byteLength - 4` has no sign to lose: at
-- least four bytes are there.
unfoldable pub open_plain : Primitives → Bytes → Result Thrown (Bytes × DraftMetadata)
unfolding get_uint32 open_frame
open_plain p plain = do n ← get_uint32 p.range_error plain; open_frame p plain n

unfoldable pub open_draft :
    Primitives → LockedDraft → Bytes → Text → Result Thrown (Bytes × DraftMetadata)
unfolding open_plain
open_draft p draft key account = do
  plain ← p.decrypt key draft.iv account draft.ciphertext
  open_plain p plain

-- What `readDraft` tells its caller.
pub data Read : Type 0 where
  available : Option LockedDraft → Read
  unavailable : Read

abbrev is_id : Option Text → Option Text
is_id none = none
is_id (some id) = if is_empty id then none else some id

-- `get` is `draftStore(id, "get")`; its rejection is not passed on.
unfoldable pub read_draft : (Text → Result Thrown (Option LockedDraft)) → Option Text → Read
read_draft get id = elim (is_id id) [
  | none ↦ available none
  | some i ↦ elim (get i) [ ok d ↦ available d | throw _ ↦ unavailable ]
]

-- `delete` is `draftStore(id, "delete")`.
unfoldable pub remove_draft : (Text → Result Thrown (Unit {0})) → Option Text → Bool
remove_draft delete id = elim (is_id id) [
  | none ↦ true
  | some i ↦ elim (delete i) [ ok _ ↦ true | throw _ ↦ false ]
]
