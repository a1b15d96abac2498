-- ===== src/Storage.antt =====
-- frontend/src/lib/storage.ts, the device database of vault keys, and the store of locked drafts of
-- frontend/src/lib/lockedDraft.ts. IndexedDB is taken to keep rows by key; how a call of it ends is an
-- argument.
pub mod Keys
use kypassword_server.Base.{
  ℕ, suc, Text, Bool, Option, none, some, List, [], ◌∷◌, Result, ok, throw,
}
use kypassword_server.Api.{Thrown}
use kypassword_server.Draft.{LockedDraft}
use kypassword_server.Vault.Fields.{get_key, set_key, delete_key}

pub record DeviceKey : Type 0 where
  pub username : Text
  pub key_hex : Text
  pub updated_at : Text

-- A database with the number of its connections that were opened and not closed.
pub record Idb (V : Type 0) : Type 0 where
  pub rows : List (Text × V)
  pub connections : ℕ

-- How opening the database and the request on it end.
pub data Outcome : Type 0 where
  succeeds : Outcome
  open_fails request_fails : Thrown → Outcome

-- `openDatabase`, a request, and `db.close()`, which a failed request skips.
unfoldable pub with_database :
    {V A : Type 0}
    → Outcome
    → (List (Text × V) → List (Text × V) × A)
    → Idb V
    → Idb V × Result Thrown A
with_database succeeds request db =
    let r = request db.rows in (record { rows = r.0; connections = db.connections }, ok r.1)
with_database (open_fails e) request db = (db, throw e)
with_database (request_fails e) request db =
    (record { rows = db.rows; connections = suc db.connections }, throw e)

unfoldable pub store_device_vault_key :
    Outcome → Text → Text → Text → Idb DeviceKey → Idb DeviceKey × Result Thrown (Unit {0})
unfolding with_database set_key
store_device_vault_key o username key_hex now db =
    with_database o
      (λ rows. (
        set_key username (record { username = username; key_hex = key_hex; updated_at = now }) rows,
        tt,
      ))
      db

abbrev hex_of : Option DeviceKey → Option Text
hex_of none = none
hex_of (some k) = some k.key_hex

unfoldable pub get_device_vault_key :
    Outcome → Text → Idb DeviceKey → Idb DeviceKey × Result Thrown (Option Text)
unfolding with_database get_key
get_device_vault_key o username db =
    with_database o (λ rows. (rows, hex_of (get_key username rows))) db

unfoldable pub clear_device_vault_key :
    Outcome → Text → Idb DeviceKey → Idb DeviceKey × Result Thrown (Unit {0})
unfolding with_database delete_key
clear_device_vault_key o username db = with_database o (λ rows. (delete_key username rows, tt)) db

unfoldable pub clear_all_device_vault_keys :
    Outcome → Idb DeviceKey → Idb DeviceKey × Result Thrown (Unit {0})
unfolding with_database
clear_all_device_vault_keys o db = with_database o (λ rows. ([], tt)) db

pub data Operation : Type 0 where
  get delete : Operation
  put : LockedDraft → Operation

abbrev draft_request :
    Text → Operation → List (Text × LockedDraft) → List (Text × LockedDraft) × Option LockedDraft
draft_request id get rows = (rows, get_key id rows)
draft_request id delete rows = (delete_key id rows, none)
draft_request id (put d) rows = (set_key id d rows, none)

-- `draftStore`, which closes the database in any case.
unfoldable pub draft_store :
    Outcome
    → Text
    → Operation
    → Idb LockedDraft
    → Idb LockedDraft × Result Thrown (Option LockedDraft)
unfolding get_key set_key delete_key
draft_store succeeds id operation db =
    let r = draft_request id operation db.rows in
    (record { rows = r.0; connections = db.connections }, ok r.1)
draft_store (open_fails e) id operation db = (db, throw e)
draft_store (request_fails e) id operation db = (db, throw e)
