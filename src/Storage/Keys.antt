-- ===== src/Storage/Keys.antt =====
-- The vault key in the device database (frontend/src/lib/storage.ts), as frontend/src/App.tsx stores and
-- reads it.
use kypassword_server.Base.{Text, equal, false, none, some, All, ◌≡◌, ok}
use kypassword_server.Crypto.{Bytes, IsByte, bytes_to_hex, hex_to_bytes}
use kypassword_server.Crypto.Hex.{hex_to_bytes-bytes_to_hex}
use kypassword_server.Storage.{
  with_database, Idb, DeviceKey, succeeds, store_device_vault_key, get_device_vault_key,
  clear_device_vault_key,
}
use kypassword_server.Vault.Fields.{
  set_key, get_key-set_key, get_key-set_key_other, get_key-delete_key, get_key-delete_key_other,
}

-- Where the database works: a vault key that was stored for a user as hexadecimal text is read back as the
-- same bytes, what is stored for another user is left as it was, and once it is cleared nothing is
-- read for the user, and still the same for another one.
pub get_device_vault_key-store_device_vault_key :
    (db : Idb DeviceKey) (username other now : Text) (key : Bytes)
    → All IsByte key
    → equal username other ≡ false
    → let stored = (store_device_vault_key succeeds username (bytes_to_hex key) now db).0 in
      let cleared = (clear_device_vault_key succeeds username stored).0 in
      ((h : Text) × ((get_device_vault_key succeeds username stored).1 ≡ ok (some h))
        × (hex_to_bytes h ≡ key))
      × ((get_device_vault_key succeeds other stored).1
          ≡ (get_device_vault_key succeeds other db).1)
      × ((get_device_vault_key succeeds username cleared).1 ≡ ok none)
      × ((get_device_vault_key succeeds other cleared).1
          ≡ (get_device_vault_key succeeds other db).1)
unfolding store_device_vault_key get_device_vault_key clear_device_vault_key with_database
get_device_vault_key-store_device_vault_key db username other now key bytes differ =
    let row : DeviceKey = record {
      username = username;
      key_hex = bytes_to_hex key;
      updated_at = now;
    } in
    let stored = set_key username row db.rows in
    let kept = get_key-set_key_other other username row db.rows differ in
    (
      (
        bytes_to_hex key,
        rw (get_key-set_key username row db.rows),
        hex_to_bytes-bytes_to_hex key bytes,
      ),
      rw (kept),
      rw (get_key-delete_key username stored),
      rw (get_key-delete_key_other other username stored differ, kept),
    )
