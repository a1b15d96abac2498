-- ===== src/Tests/Storing.antt =====
-- The device database at concrete inputs.
use kypassword_server.Base.{Text, codes, equal, some, none, [], ◌∷◌, ◌≡◌, ok, refl, arith}
use kypassword_server.Crypto.{Bytes, bytes_to_hex, hex_to_bytes}
use kypassword_server.Storage.{
  Idb, DeviceKey, succeeds, store_device_vault_key, get_device_vault_key, clear_device_vault_key,
}
use kypassword_server.Storage.Keys.{get_device_vault_key-store_device_vault_key}

abbrev keys : Idb DeviceKey
keys = record {
  rows =
      (codes "bob", record { username = codes "bob"; key_hex = codes "00"; updated_at = codes "t" })
      ∷ [];
  connections = 0;
}

abbrev key : Bytes
key = 7 ∷ 200 ∷ []

get_device_vault_key-store_device_vault_key_example :
    let stored =
      (store_device_vault_key succeeds (codes "ann") (bytes_to_hex key) (codes "u") keys).0 in
    let cleared = (clear_device_vault_key succeeds (codes "ann") stored).0 in
    ((h : Text) × ((get_device_vault_key succeeds (codes "ann") stored).1 ≡ ok (some h))
      × (hex_to_bytes h ≡ key))
    × ((get_device_vault_key succeeds (codes "bob") stored).1
        ≡ (get_device_vault_key succeeds (codes "bob") keys).1)
    × ((get_device_vault_key succeeds (codes "ann") cleared).1 ≡ ok none)
    × ((get_device_vault_key succeeds (codes "bob") cleared).1
        ≡ (get_device_vault_key succeeds (codes "bob") keys).1)
get_device_vault_key-store_device_vault_key_example =
    get_device_vault_key-store_device_vault_key keys (codes "ann") (codes "bob") (codes "u") key
      (omega arith) (unfold equal in refl)
