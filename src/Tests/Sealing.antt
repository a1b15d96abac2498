-- ===== src/Tests/Sealing.antt =====
-- Envelopes, checkpoints and hexadecimal text at concrete inputs.
use kypassword_server.Base.{
  ℕ, ◌≤◌, ◌+◌, codes, length, drop, take, true, some, [], ◌∷◌, ◌≡◌, arith, ok,
}
use kypassword_server.Crypto.{Bytes, bytes_to_hex, hex_to_bytes, wrap_vault_key, unwrap_vault_key}
use kypassword_server.Crypto.Hex.{hex_to_bytes-bytes_to_hex}
use kypassword_server.Crypto.Wrapping.{unwrap_vault_key-wrap_vault_key}
use kypassword_server.Draft.{
  DraftMetadata, LockedDraft, seal_draft, open_draft, get_uint32, parse_metadata,
}
use kypassword_server.Draft.Frame.{IsVersion, open_draft-seal_draft, open_draft-IsVersion}
use kypassword_server.Tests.Codecs.{
  plain_primitives, plain_primitives-IsSound, bound_primitives, bound_primitives-IsSound,
}

hex_to_bytes-bytes_to_hex_example :
    hex_to_bytes (bytes_to_hex (0 ∷ 171 ∷ 255 ∷ [])) ≡ 0 ∷ 171 ∷ 255 ∷ []
hex_to_bytes-bytes_to_hex_example = hex_to_bytes-bytes_to_hex (0 ∷ 171 ∷ 255 ∷ []) (omega arith)

abbrev key : Bytes
key = 7 ∷ 200 ∷ 31 ∷ []

unwrap_vault_key-wrap_vault_key_example :
    unwrap_vault_key plain_primitives
      (wrap_vault_key plain_primitives key (codes "secret") (1 ∷ 2 ∷ []) (3 ∷ []))
      (codes "secret")
    ≡ ok key
unwrap_vault_key-wrap_vault_key_example =
    unwrap_vault_key-wrap_vault_key plain_primitives plain_primitives-IsSound key (codes "secret")
      (1 ∷ 2 ∷ []) (3 ∷ []) (omega arith) (omega arith) (omega arith)

abbrev metadata : DraftMetadata
metadata = record {
  version = 4;
  dirty = true;
  entry = some (record {
    uuid = codes "id";
    title = codes "Mail";
    username = codes "me";
    password = codes "pw";
    url = [];
    notes = [];
    totp_seed = [];
    group_uuid = codes "g";
  });
}

open_draft-seal_draft_example :
    open_draft bound_primitives
      (seal_draft bound_primitives (9 ∷ 8 ∷ []) metadata key (codes "ann") (5 ∷ []))
      key
      (codes "ann")
    ≡ ok (9 ∷ 8 ∷ [], metadata)
open_draft-seal_draft_example =
    open_draft-seal_draft bound_primitives bound_primitives-IsSound (9 ∷ 8 ∷ []) key (5 ∷ [])
      metadata (codes "ann") (omega arith) (omega arith)

abbrev sealed : LockedDraft
sealed = seal_draft bound_primitives (9 ∷ 8 ∷ []) metadata key (codes "ann") (5 ∷ [])

open_draft-IsVersion_example :
    IsVersion 4
    × ((plain : Bytes) × (n : ℕ) × (bound_primitives.decrypt key sealed.iv
            (codes "ann")
            sealed.ciphertext
          ≡ ok plain)
        × (get_uint32 bound_primitives.range_error plain ≡ ok n)
        × (n + 4 ≤ length plain)
        × (parse_metadata bound_primitives (take n (drop 4 plain)) ≡ ok metadata)
        × (9 ∷ 8 ∷ [] ≡ drop (4 + n) plain))
open_draft-IsVersion_example =
    open_draft-IsVersion bound_primitives sealed key (codes "ann") (9 ∷ 8 ∷ []) metadata
      open_draft-seal_draft_example
