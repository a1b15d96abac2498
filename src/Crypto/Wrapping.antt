-- ===== src/Crypto/Wrapping.antt =====
-- The envelope around the vault key opens with the secret that it was made with.
use kypassword_server.Base.{ℕ, Text, All, Option, ◌≡◌, ok}
use kypassword_server.Crypto.{
  Bytes, IsByte, bytes_to_hex, legacy, envelope_argon2id, legacy_iterations, Primitives, IsSound,
  wrap_vault_key, unwrap_vault_key,
}
use kypassword_server.Crypto.Hex.{hex_to_bytes-bytes_to_hex}

module _ (p : Primitives) (sound : IsSound p) where
  -- If AES-GCM decryption undoes encryption and parsing undoes printing (`IsSound`): for every vault key
  -- and secret, and whatever bytes are drawn as salt and nonce, unwrapping what was wrapped gives the key: the parameters, the salt and the nonce survive the text of the envelope.
  pub unwrap_vault_key-wrap_vault_key :
      (key : Bytes) (secret : Text) (salt iv : Bytes)
      → All IsByte key
      → All IsByte salt
      → All IsByte iv
      → unwrap_vault_key p (wrap_vault_key p key secret salt iv) secret ≡ ok key
  unfolding unwrap_vault_key wrap_vault_key
  unwrap_vault_key-wrap_vault_key key secret salt iv hk hs hi =
      let cipher = p.encrypt (p.derive_argon2id secret salt envelope_argon2id) iv key in
      rw (
        sound.parse-stringify,
        hex_to_bytes-bytes_to_hex salt hs,
        hex_to_bytes-bytes_to_hex iv hi,
        hex_to_bytes-bytes_to_hex cipher (sound.encrypt-bytes _ iv key hk),
        sound.decrypt-encrypt,
      )

  -- Under `IsSound`, an envelope of bytes without `kdf`, as older clients write it, opens with the key derived by PBKDF2, with
  -- 600000 iterations where the envelope names none or 0.
  pub unwrap_vault_key-legacy :
      (key : Bytes) (secret : Text) (salt iv : Bytes) (n : Option ℕ)
      → All IsByte key
      → All IsByte salt
      → All IsByte iv
      → let cipher = p.encrypt (p.derive_pbkdf2 secret salt (legacy_iterations n)) iv key in
        let text = p.stringify (record {
          kdf = legacy n;
          salt = bytes_to_hex salt;
          iv = bytes_to_hex iv;
          ciphertext = bytes_to_hex cipher;
        }) in
        unwrap_vault_key p text secret ≡ ok key
  unfolding unwrap_vault_key
  unwrap_vault_key-legacy key secret salt iv n hk hs hi =
      let cipher = p.encrypt (p.derive_pbkdf2 secret salt (legacy_iterations n)) iv key in
      rw (
        sound.parse-stringify,
        hex_to_bytes-bytes_to_hex salt hs,
        hex_to_bytes-bytes_to_hex iv hi,
        hex_to_bytes-bytes_to_hex cipher (sound.encrypt-bytes _ iv key hk),
        sound.decrypt-encrypt,
      )
