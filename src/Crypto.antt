-- ===== src/Crypto.antt =====
-- frontend/src/lib/vaultCrypto.ts: hexadecimal text of bytes, and the envelope around the vault key.
-- Argon2id (hash-wasm), PBKDF2, AES-GCM (Web Crypto) and the JSON text of an envelope are the
-- parameters of `Primitives`; random salts and nonces are arguments.
pub mod Hex
pub mod Wrapping
use kypassword_server.Base.{
  ℕ, ◌+◌, ◌-◌, ◌*◌, ◌/◌, ◌%◌, ◌<◌, ◌≡◌, Text, codes, within, trim_start, Bool, true, false, ◌&&◌,
  ◌||◌, Option, none, some, List, [], ◌∷◌, ◌++◌, All, if◌then◌else◌, ltb, ◌==◌, equal, Result, ok,
  throw, ◌>>=◌,
}
use kypassword_server.Api.{Thrown, other_error, no_error}

-- A `Uint8Array`.
abbrev pub Bytes : Type 0
Bytes = List ℕ

abbrev pub IsByte : ℕ → Type 0
IsByte b = b < 256

abbrev pub hex_digit : ℕ → ℕ
hex_digit n = if ltb n 10 then 48 + n else 87 + n

-- `b.toString(16).padStart(2, "0")` of a byte.
unfoldable pub hex_byte : ℕ → Text
hex_byte b =
    if ltb b 16 then b'0' ∷ hex_digit b ∷ [] else hex_digit (b / 16) ∷ hex_digit (b % 16) ∷ []

unfoldable pub bytes_to_hex : Bytes → Text
unfolding hex_byte
bytes_to_hex [] = []
bytes_to_hex (b ∷ bs) = hex_byte b ++ bytes_to_hex bs

unfoldable pub hex_value : ℕ → Option ℕ
hex_value c =
    if within b'0' b'9' c
    then some (c - 48)
    else if within b'a' b'f' c
    then some (c - 87)
    else if within b'A' b'F' c
    then some (c - 55)
    else none

-- The digits that a text starts with, as a number; `none` if it starts with none.
digits_prefix : Option ℕ → Text → Option ℕ
unfolding hex_value
digits_prefix acc [] = acc
digits_prefix acc (c ∷ s) = elim (hex_value c) [
  | none ↦ acc
  | some d ↦ digits_prefix (some (elim acc [ none ↦ d | some n ↦ n * 16 + d ])) s
]

without_radix : Text → Text
without_radix (z ∷ x ∷ s) = if z == b'0' && (x == b'x' || x == b'X') then s else z ∷ x ∷ s
without_radix s = s

-- The value that a `Uint8Array` holds of `parseInt(s, 16)`: 0 for NaN, and else modulo 256.
to_uint8 : Bool → Option ℕ → ℕ
to_uint8 is_negative none = 0
to_uint8 is_negative (some n) = if is_negative then (256 - n % 256) % 256 else n % 256

unsigned : Text → Option ℕ
unfolding digits_prefix without_radix
unsigned s = digits_prefix none (without_radix s)

parse_signed : Text → ℕ
unfolding to_uint8 unsigned
parse_signed [] = 0
parse_signed (c ∷ s) =
    if c == b'-'
    then to_uint8 true (unsigned s)
    else if c == b'+'
    then to_uint8 false (unsigned s)
    else to_uint8 false (unsigned (c ∷ s))

unfoldable pub parse_byte : Text → ℕ
unfolding parse_signed trim_start
parse_byte s = parse_signed (trim_start s)

-- `hex.length / 2` bytes, rounded down as the length of a typed array is.
unfoldable pub hex_to_bytes : Text → Bytes
hex_to_bytes (a ∷ b ∷ s) = parse_byte (a ∷ b ∷ []) ∷ hex_to_bytes s
hex_to_bytes _ = []

pub record Argon2idParams : Type 0 where
  pub memory_kib : ℕ
  pub iterations : ℕ
  pub parallelism : ℕ

abbrev pub envelope_argon2id : Argon2idParams
envelope_argon2id = record { memory_kib = 65536; iterations = 3; parallelism = 1 }

-- What `unwrapVaultKey` reads of a parsed envelope; a legacy envelope has no `kdf`, and may have no
-- `iterations`.
pub data Kdf : Type 0 where
  argon2id : Argon2idParams → Kdf
  legacy : Option ℕ → Kdf

pub record Envelope : Type 0 where
  pub kdf : Kdf
  pub salt : Text
  pub iv : Text
  pub ciphertext : Text

-- A key is derived from every secret: an empty one, for which hash-wasm throws, is left out.
pub record Primitives : Type 0 where
  pub derive_argon2id : Text → Bytes → Argon2idParams → Bytes
  pub derive_pbkdf2 : Text → Bytes → ℕ → Bytes
  -- AES-GCM under a raw key and a nonce
  pub encrypt : Bytes → Bytes → Bytes → Bytes
  pub decrypt : Bytes → Bytes → Bytes → Result Thrown Bytes
  pub stringify : Envelope → Text
  -- `JSON.parse` and the reading of the fields, which throw what the browser throws
  pub parse : Text → Result Thrown Envelope

-- What the client relies on: decryption with the same key and nonce undoes encryption, bytes are encrypted
-- as bytes, and parsing undoes printing.
pub record IsSound (p : Primitives) : Type 0 where
  pub decrypt-encrypt : (k iv m : Bytes) → p.decrypt k iv (p.encrypt k iv m) ≡ ok m
  pub encrypt-bytes : (k iv m : Bytes) → All IsByte m → All IsByte (p.encrypt k iv m)
  pub parse-stringify : (e : Envelope) → p.parse (p.stringify e) ≡ ok e

unfoldable pub wrap_vault_key : Primitives → Bytes → Text → Bytes → Bytes → Text
wrap_vault_key p key secret salt iv = p.stringify (record {
  kdf = argon2id envelope_argon2id;
  salt = bytes_to_hex salt;
  iv = bytes_to_hex iv;
  ciphertext = bytes_to_hex (p.encrypt (p.derive_argon2id secret salt envelope_argon2id) iv key);
})

-- `envelope.iterations || 600000`.
abbrev pub legacy_iterations : Option ℕ → ℕ
legacy_iterations none = 600000
legacy_iterations (some n) = if n == 0 then 600000 else n

derive : Primitives → Kdf → Text → Bytes → Bytes
derive p (argon2id params) secret salt = p.derive_argon2id secret salt params
derive p (legacy n) secret salt = p.derive_pbkdf2 secret salt (legacy_iterations n)

unfoldable pub unwrap_vault_key : Primitives → Text → Text → Result Thrown Bytes
unfolding derive
unwrap_vault_key p text secret = do
  e ← p.parse text
  p.decrypt (derive p e.kdf secret (hex_to_bytes e.salt)) (hex_to_bytes e.iv)
      (hex_to_bytes e.ciphertext)
