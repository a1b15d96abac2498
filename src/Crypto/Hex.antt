-- ===== src/Crypto/Hex.antt =====
-- Hexadecimal text and bytes are each other's inverse.
use kypassword_server.Base.{
  ◌≤◌, ℕ, zero, suc, ◌+◌, ◌<◌, Text, Bool, true, ◌&&◌, [], ◌∷◌, ◌++◌, map, All, ◌≡◌, refl, arith,
  within, if◌then◌else◌, equal, equal_iff, is_space, not, ◌||◌,
}
use kypassword_server.Crypto.{Bytes, IsByte, hex_byte, bytes_to_hex, parse_byte, hex_to_bytes}

-- A test of all numbers up to `n`.
holds_up_to : (ℕ → Bool) → ℕ → Bool
holds_up_to test zero = test 0
holds_up_to test (suc n) = test (suc n) && holds_up_to test n

holds_up_to_lem :
    (test : ℕ → Bool) (n : ℕ) → holds_up_to test n ≡ true → (b : ℕ) → b ≤ n → test b ≡ true
unfolding holds_up_to
holds_up_to_lem test zero h zero le = h
holds_up_to_lem test zero h (suc b) le = absurd (omega arith)
holds_up_to_lem test (suc n) h b le = ground (arith, holds_up_to_lem test n _ b)

byte_table : holds_up_to (λ b. equal (hex_to_bytes (hex_byte b)) (b ∷ [])) 255 ≡ true
unfolding holds_up_to equal hex_to_bytes hex_byte parse_byte is_space
byte_table = refl

hex_to_bytes-hex_byte : (b : ℕ) → b < 256 → hex_to_bytes (hex_byte b) ≡ b ∷ []
hex_to_bytes-hex_byte b h = (equal_iff _ _).0 (holds_up_to_lem _ 255 byte_table b (omega arith))

hex_to_bytes-append :
    (b : ℕ) (s : Text)
    → hex_to_bytes (hex_byte b ++ s) ≡ hex_to_bytes (hex_byte b) ++ hex_to_bytes s
unfolding hex_to_bytes hex_byte
hex_to_bytes-append b s = ground arith

-- Reading back the hexadecimal text of bytes gives the same bytes.
pub hex_to_bytes-bytes_to_hex : (bs : Bytes) → All IsByte bs → hex_to_bytes (bytes_to_hex bs) ≡ bs
unfolding bytes_to_hex
hex_to_bytes-bytes_to_hex [] h = unfold hex_to_bytes in refl
hex_to_bytes-bytes_to_hex (b ∷ bs) h = rw (
  hex_to_bytes-append b (bytes_to_hex bs),
  hex_to_bytes-hex_byte b h.0,
  hex_to_bytes-bytes_to_hex bs h.1,
)

-- Upper case digits in lower case.
abbrev pub lower_digit : ℕ → ℕ
lower_digit c = if within b'A' b'F' c then c + 32 else c

abbrev pub is_hex : ℕ → Bool
is_hex c = within b'0' b'9' c || within b'a' b'f' c || within b'A' b'F' c

abbrev pub IsHexPairs : Text → Type 0
IsHexPairs [] = Unit {0}
IsHexPairs (a ∷ []) = ⊥
IsHexPairs (a ∷ b ∷ s) = (is_hex a ≡ true) × (is_hex b ≡ true) × IsHexPairs s

pair_holds : ℕ → ℕ → Bool
pair_holds a b =
    not (is_hex a && is_hex b)
    || equal (hex_byte (parse_byte (a ∷ b ∷ []))) (lower_digit a ∷ lower_digit b ∷ [])

pair_table : holds_up_to (λ a. holds_up_to (pair_holds a) 102) 102 ≡ true
unfolding holds_up_to pair_holds equal hex_byte parse_byte is_space
pair_table = refl

is_hex-le : (c : ℕ) → is_hex c ≡ true → c ≤ 102
is_hex-le c h = ground arith

hex_byte-parse_byte :
    (a b : ℕ)
    → is_hex a ≡ true
    → is_hex b ≡ true
    → hex_byte (parse_byte (a ∷ b ∷ [])) ≡ lower_digit a ∷ lower_digit b ∷ []
hex_byte-parse_byte a b ha hb =
    let row = holds_up_to_lem _ 102 pair_table a (is_hex-le a ha) in
    let cell = holds_up_to_lem _ 102 row b (is_hex-le b hb) in
    (equal_iff _ _).0 (unfold pair_holds in rw (ha, hb) at cell)

-- Writing out the bytes of hexadecimal digits, an even number of them, gives the digits in lower case.
pub bytes_to_hex-hex_to_bytes :
    (s : Text) → IsHexPairs s → bytes_to_hex (hex_to_bytes s) ≡ map lower_digit s
unfolding bytes_to_hex hex_to_bytes
bytes_to_hex-hex_to_bytes [] h = refl
bytes_to_hex-hex_to_bytes (a ∷ []) h = absurd h
bytes_to_hex-hex_to_bytes (a ∷ b ∷ s) h =
    rw (hex_byte-parse_byte a b h.0 h.1, bytes_to_hex-hex_to_bytes s h.2)
