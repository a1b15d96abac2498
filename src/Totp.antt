-- ===== src/Totp.antt =====
-- frontend/src/lib/totp.ts: the secret in base 32, the counter, and the code. HMAC-SHA-1, the upper
-- case of a text and the reading of an otpauth address are parameters.
pub mod Secret
pub mod Counter
pub mod Code
use kypassword_server.Base.{
  ℕ, zero, suc, ◌+◌, ◌-◌, ◌*◌, ◌/◌, ◌%◌, ◌^◌, Text, codes, is_space, is_empty, trim, starts_with,
  decimal, within, length, get_or, select, replicate, Bool, true, false, not, ◌&&◌, ◌||◌, Option,
  none, some, List, [], ◌∷◌, ◌++◌, if◌then◌else◌, ltb, leb, ◌==◌,
}
use kypassword_server.Crypto.{Bytes}

-- `base32chars.indexOf(c)`.
unfoldable pub base32_value : ℕ → Option ℕ
base32_value c =
    if within b'A' b'Z' c
    then some (c - b'A')
    else if within b'2' b'7' c
    then some (c - b'2' + 26)
    else none

-- `val.toString(2).padStart(5, "0")` of a value below 32.
abbrev pub bits5 : ℕ → List ℕ
bits5 v = v / 16 % 2 ∷ v / 8 % 2 ∷ v / 4 % 2 ∷ v / 2 % 2 ∷ v % 2 ∷ []

-- `replace(/=+$/, "")`.
unfoldable pub without_padding : Text → Text
without_padding [] = []
without_padding (c ∷ s) =
    let rest = without_padding s in if is_empty rest && c == b'=' then [] else c ∷ rest

unfoldable pub bits_of : Text → List ℕ
unfolding base32_value
bits_of [] = []
bits_of (c ∷ s) = elim (base32_value c) [ none ↦ bits_of s | some v ↦ bits5 v ++ bits_of s ]

-- `parseInt(bits.substr(i * 8, 8), 2)` for each whole group of eight.
unfoldable pub bytes_of : List ℕ → Bytes
bytes_of (a ∷ b ∷ c ∷ d ∷ e ∷ f ∷ g ∷ h ∷ rest) =
    (a * 128 + b * 64 + c * 32 + d * 16 + e * 8 + f * 4 + g * 2 + h) ∷ bytes_of rest
bytes_of _ = []

unfoldable pub base32_decode : (Text → Text) → Text → Bytes
unfolding bits_of bytes_of without_padding is_space
base32_decode to_upper input =
    bytes_of (bits_of (select (λ c. not (is_space c)) (without_padding (to_upper input))))

-- `temp >> 8` of a 32-bit pattern, which keeps the sign.
abbrev pub shift_right8 : ℕ → ℕ
shift_right8 p = p / 256 + (if ltb p 2147483648 then 0 else 4278190080)

-- The loop that fills the counter's bytes from the last one on; `temp & 0xff` is the low byte.
unfoldable pub counter_loop : ℕ → ℕ → Bytes → Bytes
counter_loop zero temp bytes = bytes
counter_loop (suc k) temp bytes = counter_loop k (shift_right8 temp) ((temp % 256) ∷ bytes)

-- Bitwise operators see a number modulo 2^32.
unfoldable pub counter_bytes : ℕ → Bytes
unfolding counter_loop
counter_bytes time_count = counter_loop 8 (time_count % 4294967296) []

-- The four bytes at the offset that the last byte names; their bits are disjoint, so `|` is `+`.
unfoldable pub truncate : Bytes → ℕ
truncate hmac =
    let offset = get_or hmac (length hmac - 1) 0 % 16 in
    get_or hmac offset 0 % 128 * 16777216
    + get_or hmac (offset + 1) 0 * 65536
    + get_or hmac (offset + 2) 0 * 256
    + get_or hmac (offset + 3) 0

-- `padStart(digits, "0")`.
unfoldable pub pad_start : ℕ → Text → Text
pad_start digits s = replicate (digits - length s) b'0' ++ s

unfoldable pub code_of : ℕ → ℕ → Text
unfolding pad_start decimal
code_of binary digits = pad_start digits (decimal (binary % 10 ^ digits))

-- What an otpauth address gives for `secret`, `digits` and `period`, each read as a number already.
pub record Address : Type 0 where
  pub secret : Option Text
  pub digits : Option ℕ
  pub period : Option ℕ

pub record Settings : Type 0 where
  pub secret : Text
  pub digits : ℕ
  pub time_step : ℕ

abbrev pub or_default {ℓ} : {A : Type ℓ} → Option A → A → A
or_default none d = d
or_default (some a) d = a

abbrev non_empty : Option Text → Option Text
non_empty none = none
non_empty (some s) = if is_empty s then none else some s

with_address : Settings → Option Address → Settings
with_address s none = s
with_address s (some a) = record {
  secret = or_default (non_empty a.secret) s.secret;
  digits = or_default a.digits s.digits;
  time_step = or_default a.period s.time_step;
}

-- `parse` reads an otpauth address, with `none` where `new URL` throws.
unfoldable pub read_settings : (Text → Option Address) → Text → ℕ → ℕ → Settings
unfolding with_address starts_with trim
read_settings parse text time_step digits =
    let secret = trim text in
    let s : Settings = record { secret = secret; digits = digits; time_step = time_step } in
    if starts_with (codes "otpauth://") secret then with_address s (parse secret) else s

pub record Totp : Type 0 where
  pub code : Text
  pub seconds_remaining : ℕ

unfoldable pub totp_of : (Bytes → Bytes → Bytes) → Settings → Bytes → ℕ → Totp
unfolding code_of truncate counter_bytes
totp_of hmac s [] epoch = record { code = codes "------"; seconds_remaining = 30 }
totp_of hmac s (b ∷ key) epoch = record {
  code = code_of (truncate (hmac (b ∷ key) (counter_bytes (epoch / s.time_step)))) s.digits;
  seconds_remaining = s.time_step - epoch % s.time_step;
}

unfoldable pub generate_totp :
    (Bytes → Bytes → Bytes) → (Text → Text) → (Text → Option Address) → Text → ℕ → ℕ → ℕ → Totp
unfolding totp_of base32_decode read_settings
generate_totp hmac to_upper parse text time_step digits epoch =
    let s = read_settings parse text time_step digits in
    totp_of hmac s (base32_decode to_upper s.secret) epoch
