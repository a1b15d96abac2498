-- ===== src/Totp/Secret.antt =====
-- Base 32, decoded against the encoder of RFC 4648.
use kypassword_server.Base.{
  All-append, ℕ, zero, suc, ◌+◌, ◌-◌, ◌*◌, ◌/◌, ◌%◌, ◌<◌, Text, is_space, select, All, replicate,
  false, not, some, List, [], ◌∷◌, ◌++◌, if◌then◌else◌, ltb, ◌==◌, ◌≡◌, refl, ap, ap₂, ◌∙◌, arith,
}
use kypassword_server.Crypto.{Bytes, IsByte}
use kypassword_server.Totp.{base32_value, bits5, without_padding, bits_of, bytes_of, base32_decode}

abbrev pub bits8 : ℕ → List ℕ
bits8 b =
    b / 128 % 2
    ∷ b / 64 % 2
    ∷ b / 32 % 2
    ∷ b / 16 % 2
    ∷ b / 8 % 2
    ∷ b / 4 % 2
    ∷ b / 2 % 2
    ∷ b % 2
    ∷ []

abbrev pub byte_bits : Bytes → List ℕ
byte_bits [] = []
byte_bits (b ∷ bs) = bits8 b ++ byte_bits bs

unfoldable pub symbol : ℕ → ℕ
symbol v = if ltb v 26 then b'A' + v else b'2' + (v - 26)

abbrev pub group : ℕ → ℕ → ℕ → ℕ → ℕ → ℕ
group a b c d e = symbol (a * 16 + b * 8 + c * 4 + d * 2 + e)

-- Groups of five bits, the last one filled up with zeros.
abbrev pub symbols : List ℕ → Text
symbols [] = []
symbols (a ∷ []) = group a 0 0 0 0 ∷ []
symbols (a ∷ b ∷ []) = group a b 0 0 0 ∷ []
symbols (a ∷ b ∷ c ∷ []) = group a b c 0 0 ∷ []
symbols (a ∷ b ∷ c ∷ d ∷ []) = group a b c d 0 ∷ []
symbols (a ∷ b ∷ c ∷ d ∷ e ∷ rest) = group a b c d e ∷ symbols rest

abbrev pub base32_encode : Bytes → Text
base32_encode bs = symbols (byte_bits bs)

abbrev IsBit : ℕ → Type 0
IsBit b = b < 2

base32_value-symbol : (v : ℕ) → v < 32 → base32_value (symbol v) ≡ some v
unfolding base32_value symbol
base32_value-symbol v h = ground arith

bits_of-symbol : (v : ℕ) (s : Text) → v < 32 → bits_of (symbol v ∷ s) ≡ bits5 v ++ bits_of s
unfolding bits_of
bits_of-symbol v s h = rw (base32_value-symbol v h, bits_of)

module _ (a b c d e : ℕ) (ha : IsBit a) (hb : IsBit b) (hc : IsBit c) (hd : IsBit d)
    (he : IsBit e) where
  group-bits : bits5 (a * 16 + b * 8 + c * 4 + d * 2 + e) ≡ a ∷ b ∷ c ∷ d ∷ e ∷ []
  group-bits = ground arith

  bits_of-group : (s : Text) → bits_of (group a b c d e ∷ s) ≡ a ∷ b ∷ c ∷ d ∷ e ∷ bits_of s
  bits_of-group s =
      bits_of-symbol (a * 16 + b * 8 + c * 4 + d * 2 + e) s (omega arith)
      ∙ ap (λ t. t ++ bits_of s) group-bits

zero-IsBit : IsBit 0
zero-IsBit = omega arith

-- No symbol is white space or padding.
abbrev IsPlain : ℕ → Type 0
IsPlain c = (is_space c ≡ false) × ((c == b'=') ≡ false)

symbol-IsPlain : (v : ℕ) → v < 32 → IsPlain (symbol v)
unfolding symbol is_space
symbol-IsPlain v h = ground arith

symbols-IsPlain : (bits : List ℕ) → All IsBit bits → All IsPlain (symbols bits)
symbols-IsPlain [] h = tt
symbols-IsPlain (a ∷ []) h = (symbol-IsPlain _ (omega arith), tt)
symbols-IsPlain (a ∷ b ∷ []) h = (symbol-IsPlain _ (omega arith), tt)
symbols-IsPlain (a ∷ b ∷ c ∷ []) h = (symbol-IsPlain _ (omega arith), tt)
symbols-IsPlain (a ∷ b ∷ c ∷ d ∷ []) h = (symbol-IsPlain _ (omega arith), tt)
symbols-IsPlain (a ∷ b ∷ c ∷ d ∷ e ∷ rest) (ha, (hb, (hc, (hd, (he, h))))) =
    (symbol-IsPlain _ (omega arith), symbols-IsPlain rest h)

without_padding-replicate : (k : ℕ) → without_padding (replicate k b'=') ≡ []
unfolding without_padding
without_padding-replicate zero = refl
without_padding-replicate (suc k) = rw (without_padding-replicate k)

without_padding-append :
    (s : Text) (k : ℕ) → All IsPlain s → without_padding (s ++ replicate k b'=') ≡ s
unfolding without_padding
without_padding-append [] k h = without_padding-replicate k
without_padding-append (c ∷ s) k ((_, other), h) =
    rw (without_padding-append s k h, other) (ground arith)

select-IsPlain : (s : Text) → All IsPlain s → select (λ c. not (is_space c)) s ≡ s
select-IsPlain [] h = refl
select-IsPlain (c ∷ s) ((kept, _), h) = rw (kept, select-IsPlain s h)

bits_of-symbols :
    (bits : List ℕ)
    → All IsBit bits
    → (n : ℕ) × (n < 5) × (bits_of (symbols bits) ≡ bits ++ replicate n 0)
unfolding bits_of
bits_of-symbols [] h = (0, omega arith, refl)
bits_of-symbols (a ∷ []) h =
    (4, omega arith, bits_of-group a 0 0 0 0 h.0 zero-IsBit zero-IsBit zero-IsBit zero-IsBit [])
bits_of-symbols (a ∷ b ∷ []) (ha, (hb, _)) =
    (3, omega arith, bits_of-group a b 0 0 0 ha hb zero-IsBit zero-IsBit zero-IsBit [])
bits_of-symbols (a ∷ b ∷ c ∷ []) (ha, (hb, (hc, _))) =
    (2, omega arith, bits_of-group a b c 0 0 ha hb hc zero-IsBit zero-IsBit [])
bits_of-symbols (a ∷ b ∷ c ∷ d ∷ []) (ha, (hb, (hc, (hd, _)))) =
    (1, omega arith, bits_of-group a b c d 0 ha hb hc hd zero-IsBit [])
bits_of-symbols (a ∷ b ∷ c ∷ d ∷ e ∷ rest) (ha, (hb, (hc, (hd, (he, h))))) =
    let (n, small, eq) = bits_of-symbols rest h in
    (
      n,
      small,
      bits_of-group a b c d e ha hb hc hd he (symbols rest) ∙ ap (λ t. a ∷ b ∷ c ∷ d ∷ e ∷ t) eq,
    )

bytes_of-replicate : (n : ℕ) → n < 5 → bytes_of (replicate n 0) ≡ []
unfolding bytes_of
bytes_of-replicate zero h = refl
bytes_of-replicate (suc zero) h = refl
bytes_of-replicate (suc (suc zero)) h = refl
bytes_of-replicate (suc (suc (suc zero))) h = refl
bytes_of-replicate (suc (suc (suc (suc zero)))) h = refl
bytes_of-replicate (suc (suc (suc (suc (suc n))))) h = absurd (omega arith)

bytes_of-byte_bits :
    (bs : Bytes) (n : ℕ) → All IsByte bs → n < 5 → bytes_of (byte_bits bs ++ replicate n 0) ≡ bs
unfolding bytes_of
bytes_of-byte_bits [] n h small = bytes_of-replicate n small
bytes_of-byte_bits (b ∷ bs) n h small =
    ap₂ (λ x xs. x ∷ xs) (omega arith) (bytes_of-byte_bits bs n h.1 small)

byte_bits-IsBit : (bs : Bytes) → All IsBit (byte_bits bs)
byte_bits-IsBit [] = tt
byte_bits-IsBit (b ∷ bs) =
    All-append IsBit (bits8 b) (byte_bits bs) (omega arith) (byte_bits-IsBit bs)

-- A secret whose upper case is the RFC 4648 encoding of some bytes, with any number of padding signs
-- behind it, decodes to exactly those bytes.
pub base32_decode-base32_encode :
    (to_upper : Text → Text) (input : Text) (bs : Bytes) (k : ℕ)
    → All IsByte bs
    → to_upper input ≡ base32_encode bs ++ replicate k b'='
    → base32_decode to_upper input ≡ bs
unfolding base32_decode
base32_decode-base32_encode to_upper input bs k h e =
    let plain = symbols-IsPlain (byte_bits bs) (byte_bits-IsBit bs) in
    let (n, small, eq) = bits_of-symbols (byte_bits bs) (byte_bits-IsBit bs) in
    rw
      (
        e,
        without_padding-append (base32_encode bs) k plain,
        select-IsPlain (base32_encode bs) plain,
        eq,
      )
      (bytes_of-byte_bits bs n h small)
