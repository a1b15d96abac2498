-- ===== src/Totp/Counter.antt =====
-- The counter's eight bytes.
use native.Mathlib.Nat.{add-zero, mod-eq_of_lt}
use kypassword_server.Base.{
  ◌∙◌, ap, ℕ, zero, suc, ◌+◌, ◌/◌, ◌%◌, ◌≤◌, ◌<◌, [], ◌∷◌, ltb, ◌≡◌, refl, arith,
}
use kypassword_server.Crypto.{Bytes}
use kypassword_server.Totp.{false, true, counter_loop, counter_bytes}

-- RFC 4226: the counter is a big-endian number of eight bytes.
abbrev pub big_endian : ℕ → ℕ → Bytes → Bytes
big_endian zero t rest = rest
big_endian (suc k) t rest = big_endian k (t / 256) ((t % 256) ∷ rest)

counter_loop-big_endian :
    (k p : ℕ) (rest : Bytes) → p < 2147483648 → counter_loop k p rest ≡ big_endian k p rest
unfolding counter_loop
counter_loop-big_endian zero p rest h = refl
counter_loop-big_endian (suc k) p rest h =
    let positive : ltb p 2147483648 ≡ true = ground arith in
    rw (positive, add-zero) (counter_loop-big_endian k (p / 256) ((p % 256) ∷ rest) (omega arith))

-- Below 2^31 the counter is written as RFC 4226 wants it.
pub counter_bytes-big_endian : (t : ℕ) → t < 2147483648 → counter_bytes t ≡ big_endian 8 t []
unfolding counter_bytes
counter_bytes-big_endian t h =
    rw (mod-eq_of_lt {n = t} {m = 4294967296} (omega arith)) (counter_loop-big_endian 8 t [] h)

shift-negative :
    (k p : ℕ) (rest : Bytes)
    → 2147483648 ≤ p
    → counter_loop (suc k) p rest ≡ counter_loop k (p / 256 + 4278190080) ((p % 256) ∷ rest)
unfolding counter_loop
shift-negative k p rest h = let negative : ltb p 2147483648 ≡ false = ground arith in rw negative

ones : (rest : Bytes) → counter_loop 4 4294967295 rest ≡ 255 ∷ 255 ∷ 255 ∷ 255 ∷ rest
unfolding counter_loop
ones rest = refl

bytes4 : (p q : ℕ) (rest : Bytes) → p ≡ q → counter_loop 4 p rest ≡ counter_loop 4 q rest
bytes4 p q rest e = ap (λ x. counter_loop 4 x rest) e

-- From 2^31 up to 2^32 the shift keeps the sign bit: the four high bytes come out as 255, where RFC
-- 4226 wants 0.
pub counter_bytes_negative :
    (t : ℕ)
    → 2147483648 ≤ t
    → t < 4294967296
    → counter_bytes t
      ≡ 255 ∷ 255 ∷ 255 ∷ 255 ∷ t / 16777216 % 256 ∷ t / 65536 % 256 ∷ t / 256 % 256 ∷ t % 256 ∷ []
unfolding counter_bytes
counter_bytes_negative t low high =
    let p1 = t / 256 + 4278190080 in
    let p2 = p1 / 256 + 4278190080 in
    let p3 = p2 / 256 + 4278190080 in
    let p4 = p3 / 256 + 4278190080 in
    let b1 = (t % 256) ∷ [] in
    let b2 = (p1 % 256) ∷ b1 in
    let b3 = (p2 % 256) ∷ b2 in
    let b4 = (p3 % 256) ∷ b3 in
    rw (mod-eq_of_lt {n = t} {m = 4294967296} high) (
      shift-negative 7 t [] low
      ∙ shift-negative 6 p1 b1 (omega arith)
      ∙ shift-negative 5 p2 b2 (omega arith)
      ∙ shift-negative 4 p3 b3 (omega arith)
      ∙ bytes4 p4 4294967295 b4 (omega arith)
      ∙ ones b4
      ∙ ground arith)
