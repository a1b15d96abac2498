-- ===== src/Totp/Code.antt =====
-- The code has the wanted number of decimal digits, and its time left lies in the step.
use native.Mathlib.Nat.{pow-suc, mod-lt}
use kypassword_server.Base.{
  ℕ, zero, suc, ◌-◌, ◌%◌, ◌^◌, ◌≤◌, ◌<◌, decimal, decimal-All, length-decimal-le, IsDigit, length,
  length-append, length-replicate, replicate, All, All-append, [], ◌∷◌, ◌≡◌, ◌≢◌, refl, ◌∙◌, arith,
}
use kypassword_server.Crypto.{Bytes}
use kypassword_server.Totp.{code_of, Settings, totp_of}

All-replicate : (n : ℕ) → All IsDigit (replicate n b'0')
All-replicate zero = tt
All-replicate (suc n) = (omega arith, All-replicate n)

pow-pos : (d : ℕ) → 0 < 10 ^ d
pow-pos zero = omega arith
pow-pos (suc d) = rw pow-suc (omega (arith, pow-pos d))

-- For one digit or more the code is exactly that many decimal digits, whatever the truncated value.
pub code_of-digits :
    (binary d : ℕ)
    → (length (code_of binary (suc d)) ≡ suc d) × All IsDigit (code_of binary (suc d))
unfolding code_of
code_of-digits binary d =
    let n = binary % 10 ^ suc d in
    let short = length-decimal-le d n (mod-lt _ (pow-pos (suc d))) in
    (
      length-append (replicate (suc d - length (decimal n)) b'0') (decimal n)
          ∙ omega (arith, length-replicate {A = ℕ} (suc d - length (decimal n)) b'0'),
      All-append IsDigit _ (decimal n) (All-replicate _) (decimal-All n),
    )

-- With a key that is not empty and a step above 0, the seconds left are at least one and at most a step.
pub totp_of-seconds :
    (hmac : Bytes → Bytes → Bytes) (s : Settings) (key : Bytes) (epoch : ℕ)
    → key ≢ []
    → 0 < s.time_step
    → (1 ≤ (totp_of hmac s key epoch).seconds_remaining)
      × ((totp_of hmac s key epoch).seconds_remaining ≤ s.time_step)
unfolding totp_of
totp_of-seconds hmac s [] epoch h p = absurd (h refl)
totp_of-seconds hmac s (b ∷ key) epoch h p = grind arith
