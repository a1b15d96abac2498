-- ===== src/Dialog/Security/Codes.antt =====
-- The characters of a paper recovery code (frontend/src/pages/SecuritySettings.tsx).
use kypassword_server.Base.{
  ℕ, zero, suc, ◌==◌, ==_iff, any, all, count_by, Bool, true, List, [], ◌∷◌, ◌≡◌, refl, sym,
  Bool-cases, inl, inr, &&-true,
}
use kypassword_server.Dialog.Security.{chars, code_char}

-- The numbers below `n`.
pub numbers_below : ℕ → List ℕ
numbers_below zero = []
numbers_below (suc n) = n ∷ numbers_below n

all-any :
    (p : ℕ → Bool) (c : ℕ) (cs : List ℕ)
    → all p cs ≡ true
    → any (λ d. d == c) cs ≡ true
    → p c ≡ true
all-any p c [] a m = cc
all-any p c (d ∷ cs) a m = elim (Bool-cases (d == c)) [
  | inl y ↦ rw (sym ((==_iff d c).0 y)) (&&-true (p d) (all p cs) a).0
  | inr n ↦ all-any p c cs (&&-true (p d) (all p cs) a).1 (rw (n) at m)
]

is_even : all (λ c. count_by (λ b. code_char b == c) (numbers_below 256) == 8) chars ≡ true
unfolding numbers_below
is_even = refl

-- Each character of the alphabet is the one for exactly 8 of the 256 values of a random byte, so a
-- random byte chooses every character equally often.
pub code_char-even :
    (c : ℕ)
    → any (λ d. d == c) chars ≡ true
    → count_by (λ b. code_char b == c) (numbers_below 256) ≡ 8
code_char-even c h =
    (==_iff (count_by (λ b. code_char b == c) (numbers_below 256)) 8).0
      (all-any (λ d. count_by (λ b. code_char b == d) (numbers_below 256) == 8) c chars is_even h)
