-- ===== src/Base/Search.antt =====
-- Searching text: `startsWith`, `indexOf`, and the decimal digits of a number.
use Prim.Native.Nat.{◌*◌, ◌^◌, ℕ, zero, suc, ◌+◌, ◌/◌, ◌%◌, ◌^◌, ◌<◌, ◌≤◌}
use mathlib.Core.Bool.{Bool, true, false, ◌&&◌}
use mathlib.Core.List.{List, [], ◌∷◌, ◌++◌, concat-ne-nil}
use mathlib.Core.Logic.{◌≢◌, inl, inr}
use mathlib.Core.Option.{Option, none, some}
use mathlib.Core.Option
use mathlib.Core.Path.{◌≡◌, refl, sym, ap}
use native.Mathlib.Nat.{pow-suc}
use native.Mathlib.Omega.{arith}
use kypassword_server.Base.Tests.{ltb, ltb→lt, ==_iff, ==_refl, Bool-cases, ◌==◌, if◌then◌else◌}
use kypassword_server.Base.Lists.{All, length, length-append}
use kypassword_server.Base.Texts.{Text}

-- `s.startsWith(p)`.
unfoldable pub starts_with : Text → Text → Bool
starts_with [] s = true
starts_with (x ∷ p) [] = false
starts_with (x ∷ p) (c ∷ s) = x == c && starts_with p s

-- `s.indexOf(p)`, with `none` for -1.
unfoldable pub index_of : Text → Text → Option ℕ
unfolding starts_with
index_of p [] = if starts_with p [] then some 0 else none
index_of p (c ∷ s) = if starts_with p (c ∷ s) then some 0 else Option.map suc (index_of p s)

-- `t.includes(q)`.
abbrev pub includes : Text → Text → Bool
unfolding index_of
includes t q = elim (index_of q t) [ none ↦ false | some _ ↦ true ]

pub starts_with-append : (p s : Text) → starts_with p (p ++ s) ≡ true
unfolding starts_with
starts_with-append [] s = refl
starts_with-append (x ∷ p) s = rw (==_refl x) (starts_with-append p s)

-- The decimal digits of `n`, on fuel; `suc n` is enough.
digits_from : ℕ → ℕ → Text
digits_from zero n = []
digits_from (suc f) n =
    let rest = digits_from f (n / 10) in
    if ltb n 10 then (48 + n) ∷ [] else rest ++ (48 + n % 10) ∷ []

unfoldable pub decimal : ℕ → Text
unfolding digits_from
decimal n = digits_from (suc n) n

abbrev pub IsDigit : ℕ → Type 0
IsDigit c = (48 ≤ c) × (c < 58)

pub All-concat {ℓ κ} :
    {A : Type ℓ} (P : A → Type κ) (xs : List A) (x : A) → All P xs → P x → All P (xs ++ x ∷ [])
All-concat P [] x h p = (p, tt)
All-concat P (y ∷ xs) x h p = (h.0, All-concat P xs x h.1 p)

Option-map-id : (o : Option ℕ) → Option.map (λ i. 0 + i) o ≡ o
Option-map-id none = refl
Option-map-id (some n) = ap some (omega arith)

Option-map-suc :
    (n : ℕ) (o : Option ℕ)
    → Option.map suc (Option.map (λ i. n + i) o) ≡ Option.map (λ i. suc n + i) o
Option-map-suc n none = refl
Option-map-suc n (some m) = ap some (omega arith)

digits_from-All : (f n : ℕ) → All IsDigit (digits_from f n)
unfolding digits_from
digits_from-All zero n = tt
digits_from-All (suc f) n = elim (Bool-cases (ltb n 10)) [
  | inl small ↦ rw small ((omega arith, omega (arith, ltb→lt n 10 small)), tt)
  | inr large ↦ rw large (
      All-concat IsDigit (digits_from f (n / 10)) (48 + n % 10) (digits_from-All f (n / 10))
        (omega arith, omega arith))
]

pub decimal-All : (n : ℕ) → All IsDigit (decimal n)
unfolding decimal
decimal-All n = digits_from-All (suc n) n

div-bound : (n m : ℕ) → n < m * 10 → n / 10 < m
div-bound n m h = omega arith

digits_from-length : (f d n : ℕ) → n < 10 ^ suc d → length (digits_from f n) ≤ suc d
unfolding digits_from
digits_from-length zero d n h = omega arith
digits_from-length (suc f) zero n h =
    let small : ltb n 10 ≡ true = ground arith in rw small (omega arith)
digits_from-length (suc f) (suc d) n h = elim (Bool-cases (ltb n 10)) [
  | inl small ↦ rw small (omega arith)
  | inr large ↦
      let bound : n < 10 ^ suc d * 10 = rw pow-suc at h in
      rw large (
        omega (
          arith,
          length-append (digits_from f (n / 10)) ((48 + n % 10) ∷ []),
          digits_from-length f d (n / 10) (div-bound n (10 ^ suc d) bound),
        ))
]

pub length-decimal-le : (d n : ℕ) → n < 10 ^ suc d → length (decimal n) ≤ suc d
unfolding decimal
length-decimal-le d n h = digits_from-length (suc n) d n h

digits_from-ne-nil : (f n : ℕ) → digits_from (suc f) n ≢ []
unfolding digits_from
digits_from-ne-nil f n = ground (arith, concat-ne-nil (48 + n % 10) (digits_from f (n / 10)))

pub decimal-ne-nil : (n : ℕ) → decimal n ≢ []
unfolding decimal
decimal-ne-nil n = digits_from-ne-nil n n

-- A separator that starts with a space is not found inside a text without spaces.
pub index_of-skip :
    (p s rest : Text)
    → All (λ c. 32 ≢ c) s
    → index_of (32 ∷ p) (s ++ rest) ≡ Option.map (λ i. length s + i) (index_of (32 ∷ p) rest)
unfolding index_of
index_of-skip p [] rest h = sym (Option-map-id _)
index_of-skip p (c ∷ s) rest h = elim (Bool-cases (32 == c)) [
  | inl same ↦ absurd (h.0 ((==_iff 32 c).0 same))
  | inr other ↦ rw (other, index_of-skip p s rest h.1) (Option-map-suc (length s) _)
]
