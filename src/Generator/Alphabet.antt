-- ===== src/Generator/Alphabet.antt =====
-- A generated password has the wanted length and only characters of the chosen kinds.
use kypassword_server.Base.{
  ℕ, zero, suc, ◌%◌, ◌<◌, within, length, length-map, get_or, any, all, All, Bool, true, false,
  ◌&&◌, ◌||◌, if◌then◌else◌, List, [], ◌∷◌, ◌==◌, ◌≡◌, refl, arith,
}
use native.Mathlib.Nat.{mod-lt}
use kypassword_server.Generator.{Switches, specials, alphabet, generate}

-- One of the four kinds is switched on.
abbrev pub any_on : Switches → Bool
any_on s = s.upper || s.lower || s.numbers || s.symbols

-- A character of a kind that is switched on.
abbrev pub of_kind_on : Switches → ℕ → Bool
of_kind_on s c =
    (s.upper && within b'A' b'Z' c)
    || (s.lower && within b'a' b'z' c)
    || (s.numbers && within b'0' b'9' c)
    || (s.symbols && any (λ d. d == c) specials)

abbrev pub small_letter : ℕ → Bool
small_letter c = within b'a' b'z' c

-- What a character must be: of a kind that is on or, with the four switches off, a small letter.
abbrev pub allowed : Switches → ℕ → Bool
allowed s c = if any_on s then of_kind_on s c else small_letter c

alphabet-allowed :
    (u l n y : Bool)
    → let s : Switches = record { upper = u; lower = l; numbers = n; symbols = y } in
      (all (allowed s) (alphabet s) ≡ true) × (0 < length (alphabet s))
unfolding alphabet
alphabet-allowed true true true true = (refl, omega arith)
alphabet-allowed true true true false = (refl, omega arith)
alphabet-allowed true true false true = (refl, omega arith)
alphabet-allowed true true false false = (refl, omega arith)
alphabet-allowed true false true true = (refl, omega arith)
alphabet-allowed true false true false = (refl, omega arith)
alphabet-allowed true false false true = (refl, omega arith)
alphabet-allowed true false false false = (refl, omega arith)
alphabet-allowed false true true true = (refl, omega arith)
alphabet-allowed false true true false = (refl, omega arith)
alphabet-allowed false true false true = (refl, omega arith)
alphabet-allowed false true false false = (refl, omega arith)
alphabet-allowed false false true true = (refl, omega arith)
alphabet-allowed false false true false = (refl, omega arith)
alphabet-allowed false false false true = (refl, omega arith)
alphabet-allowed false false false false = (refl, omega arith)

all-get_or :
    (p : ℕ → Bool) (xs : List ℕ) (i d : ℕ)
    → all p xs ≡ true
    → i < length xs
    → p (get_or xs i d) ≡ true
all-get_or p [] i d h lt = absurd (omega arith)
all-get_or p (x ∷ xs) zero d h lt = ground arith
all-get_or p (x ∷ xs) (suc i) d h lt = ground (arith, all-get_or p xs i d)

characters-allowed :
    (s : Switches) (rs : List ℕ)
    → all (allowed s) (alphabet s) ≡ true
    → 0 < length (alphabet s)
    → All (λ c. allowed s c ≡ true) (generate s rs)
unfolding generate
characters-allowed s [] h pos = tt
characters-allowed s (r ∷ rs) h pos = (
  all-get_or (allowed s) (alphabet s) (r % length (alphabet s)) 0 h (mod-lt r pos),
  characters-allowed s rs h pos,
)

-- The password has one character for each random number. With at least one of the four switches on, every
-- character is of a kind that is switched on; with all four off, every character is a small letter.
pub generate-allowed :
    (s : Switches) (array : List ℕ)
    → (length (generate s array) ≡ length array)
      × All (λ c. (if any_on s then of_kind_on s c else small_letter c) ≡ true) (generate s array)
unfolding generate
generate-allowed s array =
    let (h, pos) = alphabet-allowed s.upper s.lower s.numbers s.symbols in
    (length-map array _, characters-allowed s array h pos)
