-- ===== src/Generator.antt =====
-- `generate` of frontend/src/components/PasswordGenerator.tsx: the alphabet that the switches choose,
-- and one character for each random 32-bit number.
pub mod Alphabet
use kypassword_server.Base.{
  ℕ, ◌%◌, Text, codes, is_empty, length, get_or, Bool, true, false, List, [], ◌∷◌, ◌++◌, map,
  if◌then◌else◌,
}

pub record Switches : Type 0 where
  pub upper : Bool
  pub lower : Bool
  pub numbers : Bool
  pub symbols : Bool

abbrev pub lower_case : Text
lower_case = codes "abcdefghijklmnopqrstuvwxyz"

abbrev pub upper_case : Text
upper_case = codes "ABCDEFGHIJKLMNOPQRSTUVWXYZ"

abbrev pub digits : Text
digits = codes "0123456789"

abbrev pub specials : Text
specials = codes "!@#$%^&*()_+-=[]{}|;:,.<>?"

abbrev add_if : Bool → Text → Text → Text
add_if b more chars = if b then chars ++ more else chars

abbrev or_lower : Text → Text
or_lower chars = if is_empty chars then lower_case else chars

unfoldable pub alphabet : Switches → Text
alphabet s = or_lower (
    add_if s.symbols specials
      (add_if s.numbers digits (add_if s.upper upper_case (add_if s.lower lower_case []))))

-- `array` holds as many random numbers as the password has characters.
unfoldable pub generate : Switches → List ℕ → Text
unfolding alphabet
generate s array = map (λ r. get_or (alphabet s) (r % length (alphabet s)) 0) array
