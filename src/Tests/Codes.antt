-- ===== src/Tests/Codes.antt =====
-- One-time passwords, generated passwords and conflicts at concrete inputs.
use kypassword_server.Base.{
  Text, codes, length, All, replicate, true, false, List, [], ◌∷◌, ◌≡◌, refl, arith,
}
use kypassword_server.Crypto.{Bytes}
use kypassword_server.Totp.{base32_decode, counter_bytes, Settings}
use kypassword_server.Totp.Secret.{symbol, base32_decode-base32_encode}
use kypassword_server.Totp.Counter.{big_endian, counter_bytes-big_endian, counter_bytes_negative}
use kypassword_server.Generator.{Switches, generate}
use kypassword_server.Generator.Alphabet.{of_kind_on, generate-allowed}
use kypassword_server.Conflict.{Entry}

abbrev same : Text → Text
same t = t

base32_decode-base32_encode_example : base32_decode same (codes "JBSWY3A=") ≡ codes "Hell"
unfolding symbol
base32_decode-base32_encode_example =
    base32_decode-base32_encode same (codes "JBSWY3A=") (codes "Hell") 1 (omega arith) refl

counter_bytes-big_endian_example : counter_bytes 58824970 ≡ big_endian 8 58824970 []
counter_bytes-big_endian_example = counter_bytes-big_endian 58824970 (omega arith)

counter_bytes_negative_example :
    counter_bytes 2147483653 ≡ 255 ∷ 255 ∷ 255 ∷ 255 ∷ 128 ∷ 0 ∷ 0 ∷ 5 ∷ []
counter_bytes_negative_example = counter_bytes_negative 2147483653 (omega arith) (omega arith)

abbrev settings : Settings
settings = record { secret = []; digits = 6; time_step = 30 }

abbrev mac : Bytes → Bytes → Bytes
mac key counter = replicate 20 1

abbrev switches : Switches
switches = record { upper = false; lower = true; numbers = true; symbols = false }

generate-allowed_example :
    (length (generate switches (5 ∷ 4294967295 ∷ 36 ∷ [])) ≡ 3)
    × All (λ c. of_kind_on switches c ≡ true) (generate switches (5 ∷ 4294967295 ∷ 36 ∷ []))
generate-allowed_example = generate-allowed switches (5 ∷ 4294967295 ∷ 36 ∷ [])

abbrev entry : Text → Text → Entry
entry id password = record {
  uuid = id;
  title = codes "Mail";
  username = [];
  password = password;
  url = [];
  notes = [];
  totp_seed = [];
}

abbrev vault : List Entry
vault = entry (codes "a") (codes "old") ∷ entry (codes "b") (codes "pw") ∷ []
