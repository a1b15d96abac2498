-- ===== src/Csv/Provider.antt =====
-- `normalizeHeader` and `detectCsvProvider` of frontend/src/lib/csvImport.ts.
pub mod Signature
use kypassword_server.Base.{
  ℕ, ◌+◌, Text, codes, equal, within, Bool, true, false, not, ◌&&◌, ◌||◌, List, [], ◌∷◌, ◌++◌, map,
  any, if◌then◌else◌, ◌==◌,
}

pub data CsvProvider : Type 0 where
  auto chrome onepassword bitwarden lastpass dashlane generic : CsvProvider

-- `PROVIDER_LABELS`.
abbrev pub label : CsvProvider → Text
label auto = codes "Auto-Detect Provider"
label chrome = codes "Google Chrome / Chromium"
label onepassword = codes "1Password"
label bitwarden = codes "Bitwarden"
label lastpass = codes "LastPass"
label dashlane = codes "DashPass / Dashlane"
label generic = codes "Generic CSV"

-- What is left of a unit after `toLowerCase` and the removal of all but a-z and 0-9. The two letters
-- outside ASCII whose lower case holds an ASCII letter are the Kelvin sign and the I with a dot.
unfoldable pub normalize_unit : ℕ → Text
normalize_unit c =
    if within b'A' b'Z' c
    then (c + 32) ∷ []
    else if within b'a' b'z' c || within b'0' b'9' c
    then c ∷ []
    else if c == 0x212a
    then b'k' ∷ []
    else if c == 0x130
    then b'i' ∷ []
    else []

unfoldable pub normalize_header : Text → Text
unfolding normalize_unit
normalize_header [] = []
normalize_header (c ∷ s) = normalize_unit c ++ normalize_header s

-- `headerSet.has(k)`.
abbrev pub has : List Text → Text → Bool
has headers k = any (λ h. equal h k) headers

abbrev pub is_bitwarden : (Text → Bool) → Bool
is_bitwarden h =
    h (codes "loginuri")
    || h (codes "loginusername")
    || h (codes "loginpassword")
    || h (codes "logintotp")

abbrev pub is_lastpass : (Text → Bool) → Bool
is_lastpass h =
    h (codes "grouping")
    || (h (codes "extra") && h (codes "url") && (h (codes "fav") || h (codes "username")))

abbrev pub is_dashlane : (Text → Bool) → Bool
is_dashlane h =
    h (codes "otpsecret")
    || h (codes "secondaryotpsecret")
    || (h (codes "category") && (h (codes "username2") || h (codes "username3")))

abbrev pub is_onepassword : (Text → Bool) → Bool
is_onepassword h =
    h (codes "otpauth")
    || h (codes "onetimepassword")
    || h (codes "authcode")
    || (h (codes "title")
        && (h (codes "notes") || h (codes "folder") || h (codes "section") || h (codes "type"))
        && (h (codes "otp") || h (codes "password") || h (codes "username")))

abbrev pub is_chrome : (Text → Bool) → Bool
is_chrome h =
    h (codes "name")
    && h (codes "url")
    && h (codes "username")
    && h (codes "password")
    && not (h (codes "grouping"))
    && not (h (codes "loginpassword"))

-- The order of the signatures' tests.
abbrev pub pick : Bool → Bool → Bool → Bool → Bool → CsvProvider
pick is_b is_l is_d is_o is_c =
    if is_b
    then bitwarden
    else if is_l
    then lastpass
    else if is_d
    then dashlane
    else if is_o
    then onepassword
    else if is_c
    then chrome
    else generic

unfoldable pub detect_in : (Text → Bool) → CsvProvider
detect_in h = pick (is_bitwarden h) (is_lastpass h) (is_dashlane h) (is_onepassword h) (is_chrome h)

unfoldable pub detect_csv_provider : List Text → CsvProvider
unfolding detect_in normalize_header equal
detect_csv_provider raw_headers = detect_in (has (map normalize_header raw_headers))
