-- ===== src/Csv/Provider/Signature.antt =====
-- The detection of the provider sees a set of columns, and more columns only move it to an earlier
-- signature.
use mathlib.Core.List.{map-append}
use mathlib.Core.Path.{fun_ext}
use kypassword_server.Base.{
  ℕ, ◌≤◌, Text, codes, Bool, true, false, List, [], ◌∷◌, ◌++◌, map, any-append, ◌≡◌, refl, ap, ◌∙◌,
  arith,
}
use kypassword_server.Csv.Provider.{
  CsvProvider, auto, chrome, onepassword, bitwarden, lastpass, dashlane, generic, normalize_unit,
  normalize_header, has, is_bitwarden, is_lastpass, is_dashlane, is_onepassword, is_chrome,
  detect_in, pick, detect_csv_provider,
}

normalize_header-unit :
    (c : ℕ) (s : Text)
    → normalize_header (normalize_unit c ++ s) ≡ normalize_unit c ++ normalize_header s
unfolding normalize_header
normalize_header-unit c s = ground arith

-- Normalising a header a second time changes nothing.
pub normalize_header_idem : (s : Text) → normalize_header (normalize_header s) ≡ normalize_header s
unfolding normalize_header
normalize_header_idem [] = refl
normalize_header_idem (c ∷ s) =
    normalize_header-unit c (normalize_header s)
    ∙ ap (λ t. normalize_unit c ++ t) (normalize_header_idem s)

-- The order in which the signatures are tried.
abbrev pub rank : CsvProvider → ℕ
rank bitwarden = 0
rank lastpass = 1
rank dashlane = 2
rank onepassword = 3
rank chrome = 4
rank generic = 5
rank auto = 6

pick-rank :
    (b l d o c b' l' d' o' c' : Bool)
    → (b ≡ true → b' ≡ true)
    → (l ≡ true → l' ≡ true)
    → (d ≡ true → d' ≡ true)
    → (o ≡ true → o' ≡ true)
    → (c ≡ true → b' ≡ false → l' ≡ false → c' ≡ true)
    → rank (pick b' l' d' o' c') ≤ rank (pick b l d o c)
pick-rank b l d o c b' l' d' o' c' hb hl hd ho hc = ground arith

module _ (h k : Text → Bool) (more : (t : Text) → h t ≡ true → k t ≡ true) where
  bitwarden_mono : is_bitwarden h ≡ true → is_bitwarden k ≡ true
  bitwarden_mono p = ground (
    arith,
    more (codes "loginuri"),
    more (codes "loginusername"),
    more (codes "loginpassword"),
    more (codes "logintotp"),
  )

  lastpass_mono : is_lastpass h ≡ true → is_lastpass k ≡ true
  lastpass_mono p = ground (
    arith,
    more (codes "grouping"),
    more (codes "extra"),
    more (codes "url"),
    more (codes "fav"),
    more (codes "username"),
  )

  dashlane_mono : is_dashlane h ≡ true → is_dashlane k ≡ true
  dashlane_mono p = ground (
    arith,
    more (codes "otpsecret"),
    more (codes "secondaryotpsecret"),
    more (codes "category"),
    more (codes "username2"),
    more (codes "username3"),
  )

  onepassword_mono : is_onepassword h ≡ true → is_onepassword k ≡ true
  onepassword_mono p = ground (
    arith,
    more (codes "otpauth"),
    more (codes "onetimepassword"),
    more (codes "authcode"),
    more (codes "title"),
    more (codes "notes"),
    more (codes "folder"),
    more (codes "section"),
    more (codes "type"),
    more (codes "otp"),
    more (codes "password"),
    more (codes "username"),
  )

  chrome_mono :
      is_chrome h ≡ true → is_bitwarden k ≡ false → is_lastpass k ≡ false → is_chrome k ≡ true
  chrome_mono p b l = ground (
    arith,
    more (codes "name"),
    more (codes "url"),
    more (codes "username"),
    more (codes "password"),
  )

  detect_in-rank : rank (detect_in k) ≤ rank (detect_in h)
  unfolding detect_in
  detect_in-rank =
      pick-rank (is_bitwarden h) (is_lastpass h) (is_dashlane h) (is_onepassword h) (is_chrome h)
        (is_bitwarden k) (is_lastpass k) (is_dashlane k) (is_onepassword k) (is_chrome k)
        bitwarden_mono lastpass_mono dashlane_mono onepassword_mono chrome_mono

-- More columns never move the detected provider to a later signature: a file that shows a signature
-- keeps at least that one, whatever columns stand behind it.
pub detect_csv_provider-rank :
    (xs ys : List Text) → rank (detect_csv_provider (xs ++ ys)) ≤ rank (detect_csv_provider xs)
unfolding detect_csv_provider
detect_csv_provider-rank xs ys =
    detect_in-rank (has (map normalize_header xs)) (has (map normalize_header (xs ++ ys)))
      (λ t e. rw (map-append, any-append) (ground arith))

-- Only the set of normalised columns counts: not their order, repetition, case or punctuation.
pub detect_csv_provider-set :
    (xs ys : List Text)
    → ((t : Text) → has (map normalize_header xs) t ≡ has (map normalize_header ys) t)
    → detect_csv_provider xs ≡ detect_csv_provider ys
unfolding detect_csv_provider
detect_csv_provider-set xs ys same = ap detect_in (fun_ext same)
