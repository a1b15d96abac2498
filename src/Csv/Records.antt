-- ===== src/Csv/Records.antt =====
-- `parseCsvRecords` of frontend/src/lib/csvImport.ts: the delimiter, and the machine that reads the
-- records. The loop looks at one unit and at the next one, which some steps skip.
pub mod RoundTrip
pub mod Delimiter
pub mod Bare
use kypassword_server.Base.{
  ℕ, Text, is_blank, is_empty, Bool, true, false, not, ◌&&◌, ◌||◌, Option, none, some, List, [],
  ◌∷◌, ◌++◌, any, count_by, if◌then◌else◌, ltb, ◌==◌,
}

pub record Scanner : Type 0 where
  pub rows : List (List Text)
  pub row : List Text
  pub field : Text
  pub in_quotes : Bool

abbrev pub initial : Scanner
initial = record { rows = []; row = []; field = []; in_quotes = false }

-- `c.trim().length > 0` for some field of the row.
abbrev pub has_content : List Text → Bool
has_content = any (λ c. not (is_blank c))

abbrev pub keep_row : List Text → List (List Text) → List (List Text)
keep_row row rows = if has_content row then rows ++ row ∷ [] else rows

abbrev add_unit : ℕ → Scanner → Scanner
add_unit c s = record s { field = s.field ++ c ∷ [] }

abbrev pub end_field : Scanner → Scanner
end_field s = record s { row = s.row ++ s.field ∷ []; field = [] }

abbrev pub end_row : Scanner → Scanner
end_row s =
    let row = s.row ++ s.field ∷ [] in record s { rows = keep_row row s.rows; row = []; field = [] }

abbrev is_next : ℕ → Option ℕ → Bool
is_next c none = false
is_next c (some n) = n == c

quoted_unit : Scanner → ℕ → Option ℕ → Scanner × Bool
quoted_unit s c next =
    if c == b'"'
    then (if is_next b'"' next
        then (add_unit b'"' s, true)
        else (record s { in_quotes = false }, false))
    else (add_unit c s, false)

plain_unit : ℕ → Scanner → ℕ → Option ℕ → Scanner × Bool
plain_unit delimiter s c next =
    if c == b'"'
    then (record s { in_quotes = true }, false)
    else if c == delimiter
    then (end_field s, false)
    else if c == 13
    then (end_row s, is_next 10 next)
    else if c == 10
    then (end_row s, false)
    else (add_unit c s, false)

-- The body of the loop: the new state, and whether the next unit is skipped.
unfoldable pub scan_unit : ℕ → Scanner → ℕ → Option ℕ → Scanner × Bool
unfolding quoted_unit plain_unit
scan_unit delimiter s c next =
    if s.in_quotes then quoted_unit s c next else plain_unit delimiter s c next

abbrev is_empty_row : List Text → Bool
is_empty_row [] = true
is_empty_row (_ ∷ _) = false

-- `Push remainder`.
unfoldable pub finish : Scanner → List (List Text)
finish s =
    if not (is_empty s.field) || not (is_empty_row s.row)
    then keep_row (s.row ++ s.field ∷ []) s.rows
    else s.rows

unfoldable pub scan : ℕ → Scanner → Text → List (List Text)
unfolding scan_unit finish
scan delimiter s [] = finish s
scan delimiter s (c ∷ []) = finish (scan_unit delimiter s c none).0
scan delimiter s (c ∷ n ∷ rest) =
    let (s', skip) = scan_unit delimiter s c (some n) in
    elim skip [ true ↦ scan delimiter s' rest | false ↦ scan delimiter s' (n ∷ rest) ]

-- `cleanText.split(/\r\n|\n|\r/)[0]`.
unfoldable pub first_line : Text → Text
first_line [] = []
first_line (c ∷ s) = if c == 13 || c == 10 then [] else c ∷ first_line s

abbrev pub count_unit : ℕ → Text → ℕ
count_unit u = count_by (λ c. c == u)

unfoldable pub detect_delimiter : Text → ℕ
unfolding first_line
detect_delimiter text =
    let line = first_line text in
    let commas = count_unit b',' line in
    let semicolons = count_unit b';' line in
    let tabs = count_unit 9 line in
    if ltb commas semicolons && ltb tabs semicolons
    then b';'
    else if ltb commas tabs && ltb semicolons tabs
    then 9
    else b','

-- A byte order mark at the start is dropped.
unfoldable pub clean : Text → Text
clean [] = []
clean (c ∷ s) = if c == 0xfeff then s else c ∷ s

unfoldable pub parse_csv_records : Text → List (List Text)
unfolding scan detect_delimiter clean is_blank
parse_csv_records text =
    let s = clean text in if is_blank s then [] else scan (detect_delimiter s) initial s
