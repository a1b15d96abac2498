-- ===== src/Csv/Records/Bare.antt =====
-- A comma-separated writer that leaves fields bare, and the parser of frontend/src/lib/csvImport.ts on what
-- it prints: a field is quoted if it holds a comma, a quote or a line end, and of the others those
-- that the writer chooses.
use mathlib.Core.List.{append-nil, append_assoc}
use kypassword_server.Base.{
  ℕ, Text, any, is_blank, trim, trim_start, trim_end, is_space, Bool, true, false, ◌||◌, List, [],
  ◌∷◌, ◌++◌, All, if◌then◌else◌, ◌==◌, Bool-cases, ◌≡◌, refl, ◌∙◌, ◌⊎◌, inl, inr, arith,
}
use kypassword_server.Csv.Records.{
  initial, has_content, count_unit, first_line, detect_delimiter, clean, scan, parse_csv_records,
}
use kypassword_server.Csv.Records.RoundTrip.{
  quoted, line_end, state, scan-quoted, scan-delimiter, scan-line_end,
}
use kypassword_server.Csv.Records.Delimiter.{
  IsHeaderUnit, count-escaped, count-line_end, detect_delimiter-comma,
}

-- A comma, a quote or a line end.
abbrev is_special : ℕ → Bool
is_special c = c == b',' || c == b'"' || c == 13 || c == 10

abbrev pub needs_quotes : Text → Bool
needs_quotes f = any is_special f

module _ (rows : List (List Text)) (row : List Text) where
  scan-bare_unit :
      (c : ℕ) (field rest : Text)
      → is_special c ≡ false
      → scan b',' (state false rows row field) (c ∷ rest)
        ≡ scan b',' (state false rows row (field ++ c ∷ [])) rest
  unfolding scan
  scan-bare_unit c field [] h = ground arith
  scan-bare_unit c field (n ∷ rest) h = ground arith

  -- A field without special units goes from the text to the scanner's field, unit by unit.
  scan-bare :
      (f field rest : Text)
      → needs_quotes f ≡ false
      → scan b',' (state false rows row field) (f ++ rest)
        ≡ scan b',' (state false rows row (field ++ f)) rest
  scan-bare [] field rest h = rw append-nil refl
  scan-bare (c ∷ f) field rest h =
      scan-bare_unit c field (f ++ rest) (ground arith)
      ∙ scan-bare f (field ++ c ∷ []) rest (ground arith)
      ∙ rw append_assoc

-- `more` is the choice of fields that are quoted without need.
module _ (more : Text → Bool) where
  abbrev pub field_text : Text → Text → Text
  field_text f rest = if needs_quotes f || more f then quoted f rest else f ++ rest

  -- One record; an empty one prints nothing.
  abbrev pub record_text : Bool → List Text → Text → Text
  record_text crlf [] rest = rest
  record_text crlf (f ∷ []) rest = field_text f (line_end crlf rest)
  record_text crlf (f ∷ g ∷ fs) rest = field_text f (b',' ∷ record_text crlf (g ∷ fs) rest)

  abbrev pub records_text : Bool → List (List Text) → Text
  records_text crlf [] = []
  records_text crlf (r ∷ rs) = record_text crlf r (records_text crlf rs)

  scan-field_text :
      (rows : List (List Text)) (row : List Text) (e : ℕ) (f rest : Text)
      → (e == b'"') ≡ false
      → scan b',' (state false rows row []) (field_text f (e ∷ rest))
        ≡ scan b',' (state false rows row f) (e ∷ rest)
  scan-field_text rows row e f rest h = elim (Bool-cases (needs_quotes f || more f)) [
    | inl quotes ↦ rw quotes (scan-quoted b',' rows row e f rest h)
    | inr bare ↦ rw bare (scan-bare rows row f [] (e ∷ rest) (ground arith))
  ]

  scan-field_end :
      (crlf : Bool) (rows : List (List Text)) (row : List Text) (f rest : Text)
      → scan b',' (state false rows row []) (field_text f (line_end crlf rest))
        ≡ scan b',' (state false rows row f) (line_end crlf rest)
  scan-field_end true rows row f rest = scan-field_text rows row 13 f (10 ∷ rest) refl
  scan-field_end false rows row f rest = scan-field_text rows row 10 f rest refl

  scan-record_text :
      (crlf : Bool) (rows : List (List Text)) (row : List Text) (f : Text) (fs : List Text)
      (rest : Text)
      → has_content (row ++ f ∷ fs) ≡ true
      → scan b',' (state false rows row []) (record_text crlf (f ∷ fs) rest)
        ≡ scan b',' (state false (rows ++ (row ++ f ∷ fs) ∷ []) [] []) rest
  scan-record_text crlf rows row f [] rest c =
      scan-field_end crlf rows row f rest ∙ scan-line_end b',' rows row crlf f rest (inl refl) c
  scan-record_text crlf rows row f (g ∷ fs) rest c =
      scan-field_text rows row b',' f (record_text crlf (g ∷ fs) rest) refl
      ∙ scan-delimiter b',' rows row f (record_text crlf (g ∷ fs) rest) (inl refl)
      ∙ scan-record_text crlf rows (row ++ f ∷ []) g fs rest (rw append_assoc c)
      ∙ rw append_assoc

  scan-records_text :
      (crlf : Bool) (rows rs : List (List Text))
      → All (λ r. has_content r ≡ true) rs
      → scan b',' (state false rows [] []) (records_text crlf rs) ≡ rows ++ rs
  scan-records_text crlf rows [] c = rw append-nil (unfold scan in refl)
  scan-records_text crlf rows ([] ∷ rs) c = absurd (ground arith)
  scan-records_text crlf rows ((f ∷ fs) ∷ rs) c =
      scan-record_text crlf rows [] f fs (records_text crlf rs) c.0
      ∙ scan-records_text crlf (rows ++ (f ∷ fs) ∷ []) rs c.1
      ∙ rw append_assoc

  module _ (u : ℕ) (other : (u ≡ b';') ⊎ (u ≡ 9)) where
    count-bare :
        (f rest : Text)
        → All IsHeaderUnit f
        → count_unit u (first_line (f ++ rest)) ≡ count_unit u (first_line rest)
    unfolding first_line
    count-bare [] rest h = refl
    count-bare (c ∷ f) rest h = ground (arith, count-bare f rest h.1)

    count-quoted :
        (f rest : Text)
        → All IsHeaderUnit f
        → count_unit u (first_line (quoted f rest)) ≡ count_unit u (first_line rest)
    unfolding first_line
    count-quoted f rest h = ground (arith, count-escaped u other f rest h)

    count-field_text :
        (f rest : Text)
        → All IsHeaderUnit f
        → count_unit u (first_line (field_text f rest)) ≡ count_unit u (first_line rest)
    count-field_text f rest h = elim (Bool-cases (needs_quotes f || more f)) [
      | inl quotes ↦ rw quotes (count-quoted f rest h)
      | inr bare ↦ rw bare (count-bare f rest h)
    ]

    count-comma :
        (rest : Text) → count_unit u (first_line (b',' ∷ rest)) ≡ count_unit u (first_line rest)
    unfolding first_line
    count-comma rest = ground arith

    count-record_text :
        (crlf : Bool) (f : Text) (fs : List Text) (rest : Text)
        → All (All IsHeaderUnit) (f ∷ fs)
        → count_unit u (first_line (record_text crlf (f ∷ fs) rest)) ≡ 0
    count-record_text crlf f [] rest h =
        count-field_text f (line_end crlf rest) h.0 ∙ count-line_end u other crlf rest
    count-record_text crlf f (g ∷ fs) rest h =
        count-field_text f (b',' ∷ record_text crlf (g ∷ fs) rest) h.0
        ∙ count-comma (record_text crlf (g ∷ fs) rest)
        ∙ count-record_text crlf g fs rest h.1

  is_blank-visible : (c : ℕ) (s : Text) → is_space c ≡ false → is_blank (c ∷ s) ≡ false
  unfolding is_blank trim trim_start trim_end
  is_blank-visible c s h = ground (arith, h)

  clean-keep : (c : ℕ) (s : Text) → (c == 0xfeff) ≡ false → clean (c ∷ s) ≡ c ∷ s
  unfolding clean
  clean-keep c s h = rw h refl

  parse_csv_records-scan :
      (c : ℕ) (s : Text)
      → is_space c ≡ false
      → (c == 0xfeff) ≡ false
      → parse_csv_records (c ∷ s) ≡ scan (detect_delimiter (c ∷ s)) initial (c ∷ s)
  unfolding parse_csv_records
  parse_csv_records-scan c s h b = rw (clean-keep c s b, is_blank-visible c s h)

  -- The text of a first field that is not empty starts with a quote or with the field's first unit.
  parse_csv_records-field_text :
      (c : ℕ) (f rest : Text)
      → is_space c ≡ false
      → (c == 0xfeff) ≡ false
      → let t = field_text (c ∷ f) rest in parse_csv_records t ≡ scan (detect_delimiter t) initial t
  parse_csv_records-field_text c f rest h b =
      elim (Bool-cases (needs_quotes (c ∷ f) || more (c ∷ f))) [
        | inl quotes ↦ rw quotes (parse_csv_records-scan b'"' _ (unfold is_space in refl) refl)
        | inr bare ↦ rw bare (parse_csv_records-scan c (f ++ rest) h b)
      ]

  parse_csv_records-record_text :
      (crlf : Bool) (c : ℕ) (f : Text) (fs : List Text) (rest : Text)
      → is_space c ≡ false
      → (c == 0xfeff) ≡ false
      → let t = record_text crlf ((c ∷ f) ∷ fs) rest in
        parse_csv_records t ≡ scan (detect_delimiter t) initial t
  parse_csv_records-record_text crlf c f [] rest h b =
      parse_csv_records-field_text c f (line_end crlf rest) h b
  parse_csv_records-record_text crlf c f (g ∷ fs) rest h b =
      parse_csv_records-field_text c f (b',' ∷ record_text crlf (g ∷ fs) rest) h b

  -- A comma-separated file, with bare and quoted fields below a header whose names hold no line end,
  -- semicolon or tab and do not start with white space or a byte order mark, is read back record by
  -- record, if each record has a field that is not blank.
  pub parse_csv_records-records_text :
      (crlf : Bool) (c : ℕ) (f : Text) (fs : List Text) (rs : List (List Text))
      → is_space c ≡ false
      → (c == 0xfeff) ≡ false
      → All (All IsHeaderUnit) ((c ∷ f) ∷ fs)
      → All (λ r. has_content r ≡ true) (((c ∷ f) ∷ fs) ∷ rs)
      → parse_csv_records (records_text crlf (((c ∷ f) ∷ fs) ∷ rs)) ≡ ((c ∷ f) ∷ fs) ∷ rs
  parse_csv_records-records_text crlf c f fs rs h b units content =
      let rest = records_text crlf rs in
      let comma =
        detect_delimiter-comma (record_text crlf ((c ∷ f) ∷ fs) rest)
          (count-record_text b';' (inl refl) crlf (c ∷ f) fs rest units)
          (count-record_text 9 (inr refl) crlf (c ∷ f) fs rest units) in
      parse_csv_records-record_text crlf c f fs rest h b
      ∙ rw comma (scan-records_text crlf [] (((c ∷ f) ∷ fs) ∷ rs) content)
