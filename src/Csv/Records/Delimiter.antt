-- ===== src/Csv/Records/Delimiter.antt =====
-- Which delimiter the parser settles on, and the parser as a whole.
use kypassword_server.Base.{
  ℕ, Text, is_blank, Bool, true, false, List, [], ◌∷◌, All, ◌≡◌, ◌≢◌, refl, ◌∙◌, ◌⊎◌, inl, inr,
  arith,
}
use kypassword_server.Csv.Records.{
  initial, has_content, count_unit, first_line, detect_delimiter, scan, parse_csv_records,
}
use kypassword_server.Csv.Records.RoundTrip.{
  escaped, line_end, row_text, rows_text, IsDelimiter, scan-rows_text,
}

-- A text whose first unit is a quote is no blank text and has no byte order mark.
is_blank-quote : (s : Text) → is_blank (b'"' ∷ s) ≡ false
unfolding is_blank
is_blank-quote s = ground arith

-- Rows that print as a text that starts with a quote.
rows_text-head :
    (d : ℕ) (crlf : Bool) (r : List Text) (rs : List (List Text))
    → has_content r ≡ true
    → (s : Text) × (rows_text d crlf (r ∷ rs) ≡ b'"' ∷ s)
rows_text-head d crlf [] rs c = absurd (ground arith)
rows_text-head d crlf (f ∷ []) rs c = (_, refl)
rows_text-head d crlf (f ∷ g ∷ fs) rs c = (_, refl)

parse_csv_records-scan :
    (s : Text)
    → parse_csv_records (b'"' ∷ s) ≡ scan (detect_delimiter (b'"' ∷ s)) initial (b'"' ∷ s)
unfolding parse_csv_records
parse_csv_records-scan s = rw (is_blank-quote s)

parse_csv_records-quoted :
    (t s : Text) → t ≡ b'"' ∷ s → parse_csv_records t ≡ scan (detect_delimiter t) initial t
parse_csv_records-quoted t s e = rw e (parse_csv_records-scan s)

-- If the delimiter of the writer is the one that the parser settles on, then the parser returns the
-- records that were written, whatever their fields hold; each record must have a field that is not
-- blank.
pub parse_csv_records-rows_text :
    (d : ℕ) (crlf : Bool) (rs : List (List Text))
    → IsDelimiter d
    → All (λ r. has_content r ≡ true) rs
    → detect_delimiter (rows_text d crlf rs) ≡ d
    → parse_csv_records (rows_text d crlf rs) ≡ rs
parse_csv_records-rows_text d crlf [] h c e = unfold parse_csv_records in refl
parse_csv_records-rows_text d crlf (r ∷ rs) h c e =
    let (s, head) = rows_text-head d crlf r rs c.0 in
    parse_csv_records-quoted (rows_text d crlf (r ∷ rs)) s head
    ∙ rw e (scan-rows_text d crlf h [] (r ∷ rs) c)

-- A unit that a header of comma-separated columns may hold: no line end, no semicolon, no tab.
abbrev pub IsHeaderUnit : ℕ → Type 0
IsHeaderUnit c = (c ≢ 13) × (c ≢ 10) × (c ≢ b';') × (c ≢ 9)

module _ (u : ℕ) (other : (u ≡ b';') ⊎ (u ≡ 9)) where
  pub count-escaped :
      (f rest : Text)
      → All IsHeaderUnit f
      → count_unit u (first_line (escaped f (b'"' ∷ rest))) ≡ count_unit u (first_line rest)
  unfolding first_line
  count-escaped [] rest h = ground arith
  count-escaped (c ∷ f) rest h = ground (arith, count-escaped f rest h.1)

  pub count-line_end :
      (crlf : Bool) (rest : Text) → count_unit u (first_line (line_end crlf rest)) ≡ 0
  unfolding first_line
  count-line_end true rest = refl
  count-line_end false rest = refl

  count-row_text :
      (crlf : Bool) (f : Text) (fs : List Text) (rest : Text)
      → All (All IsHeaderUnit) (f ∷ fs)
      → count_unit u (first_line (row_text b',' crlf (f ∷ fs) rest)) ≡ 0
  unfolding first_line
  count-row_text crlf f [] rest h =
      ground (arith, count-escaped f (line_end crlf rest) h.0, count-line_end crlf rest)
  count-row_text crlf f (g ∷ fs) rest h = ground (
    arith,
    count-escaped f (b',' ∷ row_text b',' crlf (g ∷ fs) rest) h.0,
    count-row_text crlf g fs rest h.1,
  )

pub detect_delimiter-comma :
    (s : Text)
    → count_unit b';' (first_line s) ≡ 0
    → count_unit 9 (first_line s) ≡ 0
    → detect_delimiter s ≡ b','
unfolding detect_delimiter
detect_delimiter-comma s a b = rw (a, b) (ground arith)

-- A comma-separated file, with quoted fields of any content below a header whose names hold no line
-- end, semicolon or tab, is read back record by record, if each record has a field that is not blank.
pub parse_csv_records-comma :
    (crlf : Bool) (header : List Text) (rs : List (List Text))
    → All (All IsHeaderUnit) header
    → All (λ r. has_content r ≡ true) (header ∷ rs)
    → parse_csv_records (rows_text b',' crlf (header ∷ rs)) ≡ header ∷ rs
parse_csv_records-comma crlf [] rs h c = absurd (ground arith)
parse_csv_records-comma crlf (f ∷ fs) rs h c =
    let rest = rows_text b',' crlf rs in
    parse_csv_records-rows_text b',' crlf ((f ∷ fs) ∷ rs) (inl refl) c (
      detect_delimiter-comma (row_text b',' crlf (f ∷ fs) rest)
        (count-row_text b';' (inl refl) crlf f fs rest h)
        (count-row_text 9 (inr refl) crlf f fs rest h))
