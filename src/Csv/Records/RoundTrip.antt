-- ===== src/Csv/Records/RoundTrip.antt =====
-- The parser reads back what an RFC 4180 writer prints: every field quoted, quotes doubled, records
-- ended by a line feed or by a carriage return and a line feed.
use mathlib.Core.List.{append-nil, append_assoc}
use kypassword_server.Base.{
  ℕ, Text, Bool, true, false, List, [], ◌∷◌, ◌++◌, All, if◌then◌else◌, ◌==◌, ==_iff, Bool-cases,
  ◌≡◌, refl, ◌∙◌, ◌⊎◌, inl, inr, arith,
}
use kypassword_server.Csv.Records.{Scanner, has_content, scan}

-- The units of a field with quotes doubled, in front of what follows.
abbrev pub escaped : Text → Text → Text
escaped [] rest = rest
escaped (c ∷ f) rest = if c == b'"' then b'"' ∷ b'"' ∷ escaped f rest else c ∷ escaped f rest

abbrev pub quoted : Text → Text → Text
quoted f rest = b'"' ∷ escaped f (b'"' ∷ rest)

abbrev pub line_end : Bool → Text → Text
line_end true rest = 13 ∷ 10 ∷ rest
line_end false rest = 10 ∷ rest

-- One record; an empty one prints nothing.
abbrev pub row_text : ℕ → Bool → List Text → Text → Text
row_text d crlf [] rest = rest
row_text d crlf (f ∷ []) rest = quoted f (line_end crlf rest)
row_text d crlf (f ∷ g ∷ fs) rest = quoted f (d ∷ row_text d crlf (g ∷ fs) rest)

abbrev pub rows_text : ℕ → Bool → List (List Text) → Text
rows_text d crlf [] = []
rows_text d crlf (r ∷ rs) = row_text d crlf r (rows_text d crlf rs)

abbrev pub IsDelimiter : ℕ → Type 0
IsDelimiter d = (d ≡ b',') ⊎ (d ≡ b';') ⊎ (d ≡ 9)

abbrev pub state : Bool → List (List Text) → List Text → Text → Scanner
state q rows row field = record { rows = rows; row = row; field = field; in_quotes = q }

module _ (d : ℕ) (rows : List (List Text)) (row : List Text) where
  -- A unit inside quotes that is no quote.
  scan-quoted_unit :
      (c : ℕ) (field rest : Text)
      → (c == b'"') ≡ false
      → scan d (state true rows row field) (c ∷ rest)
        ≡ scan d (state true rows row (field ++ c ∷ [])) rest
  unfolding scan
  scan-quoted_unit c field [] e = ground arith
  scan-quoted_unit c field (n ∷ rest) e = ground arith

  scan-close :
      (e : ℕ) (field rest : Text)
      → (e == b'"') ≡ false
      → scan d (state true rows row field) (b'"' ∷ e ∷ rest)
        ≡ scan d (state false rows row field) (e ∷ rest)
  unfolding scan
  scan-close e field rest h = ground arith

  -- The rest of a quoted field, up to the closing quote and a unit that is no quote.
  scan-escaped :
      (e : ℕ) (f field rest : Text)
      → (e == b'"') ≡ false
      → scan d (state true rows row field) (escaped f (b'"' ∷ e ∷ rest))
        ≡ scan d (state false rows row (field ++ f)) (e ∷ rest)
  unfolding scan
  scan-escaped e [] field rest h = rw append-nil (scan-close e field rest h)
  scan-escaped e (c ∷ f) field rest h = elim (Bool-cases (c == b'"')) [
    | inl quote ↦
        let same : c ≡ b'"' = (==_iff c b'"').0 quote in
        rw same (scan-escaped e f (field ++ b'"' ∷ []) rest h ∙ rw append_assoc)
    | inr other ↦ rw other (
        scan-quoted_unit c field (escaped f (b'"' ∷ e ∷ rest)) other
        ∙ scan-escaped e f (field ++ c ∷ []) rest h
        ∙ rw append_assoc)
  ]

  scan-quote :
      (rest : Text)
      → scan d (state false rows row []) (b'"' ∷ rest) ≡ scan d (state true rows row []) rest
  unfolding scan
  scan-quote [] = refl
  scan-quote (c ∷ rest) = refl

  pub scan-quoted :
      (e : ℕ) (f rest : Text)
      → (e == b'"') ≡ false
      → scan d (state false rows row []) (quoted f (e ∷ rest))
        ≡ scan d (state false rows row f) (e ∷ rest)
  scan-quoted e f rest h = scan-quote (escaped f (b'"' ∷ e ∷ rest)) ∙ scan-escaped e f [] rest h

  pub scan-delimiter :
      (f rest : Text)
      → IsDelimiter d
      → scan d (state false rows row f) (d ∷ rest)
        ≡ scan d (state false rows (row ++ f ∷ []) []) rest
  unfolding scan
  scan-delimiter f [] h = ground arith
  scan-delimiter f (n ∷ rest) h = ground arith

  pub scan-line_end :
      (crlf : Bool) (f rest : Text)
      → IsDelimiter d
      → has_content (row ++ f ∷ []) ≡ true
      → scan d (state false rows row f) (line_end crlf rest)
        ≡ scan d (state false (rows ++ (row ++ f ∷ []) ∷ []) [] []) rest
  unfolding scan
  scan-line_end true f rest h c = ground arith
  scan-line_end false f [] h c = ground arith
  scan-line_end false f (n ∷ rest) h c = ground arith

-- A delimiter is no quote.
pub delimiter-ne-quote : (d : ℕ) → IsDelimiter d → (d == b'"') ≡ false
delimiter-ne-quote d h = ground arith

scan-quoted_end :
    (d : ℕ) (crlf : Bool) (rows : List (List Text)) (row : List Text) (f rest : Text)
    → scan d (state false rows row []) (quoted f (line_end crlf rest))
      ≡ scan d (state false rows row f) (line_end crlf rest)
scan-quoted_end d true rows row f rest = scan-quoted d rows row 13 f (10 ∷ rest) refl
scan-quoted_end d false rows row f rest = scan-quoted d rows row 10 f rest refl

module _ (d : ℕ) (crlf : Bool) (h : IsDelimiter d) where
  -- One record, from a row of which the fields `row` are read.
  scan-row_text :
      (rows : List (List Text)) (row : List Text) (f : Text) (fs : List Text) (rest : Text)
      → has_content (row ++ f ∷ fs) ≡ true
      → scan d (state false rows row []) (row_text d crlf (f ∷ fs) rest)
        ≡ scan d (state false (rows ++ (row ++ f ∷ fs) ∷ []) [] []) rest
  scan-row_text rows row f [] rest c =
      scan-quoted_end d crlf rows row f rest ∙ scan-line_end d rows row crlf f rest h c
  scan-row_text rows row f (g ∷ fs) rest c =
      scan-quoted d rows row d f (row_text d crlf (g ∷ fs) rest) (delimiter-ne-quote d h)
      ∙ scan-delimiter d rows row f (row_text d crlf (g ∷ fs) rest) h
      ∙ scan-row_text rows (row ++ f ∷ []) g fs rest (rw append_assoc c)
      ∙ rw append_assoc

  pub scan-rows_text :
      (rows rs : List (List Text))
      → All (λ r. has_content r ≡ true) rs
      → scan d (state false rows [] []) (rows_text d crlf rs) ≡ rows ++ rs
  scan-rows_text rows [] c = rw append-nil (unfold scan in refl)
  scan-rows_text rows ([] ∷ rs) c = absurd (ground arith)
  scan-rows_text rows ((f ∷ fs) ∷ rs) c =
      scan-row_text rows [] f fs (rows_text d crlf rs) c.0
      ∙ scan-rows_text (rows ++ (f ∷ fs) ∷ []) rs c.1
      ∙ rw append_assoc
