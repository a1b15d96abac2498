-- ===== src/Csv/Duplicates.antt =====
-- `importContentKey` and `findDuplicateImports` of frontend/src/lib/csvImport.ts. `stringify` stands
-- for `JSON.stringify` of an array of strings. A `Set` is a list of which only membership is read.
use kypassword_server.Base.{
  inr, inl, Text, codes, equal, equal_refl, or_else, any, Bool, false, ◌&&◌, ◌||◌, List, [], ◌∷◌,
  ◌++◌, map, ◌≡◌, refl, arith, if◌then◌else◌, Bool-cases, All,
}
use kypassword_server.Csv.Rows.{ImportedEntryPreview}
use kypassword_server.Vault.Update.{VaultEntry}

abbrev pub has : List Text → Text → Bool
has keys k = any (λ j. equal j k) keys

module _ (stringify : List Text → Text) where
  -- The keys of a vault's entry and of an import.
  unfoldable pub import_content_key : Text → Text → Text → Text → Text → Text → Text
  import_content_key title username password url notes totp_seed =
      stringify (title ∷ username ∷ password ∷ url ∷ notes ∷ totp_seed ∷ [])

  abbrev pub live_key : VaultEntry → Text
  live_key e = import_content_key e.title e.username e.password e.url e.notes e.totp_seed

  abbrev pub preview_key : ImportedEntryPreview → Text
  preview_key e =
      import_content_key (or_else e.title (codes "Untitled")) e.username e.password e.url e.notes
        e.totp_seed

  -- The loop, with the keys that were seen before it: the ids of the duplicates.
  unfoldable pub duplicates : List Text → List ImportedEntryPreview → List Text
  duplicates seen [] = []
  duplicates seen (e ∷ es) =
      let rest = duplicates (if e.selected then preview_key e ∷ seen else seen) es in
      if has seen (preview_key e) then e.id ∷ rest else rest

  unfoldable pub find_duplicate_imports : List VaultEntry → List ImportedEntryPreview → List Text
  unfolding duplicates
  find_duplicate_imports live entries = duplicates (map live_key live) entries

  -- The entries have other ids than `i`.
  abbrev pub IsOther : Text → ImportedEntryPreview → Type 0
  IsOther i e = equal e.id i ≡ false

  abbrev pub earlier : Text → List ImportedEntryPreview → Bool
  earlier k = any (λ x. x.selected && equal (preview_key x) k)

  duplicates_other :
      (i : Text) (seen : List Text) (es : List ImportedEntryPreview)
      → All (IsOther i) es
      → has (duplicates seen es) i ≡ false
  unfolding duplicates
  duplicates_other i seen [] h = refl
  duplicates_other i seen (e ∷ es) h =
      let rest = duplicates_other i (if e.selected then preview_key e ∷ seen else seen) es h.1 in
      elim (Bool-cases (has seen (preview_key e))) [
        | inl y ↦ rw (y, h.0, rest)
        | inr n ↦ rw (n, rest)
      ]

  seen_or_earlier :
      (s : Bool) (k x : Text) (seen : List Text) (b : Bool)
      → (has (if s then x ∷ seen else seen) k || b) ≡ (has seen k || (s && equal x k || b))
  seen_or_earlier s k x seen b = ground arith

  has-duplicates :
      (seen : List Text) (xs : List ImportedEntryPreview) (e : ImportedEntryPreview)
      (ys : List ImportedEntryPreview)
      → All (IsOther e.id) xs
      → All (IsOther e.id) ys
      → has (duplicates seen (xs ++ e ∷ ys)) e.id
        ≡ (has seen (preview_key e) || earlier (preview_key e) xs)
  unfolding duplicates
  has-duplicates seen [] e ys hx hy =
      let rest = duplicates_other e.id (if e.selected then preview_key e ∷ seen else seen) ys hy in
      elim (Bool-cases (has seen (preview_key e))) [
        | inl y ↦ rw (y, equal_refl e.id)
        | inr n ↦ rw (n, rest)
      ]
  has-duplicates seen (x ∷ xs) e ys hx hy =
      let rest =
        has-duplicates (if x.selected then preview_key x ∷ seen else seen) xs e ys hx.1 hy in
      let whole =
        seen_or_earlier x.selected (preview_key e) (preview_key x) seen
          (earlier (preview_key e) xs) in
      elim (Bool-cases (has seen (preview_key x))) [
        | inl y ↦ rw (y, hx.0, rest, whole)
        | inr n ↦ rw (n, rest, whole)
      ]

  -- An import whose id no other one has is reported exactly if a live entry or an earlier selected
  -- import has the same content key.
  pub find_duplicate_imports_lem :
      (live : List VaultEntry) (xs : List ImportedEntryPreview) (e : ImportedEntryPreview)
      (ys : List ImportedEntryPreview)
      → All (IsOther e.id) xs
      → All (IsOther e.id) ys
      → has (find_duplicate_imports live (xs ++ e ∷ ys)) e.id
        ≡ (has (map live_key live) (preview_key e) || earlier (preview_key e) xs)
  unfolding find_duplicate_imports
  find_duplicate_imports_lem live xs e ys hx hy = has-duplicates (map live_key live) xs e ys hx hy
