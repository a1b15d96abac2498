-- ===== src/Dialog/CsvImport/Counts.antt =====
-- What the import dialog (frontend/src/components/CsvImportModal.tsx) announces is what it does.
use kypassword_server.Base.{
  ℕ, ◌+◌, ◌==◌, Text, length, select, true, false, not, ◌&&◌, some, List, [], ◌∷◌, Result, ok,
  throw, ◌≡◌, ◌⊎◌, refl, ap, arith, Bool-cases, inl, inr,
}
use kypassword_server.Api.{Thrown}
use kypassword_server.Csv.Rows.{ImportedEntryPreview}
use kypassword_server.Csv.Duplicates.{has}
use kypassword_server.Csv.Import.{Summary, pending_of}
use kypassword_server.Csv.Import.Made.{IsGrowing}
use kypassword_server.Csv.Import.Atomic.{AllOrNothing, apply_import_to_vault-AllOrNothing}
use kypassword_server.Vault.{Kdbxweb}
use kypassword_server.Vault.Listing.{Database, Library}
use kypassword_server.Vault.Operations.{Changes}
use kypassword_server.Dialog.CsvImport.{
  Dialog, selected_count, duplicates_of, skipped_count, import_count, options_of, import_failed,
  import_ends, handle_execute_import,
}

-- The selected items are the new ones and the duplicates.
length-select-split :
    (d : List Text) (es : List ImportedEntryPreview)
    → length (select (λ e. not (has d e.id)) (select (λ e. e.selected) es))
        + length (select (λ e. e.selected && has d e.id) es)
      ≡ length (select (λ e. e.selected) es)
length-select-split d [] = omega arith
length-select-split d (e ∷ es) = elim (Bool-cases e.selected) [
  | inl y ↦ elim (Bool-cases (has d e.id)) [
    | inl z ↦ rw (y, z) (omega (arith, length-select-split d es))
    | inr n ↦ rw (y, n) (omega (arith, length-select-split d es))
  ]
  | inr n ↦ rw (n) (length-select-split d es)
]

no_duplicate :
    (es : List ImportedEntryPreview) → length (select (λ e. e.selected && has [] e.id) es) ≡ 0
no_duplicate [] = refl
no_duplicate (e ∷ es) = elim (Bool-cases e.selected) [
  | inl y ↦ rw (y) (no_duplicate es)
  | inr n ↦ rw (n) (no_duplicate es)
]

module _ (lower : Text → Text) (k : Kdbxweb) (lib : Library) (ch : Changes)
    (stringify : List Text → Text) where
  pending-length :
      (s : Dialog)
      → length (pending_of lower k lib ch stringify (options_of s) s.preview_entries s.vault)
          + skipped_count lib stringify s
        ≡ selected_count s
  unfolding pending_of skipped_count selected_count duplicates_of
  pending-length s = elim (Bool-cases s.skip_duplicates) [
    | inl y ↦ rw (y) (length-select-split (duplicates_of lib stringify s) s.preview_entries)
    | inr n ↦
        rw (n)
          (omega (arith, length-select-split [] s.preview_entries, no_duplicate s.preview_entries))
  ]

  -- The dialog closes after it did what it announced, or stays with an unchanged vault and an alert.
  abbrev pub Executed : Dialog → Dialog → Type 0
  Executed s r =
      ((e : Thrown) × (r ≡ record s { alert = some (import_failed e); is_importing = false }))
      ⊎ ((m : Summary) × (r ≡ record s {
        vault = r.vault;
        completed = some m;
        is_closed = true;
        is_importing = false;
      })
          × (m.imported_count ≡ import_count lib stringify s)
          × (m.skipped_duplicates ≡ skipped_count lib stringify s)
          × (length r.vault.entries ≡ length s.vault.entries + import_count lib stringify s))

  import_ends-Executed :
      (s : Dialog) (checked : Result Thrown (Unit {0})) (n : ℕ) (law : IsGrowing ch)
      (r : Database × Result Thrown Summary)
      → n + skipped_count lib stringify s ≡ selected_count s
      → AllOrNothing lower k lib ch law checked s.vault n (selected_count s) r
      → Executed s (import_ends r (record s { is_importing = true }))
  unfolding import_ends import_count
  import_ends-Executed s checked n law (db, throw e) sum (inl (f, c, same)) =
      let v : db ≡ s.vault = ap (λ p. p.0) same in inl (e, rw (v) refl)
  import_ends-Executed s checked n law (db, ok m) sum (inl (f, c, same)) =
      let absurd = ap (λ p. p.1) same in cc
  import_ends-Executed s checked n law (db, throw e) sum (inr (m, same, grown, count, all)) = cc
  import_ends-Executed s checked n law (db, ok m') sum (inr (m, same, grown, count, all)) =
      let e : m' ≡ m = cc in
      inr (
        m',
        refl,
        rw (e) (omega (arith, count, sum)),
        rw (e) (omega (arith, count, sum, all)),
        omega (arith, grown, count, sum),
      )

  -- Where kdbxweb is as `IsGrowing` says and the dialog announces an import: it either closes, and then
  -- imported and skipped as many items as it announced and added as many entries, or it shows why
  -- not, stays open and leaves the vault as it was.
  pub handle_execute_import-Executed :
      IsGrowing ch
      → (s : Dialog) → (import_count lib stringify s == 0) ≡ false
      → Executed s (handle_execute_import lower k lib ch stringify s)
  unfolding handle_execute_import
  handle_execute_import-Executed law s n = rw (n) (
      import_ends-Executed s _ _ law _ (pending-length s) (
        unfold selected_count in
        apply_import_to_vault-AllOrNothing lower k lib ch law stringify s.preview_entries
          (options_of s) s.vault))
