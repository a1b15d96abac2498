-- ===== src/Page/Imported.antt =====
-- An import through the dialog of frontend/src/components/CsvImportModal.tsx is reported to
-- frontend/src/pages/VaultPage.tsx, so that it is saved and shown.
use kypassword_server.Base.{
  ℕ, ◌+◌, ◌==◌, ltb, Text, length, Bool-cases, true, false, none, some, List, ◌≡◌, ◌⊎◌, inl, inr,
  ap, ◌∙◌, arith, length-map,
}
use kypassword_server.Csv.Import.{Summary}
use kypassword_server.Csv.Import.Made.{IsGrowing}
use kypassword_server.Dialog.CsvImport.{Dialog, handle_execute_import, import_count}
use kypassword_server.Dialog.CsvImport.Counts.{Executed, handle_execute_import-Executed}
use kypassword_server.Page.{Page, refresh_vault_data}
use kypassword_server.Page.Dialogs.{on_import_complete}
use kypassword_server.Vault.{Kdbxweb, Entry}
use kypassword_server.Vault.Listing.{Library, get_entries, Database, entry_view}
use kypassword_server.Vault.Operations.{Changes}

module _ (lower : Text → Text) (k : Kdbxweb) (lib : Library) (ch : Changes)
    (stringify : List Text → Text) (move : Text → Text → List Entry → List Entry) where
  -- Either nothing was reported and the vault is as it was, or the page counts a change, so that its vault is
  -- saved, and lists as many entries as the dialog announced.
  abbrev pub Reported : Dialog → Page → Dialog → Type 0
  Reported s page r =
      ((r.completed ≡ none) × (r.vault ≡ s.vault))
      ⊎ ((m : Summary) × (r.completed ≡ some m)
          × ((on_import_complete k lib ch move m r.vault page).0.changes ≡ page.changes + 1)
          × (length (on_import_complete k lib ch move m r.vault page).0.entries
              ≡ length s.vault.entries + import_count lib stringify s))

  on_import_complete-changes :
      (m : Summary) (db : Database) (page : Page)
      → ltb 0 m.imported_count ≡ true
      → (on_import_complete k lib ch move m db page).0.changes ≡ page.changes + 1
  unfolding on_import_complete refresh_vault_data
  on_import_complete-changes m db page h = rw (h)

  on_import_complete-entries :
      (m : Summary) (db : Database) (page : Page)
      → length (on_import_complete k lib ch move m db page).0.entries ≡ length db.entries
  unfolding on_import_complete refresh_vault_data get_entries
  on_import_complete-entries m db page = elim (Bool-cases (ltb 0 m.imported_count)) [
    | inl y ↦ rw (y) (length-map db.entries entry_view)
    | inr n ↦ rw (n) (length-map db.entries entry_view)
  ]

  positive : (n m : ℕ) → (n == 0) ≡ false → m ≡ n → ltb 0 m ≡ true
  positive n m h e = ground (arith, h, e)

  Executed-Reported :
      (s r : Dialog) (page : Page)
      → s.completed ≡ none
      → (import_count lib stringify s == 0) ≡ false
      → Executed lower k lib ch stringify s r
      → Reported s page r
  Executed-Reported s r page fresh n (inl (e, h)) =
      inl (ap (λ d. d.completed) h ∙ fresh, ap (λ d. d.vault) h)
  Executed-Reported s r page fresh n (inr (m, h, imported, skipped, grown)) = inr (
    m,
    ap (λ d. d.completed) h,
    on_import_complete-changes m r.vault page
        (positive (import_count lib stringify s) m.imported_count n imported),
    on_import_complete-entries m r.vault page ∙ grown,
  )

  -- Where kdbxweb is as `IsGrowing` says and a fresh dialog announces an import: either nothing is reported
  -- and the vault is as it was, or the page that is told counts a change, so that the vault is
  -- saved, and lists as many new entries as the dialog announced.
  pub handle_execute_import-Reported :
      IsGrowing ch
      → (s : Dialog) (page : Page) → s.completed ≡ none
      → (import_count lib stringify s == 0) ≡ false
      → Reported s page (handle_execute_import lower k lib ch stringify s)
  handle_execute_import-Reported law s page fresh n =
      Executed-Reported s (handle_execute_import lower k lib ch stringify s) page fresh n
        (handle_execute_import-Executed lower k lib ch stringify law s n)
