-- ===== src/Csv/Import/Atomic.antt =====
-- An import (frontend/src/lib/csvImport.ts) changes nothing or brings in every item.
use kypassword_server.Base.{
  ==_iff, ℕ, ◌+◌, ◌-◌, ◌==◌, ◌≤◌, Text, List, [], All, select, length, if◌then◌else◌, Result, ok,
  throw, ◌≡◌, ◌⊎◌, refl, Bool-cases, inl, inr, arith, length-select-le, sym,
}
use kypassword_server.Api.{Thrown}
use kypassword_server.Csv.Rows.{ImportedEntryPreview}
use kypassword_server.Csv.Import.{
  Options, Summary, Import, check_names, first_uuid, summary_of, import_into, start, import_pending,
  pending_of, apply_import_to_vault,
}
use kypassword_server.Csv.Import.Folders.{Known, live_groups-Known, first_uuid-Known}
use kypassword_server.Vault.{Kdbxweb}
use kypassword_server.Vault.Listing.{Database, Library, get_live_groups}
use kypassword_server.Vault.Operations.{Changes}
use kypassword_server.Csv.Import.Loops.{
  Ready, check_names-Ready, single_folder_of-IsDone, start-Holds, import_items-IsDone,
}
use kypassword_server.Csv.Import.Made.{IsGrowing, IsDone, with_value}

module _ (lower : Text → Text) (k : Kdbxweb) (lib : Library) (ch : Changes)
    (law : IsGrowing ch) where
  -- Every item is brought in, or nothing is changed.
  abbrev pub AllOrNothing :
      Result Thrown (Unit {0}) → Database → ℕ → ℕ → Database × Result Thrown Summary → Type 0
  AllOrNothing checked db items selected r =
      ((e : Thrown) × (checked ≡ throw e) × (r ≡ (db, throw e)))
      ⊎ ((s : Summary) × (r.1 ≡ ok s)
          × (length r.0.entries ≡ length db.entries + s.imported_count)
          × (s.imported_count ≡ items)
          × (s.imported_count + s.skipped_duplicates ≡ selected))

  summary_of-done :
      {checked : Result Thrown (Unit {0})} (skipped m selected : ℕ) (before db : Database)
      (r : Import × Result Thrown ℕ)
      → m + skipped ≡ selected
      → length before.entries ≡ length db.entries + 0
      → IsDone before m m r
      → AllOrNothing checked db m selected (summary_of lower k lib ch skipped r)
  summary_of-done skipped m selected before db (t, throw e) sum e0 d = let absurd = d.returns in cc
  summary_of-done skipped m selected before db (t, ok count) sum e0 d =
      let same : count ≡ m = (let r = d.returns in cc) in
      inr (_, refl, omega (arith, d.entries, e0, same), same, omega (arith, sum, same))

  import_into-done :
      {checked : Result Thrown (Unit {0})} (o : Options) (root single : Text) (skipped selected : ℕ)
      (es : List ImportedEntryPreview) (db : Database) (r : Import × Result Thrown Text)
      → length es + skipped ≡ selected
      → All (Ready lower k lib ch law o.folder_mode o) es
      → Known db root
      → IsDone db 0 single r
      → AllOrNothing checked db
          (length es)
          selected
          (import_into lower k lib ch o root skipped es r)
  unfolding import_into
  import_into-done o root single skipped selected es db (s, throw e) sum v h d =
      let absurd = d.returns in cc
  import_into-done o root single skipped selected es db (s, ok u) sum v h d =
      summary_of-done skipped (length es) selected s.vault db _ sum d.entries (
        with_value s.vault (length es) (0 + length es) (length es) _ (omega arith)
          (import_items-IsDone lower k lib ch law o root u 0 es s v (d.keeps root h) d.map_holds))

  import_pending-done :
      (o : Options) (skipped selected : ℕ) (es : List ImportedEntryPreview)
      (c : Result Thrown (Unit {0})) (db : Database)
      → length es + skipped ≡ selected
      → check_names o.folder_mode o es ≡ c
      → AllOrNothing
          (check_names o.folder_mode o es)
          db
          (length es)
          selected
          (import_pending lower k lib ch o skipped es c db)
  unfolding import_pending
  import_pending-done o skipped selected es (throw e) db sum h = inl (e, h, refl)
  import_pending-done o skipped selected es (ok _) db sum h =
      let root = first_uuid (get_live_groups lib db) in
      let single =
        single_folder_of-IsDone lower k lib ch law o.folder_mode o root es (start lower k lib ch db)
          h (start-Holds lower k lib ch law db) in
      import_into-done o root single.0 skipped selected es db _ sum
        (check_names-Ready lower k lib ch law o.folder_mode o es h)
        (first_uuid-Known db (get_live_groups lib db) (live_groups-Known lib db)) single.1

  decided :
      (o : Options) (selected : ℕ) (es : List ImportedEntryPreview) (db : Database)
      → length es ≤ selected
      → AllOrNothing (check_names o.folder_mode o es) db (length es) selected (
          if length es == 0
          then (
            db,
            ok (record {
              imported_count = 0;
              skipped_duplicates = selected - length es;
              folders_created = [];
            }),
          )
          else import_pending lower k lib ch o
              (selected - length es)
              es
              (check_names o.folder_mode o es)
              db)
  decided o selected es db h = elim (Bool-cases (length es == 0)) [
    | inl y ↦ rw (y) (
        inr (
          _,
          refl,
          omega arith,
          sym ((==_iff (length es) 0).0 y),
          omega (arith, (==_iff (length es) 0).0 y, h),
        ))
    | inr n ↦ rw (n) (
        import_pending-done o (selected - length es) selected es (check_names o.folder_mode o es) db
          (omega (arith, h)) refl)
  ]

  -- Where kdbxweb is as `IsGrowing` says, an import either throws what the check of the names threw and
  -- leaves the vault as it was, or adds as many entries as it reports: those are the selected items
  -- that are no duplicates, and together with what it reports as skipped the selected ones.
  pub apply_import_to_vault-AllOrNothing :
      (stringify : List Text → Text) (entries : List ImportedEntryPreview) (o : Options)
      (db : Database)
      → AllOrNothing
          (check_names o.folder_mode o (pending_of lower k lib ch stringify o entries db))
          db
          (length (pending_of lower k lib ch stringify o entries db))
          (length (select (λ e. e.selected) entries))
          (apply_import_to_vault lower k lib ch stringify entries o db)
  unfolding apply_import_to_vault pending_of
  apply_import_to_vault-AllOrNothing stringify entries o db =
      decided o (length (select (λ e. e.selected) entries))
        (pending_of lower k lib ch stringify o entries db) db
        (length-select-le _ (select (λ e. e.selected) entries))
