-- ===== src/Csv/Import/Loops.antt =====
-- The loops of an import (frontend/src/lib/csvImport.ts), once the names are checked.
use kypassword_server.Base.{
  ℕ, suc, ◌+◌, Text, is_empty, or_else, trim, Option, none, List, [], ◌∷◌, All, length, Result, ok,
  throw, ◌≡◌, ◌∙◌, refl, ap, Bool-cases, inl, inr, arith,
}
use kypassword_server.Api.{Thrown}
use kypassword_server.Csv.Rows.{ImportedEntryPreview}
use kypassword_server.Csv.Import.{
  FolderMode, csv_folders, single_folder, Options, Import, folder_of, split_folder_path,
  check_names, view_uuid, first_uuid, get_or_create_group, group_for, entry_for, then_entry,
  import_items, named, single_folder_of, start, group_paths,
}
use kypassword_server.Csv.Import.Names.{IsValid, check_paths-All, check_new_folder-IsValid}
use kypassword_server.Csv.Import.Folders.{Known, Holds, group_paths-Holds, live_groups-Known}
use kypassword_server.Vault.{Kdbxweb, find_entry}
use kypassword_server.Vault.Listing.{Database, VaultGroup, Library, get_live_groups}
use kypassword_server.Vault.Operations.{
  Changes, change_fields, new_fields, target_group, create_entry,
}
use kypassword_server.Vault.Update.{VaultEntry}
use kypassword_server.Csv.Import.Made.{
  IsGrowing, Holds-map, length-change_found, change_found-root, IsDone, after, with_value,
  same_state, All-units, IsCreated, create_group-IsCreated, make_folders-IsDone,
}

module _ (lower : Text → Text) (k : Kdbxweb) (lib : Library) (ch : Changes)
    (law : IsGrowing ch) where
  create_entry-entries :
      (v : VaultEntry) (db : Database)
      → length (create_entry k lib ch v db).0.entries ≡ length db.entries + 1
  unfolding create_entry
  create_entry-entries v db =
      let g = target_group v.group_uuid db.root in
      let created = ch.create_entry g db in
      omega (
        arith,
        length-change_found (change_fields (new_fields v)) created.1
            (find_entry created.1 created.0.entries) created.0,
        law.create_entry-entries g db,
      )

  create_entry-Known :
      (v : VaultEntry) (db : Database) (u : Text)
      → Known db u
      → Known (create_entry k lib ch v db).0 u
  unfolding create_entry Known
  create_entry-Known v db u h =
      let g = target_group v.group_uuid db.root in
      let created = ch.create_entry g db in
      let same =
        change_found-root (change_fields (new_fields v)) created.1
          (find_entry created.1 created.0.entries) created.0
        ∙ law.create_entry-root g db in
      rw (same) h

  -- The names that the items need are valid.
  pub Ready : FolderMode → Options → ImportedEntryPreview → Type 0
  Ready single_folder o e = Unit
  Ready csv_folders o e = All IsValid (split_folder_path (folder_of o e))

  group_for-IsDone :
      (mode : FolderMode) (o : Options) (root single : Text) (e : ImportedEntryPreview) (s : Import)
      → Ready mode o e
      → Known s.vault root
      → Holds (Known s.vault) s.group_map
      → (u : Text) × IsDone s.vault 0 u (group_for lower k lib ch mode o root single e s)
  unfolding group_for get_or_create_group Ready
  group_for-IsDone single_folder o root single e s v h m = (
    single,
    record { returns = refl; entries = omega arith; keeps = λ u known. known; map_holds = m },
  )
  group_for-IsDone csv_folders o root single e s v h m =
      make_folders-IsDone lower k lib ch law (split_folder_path (folder_of o e)) [] root s v h m

  -- What `then_entry` goes on with, once the group is there.
  then_entry-IsDone :
      (e : ImportedEntryPreview) (next : Import → Import × Result Thrown ℕ) (before : Database)
      (g : Text) (n m : ℕ) (r : Import × Result Thrown Text)
      → IsDone before 0 g r
      → ((t : Import)
          → ((u : Text) → Known before u → Known t.vault u)
          → Holds (Known t.vault) t.group_map
          → IsDone t.vault n m (next t))
      → IsDone before (suc n) m (then_entry lower k lib ch e next r)
  unfolding then_entry
  then_entry-IsDone e next before g n m (s, throw problem) d go = let absurd = d.returns in cc
  then_entry-IsDone e next before g n m (s, ok u) d go =
      let v = entry_for lower k lib ch u e in
      let kept = λ (w : Text) (known : Known s.vault w). create_entry-Known v s.vault w known in
      let t : Import = record s { vault = (create_entry k lib ch v s.vault).0 } in
      after before t.vault 1 n (suc n) (omega arith)
        (omega (arith, create_entry-entries v s.vault, d.entries))
        (λ w known. kept w (d.keeps w known))
        (go t (λ w known. kept w (d.keeps w known))
          (Holds-map (Known s.vault) (Known t.vault) s.group_map kept d.map_holds))

  pub import_items-IsDone :
      (o : Options) (root single : Text) (n : ℕ) (es : List ImportedEntryPreview) (s : Import)
      → All (Ready o.folder_mode o) es
      → Known s.vault root
      → Holds (Known s.vault) s.group_map
      → IsDone s.vault
          (length es)
          (n + length es)
          (import_items lower k lib ch o root single n es s)
  unfolding import_items
  import_items-IsDone o root single n [] s v h m = record {
    returns = ap ok (omega arith);
    entries = omega arith;
    keeps = λ u known. known;
    map_holds = m;
  }
  import_items-IsDone o root single n (e ∷ es) s v h m =
      let made = group_for-IsDone o.folder_mode o root single e s v.0 h m in
      then_entry-IsDone e (import_items lower k lib ch o root single (n + 1) es) s.vault made.0
        (length es) (n + length (e ∷ es)) (group_for lower k lib ch o.folder_mode o root single e s)
        made.1
        (λ t keeps holds.
          with_value t.vault (length es) (n + 1 + length es) (n + length (e ∷ es)) _ (omega arith)
            (import_items-IsDone o root single (n + 1) es t v.1 (keeps root h) holds))

  pub check_names-Ready :
      (mode : FolderMode) (o : Options) (es : List ImportedEntryPreview)
      → check_names mode o es ≡ ok tt
      → All (Ready mode o) es
  unfolding check_names Ready
  check_names-Ready single_folder o es h = All-units es
  check_names-Ready csv_folders o es h = check_paths-All o es h

  named-IsDone :
      (name : Text) (s : Import) (r : Result Thrown (Database × Option VaultGroup))
      → IsCreated lower k lib ch law s.vault r
      → Holds (Known s.vault) s.group_map
      → (u : Text) × IsDone s.vault 0 u (named lower k lib ch name s r)
  named-IsDone name s r c m = rw (c.returns) (
    view_uuid c.made.1,
    record {
      returns = refl;
      entries = omega (arith, ap (λ es. length es) c.entries);
      keeps = c.keeps;
      map_holds = Holds-map (Known s.vault) (Known c.made.0) s.group_map c.keeps m;
    },
  )

  pub single_folder_of-IsDone :
      (mode : FolderMode) (o : Options) (root : Text) (es : List ImportedEntryPreview) (s : Import)
      → check_names mode o es ≡ ok tt
      → Holds (Known s.vault) s.group_map
      → (u : Text) × IsDone s.vault 0 u (single_folder_of lower k lib ch mode o root s)
  unfolding single_folder_of check_names
  single_folder_of-IsDone csv_folders o root es s h m =
      (or_else o.target_folder_uuid root, same_state s m _)
  single_folder_of-IsDone single_folder o root es s h m =
      elim (Bool-cases (is_empty (trim o.new_folder_name))) [
        | inl y ↦ rw (single_folder_of, y) (or_else o.target_folder_uuid root, same_state s m _)
        | inr n ↦
            rw (single_folder_of, n)
              (named-IsDone (trim o.new_folder_name) s _
                (create_group-IsCreated lower k lib ch law (trim o.new_folder_name) none s.vault
                  (check_new_folder-IsValid o.new_folder_name h n) refl)
                m)
      ]

  pub start-Holds : (db : Database) → Holds (Known db) (start lower k lib ch db).group_map
  unfolding start group_paths
  start-Holds db =
      let groups = get_live_groups lib db in
      group_paths-Holds (Known db) lower (first_uuid groups) groups _ [] (live_groups-Known lib db)
        tt
