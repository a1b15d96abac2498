-- ===== src/Csv/Import/Made.antt =====
-- The folders that an import (frontend/src/lib/csvImport.ts) makes, where kdbxweb only adds.
use kypassword_server.Base.{
  ℕ, suc, ◌+◌, Text, equal, true, Option, none, some, List, [], ◌∷◌, ◌++◌, All, length, Result, ok,
  ◌≡◌, ◌∙◌, refl, ap, Bool-cases, Option-cases, inl, inr, arith,
}
use kypassword_server.Api.{Thrown}
use kypassword_server.Csv.Rows.{ImportedEntryPreview}
use kypassword_server.Csv.Import.{
  Paths, Import, below, view_uuid, existing, then_created, make_folders,
}
use kypassword_server.Csv.Import.Names.{IsValid}
use kypassword_server.Csv.Import.Folders.{
  Known, Holds, set_key-Holds, get_key-Holds, find_view-Known,
}
use kypassword_server.Vault.{Entry, Kdbxweb, change_entry}
use kypassword_server.Vault.Fields.{get_key, set_key}
use kypassword_server.Vault.Groups.{Group}
use kypassword_server.Vault.Listing.{Database, VaultGroup, Library, get_groups, group_uuid}
use kypassword_server.Vault.Listing.Preorder.{is_found}
use kypassword_server.Vault.Operations.{
  Changes, change_found, create_group, create_below, parent_group, find_view,
}

-- kdbxweb adds a group or an entry, and takes nothing away.
pub record IsGrowing (ch : Changes) : Type 0 where
  pub create_group-Known :
      (g name : Text) (db : Database) (u : Text)
      → Known db u
      → Known (ch.create_group g name db).0 u
  pub create_group-new :
      (g name : Text) (db : Database)
      → Known (ch.create_group g name db).0 (ch.create_group g name db).1
  pub create_group-entries :
      (g name : Text) (db : Database) → (ch.create_group g name db).0.entries ≡ db.entries
  pub create_entry-root : (g : Text) (db : Database) → (ch.create_entry g db).0.root ≡ db.root
  pub create_entry-entries :
      (g : Text) (db : Database) → length (ch.create_entry g db).0.entries ≡ suc (length db.entries)

pub Holds-map : (P Q : Text → Type 0) (m : Paths) → ((u : Text) → P u → Q u) → Holds P m → Holds Q m
Holds-map P Q [] f h = tt
Holds-map P Q (e ∷ m) f h = (f e.1 h.0, Holds-map P Q m f h.1)

length-change_entry :
    (uuid : Text) (new : Entry) (es : List Entry) → length (change_entry uuid new es) ≡ length es
unfolding change_entry
length-change_entry uuid new [] = refl
length-change_entry uuid new (e ∷ es) = elim (Bool-cases (equal e.uuid uuid)) [
  | inl y ↦ rw (y) refl
  | inr n ↦ rw (n) (ap suc (length-change_entry uuid new es))
]

pub length-change_found :
    (f : Entry → Entry) (uuid : Text) (o : Option Entry) (db : Database)
    → length (change_found f uuid o db).entries ≡ length db.entries
unfolding change_found
length-change_found f uuid none db = refl
length-change_found f uuid (some e) db = length-change_entry uuid (f e) db.entries

pub change_found-root :
    (f : Entry → Entry) (uuid : Text) (o : Option Entry) (db : Database)
    → (change_found f uuid o db).root ≡ db.root
unfolding change_found
change_found-root f uuid none db = refl
change_found-root f uuid (some e) db = refl

found-some : (o : Option Group) → is_found o ≡ true → (g : Group) × (o ≡ some g)
found-some none h = cc
found-some (some g) h = (g, refl)

existing-some : (o : Option Text) (u : Text) → existing o ≡ some u → o ≡ some u
existing-some none u h = cc
existing-some (some []) u h = cc
existing-some (some (c ∷ v)) u h = h

-- A stretch of the import that returns `a`, adds `n` entries and keeps what was known.
pub record IsDone {ℓ} {A : Type ℓ} (before : Database) (n : ℕ) (a : A)
    (r : Import × Result Thrown A) : Type ℓ where
  pub returns : r.1 ≡ ok a
  pub entries : length r.0.vault.entries ≡ length before.entries + n
  pub keeps : (u : Text) → Known before u → Known r.0.vault u
  pub map_holds : Holds (Known r.0.vault) r.0.group_map

-- A stretch after a change that keeps what was known.
pub after {ℓ} :
    {A : Type ℓ} (before between : Database) (n m total : ℕ) {a : A} {r : Import × Result Thrown A}
    → total ≡ n + m
    → length between.entries ≡ length before.entries + n
    → ((u : Text) → Known before u → Known between u)
    → IsDone between m a r
    → IsDone before total a r
after before between n m total sum e keeps d = record {
  returns = d.returns;
  entries = omega (arith, d.entries, e, sum);
  keeps = λ u known. d.keeps u (keeps u known);
  map_holds = d.map_holds;
}

-- The same result, written in another way.
pub with_value :
    (before : Database) (n m l : ℕ) (r : Import × Result Thrown ℕ)
    → m ≡ l
    → IsDone before n m r
    → IsDone before n l r
with_value before n m l r e d = record {
  returns = d.returns ∙ ap ok e;
  entries = d.entries;
  keeps = d.keeps;
  map_holds = d.map_holds;
}

-- Nothing is changed, and the answer is `a`.
pub same_state :
    (s : Import) → Holds (Known s.vault) s.group_map → (a : Text) → IsDone s.vault 0 a (s, ok a)
same_state s m a = record {
  returns = refl;
  entries = omega arith;
  keeps = λ u known. known;
  map_holds = m;
}

pub All-units : (es : List ImportedEntryPreview) → All (λ _. Unit {0}) es
All-units [] = tt
All-units (e ∷ es) = (tt, All-units es)

module _ (lower : Text → Text) (k : Kdbxweb) (lib : Library) (ch : Changes)
    (law : IsGrowing ch) where
  -- A group of a valid name is made below a known one.
  pub record IsCreated (db : Database) (r : Result Thrown (Database × Option VaultGroup))
      : Type 0 where
    pub made : Database × Option VaultGroup
    pub returns : r ≡ ok made
    pub entries : made.0.entries ≡ db.entries
    pub keeps : (u : Text) → Known db u → Known made.0 u
    pub is_known : Known made.0 (view_uuid made.1)

  create_below-IsCreated :
      (name : Text) (parent : Option Group) (db : Database)
      → is_found parent ≡ true
      → IsCreated db (create_below k lib ch name parent db)
  unfolding create_below
  create_below-IsCreated name none db h = cc
  create_below-IsCreated name (some g) db h =
      let created = ch.create_group (group_uuid g) name db in
      record {
        made = (created.0, find_view created.1 (get_groups created.0));
        returns = refl;
        entries = law.create_group-entries (group_uuid g) name db;
        keeps = law.create_group-Known (group_uuid g) name db;
        is_known =
            find_view-Known created.0 created.1 (get_groups created.0)
              (law.create_group-new (group_uuid g) name db);
      }

  pub create_group-IsCreated :
      (name : Text) (parent : Option Text) (db : Database)
      → IsValid name
      → is_found (parent_group parent db.root) ≡ true
      → IsCreated db (create_group k lib ch name parent db)
  unfolding create_group IsValid
  create_group-IsCreated name parent db v h =
      rw (v.1) (create_below-IsCreated v.0 (parent_group parent db.root) db h)

  then_created-IsDone :
      (path segment : Text) (next : Text → Import → Import × Result Thrown Text) (s : Import)
      (r : Result Thrown (Database × Option VaultGroup))
      → IsCreated s.vault r
      → Holds (Known s.vault) s.group_map
      → ((u : Text) (t : Import)
          → Known t.vault u
          → Holds (Known t.vault) t.group_map
          → (v : Text) × IsDone t.vault 0 v (next u t))
      → (v : Text) × IsDone s.vault 0 v (then_created lower k lib ch path segment next s r)
  unfolding then_created
  then_created-IsDone path segment next s r c m go =
      let u = view_uuid c.made.1 in
      let t : Import = record {
        vault = c.made.0;
        group_map = set_key path u s.group_map;
        folders_created = s.folders_created ++ segment ∷ [];
      } in
      let rest = go u t c.is_known (
        set_key-Holds (Known c.made.0) path u s.group_map c.is_known
          (Holds-map (Known s.vault) (Known c.made.0) s.group_map c.keeps m)) in
      rw (c.returns) (
        rest.0,
        after s.vault t.vault 0 0 0 refl (omega (arith, ap (λ es. length es) c.entries)) c.keeps
            rest.1,
      )

  pub make_folders-IsDone :
      (segments : List Text) (path parent : Text) (s : Import)
      → All IsValid segments
      → Known s.vault parent
      → Holds (Known s.vault) s.group_map
      → (u : Text) × IsDone s.vault 0 u (make_folders lower k lib ch segments path parent s)
  unfolding make_folders create_group Known
  make_folders-IsDone [] path parent s v h m = (
    parent,
    record { returns = refl; entries = omega arith; keeps = λ u known. known; map_holds = m },
  )
  make_folders-IsDone (segment ∷ segments) path parent s v h m =
      let here = below path (lower segment) in
      elim (Option-cases (existing (get_key here s.group_map))) [
        | inl e ↦
            let c = create_group-IsCreated segment (some parent) s.vault v.0 h in
            rw (make_folders, e)
              (then_created-IsDone here segment (make_folders lower k lib ch segments here) s
                (create_group k lib ch segment (some parent) s.vault) c m
                (λ u t known holds. make_folders-IsDone segments here u t v.1 known holds))
        | inr e ↦
            rw (make_folders, e.1)
              (make_folders-IsDone segments here e.0 s v.1
                (get_key-Holds (Known s.vault) here e.0 s.group_map m (existing-some _ e.0 e.1)) m)
      ]
