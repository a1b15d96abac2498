-- ===== src/Csv/Import/Folders.antt =====
-- The folders that an import (frontend/src/lib/csvImport.ts) looks up are those of the vault.
use kypassword_server.Base.{
  Text, equal, equal_refl, equal_iff, Bool, true, false, ◌||◌, some, List, [], ◌∷◌, All, select,
  ◌≡◌, refl, Bool-cases, inl, inr,
}
use kypassword_server.Vault.Fields.{get_key, set_key}
use kypassword_server.Vault.Listing.{Database, VaultGroup, Library, get_groups, get_live_groups}
use kypassword_server.Vault.Listing.Preorder.{is_found, lists, find_group-lists}
use kypassword_server.Vault.Operations.{parent_group, find_view}
use kypassword_server.Csv.Duplicates.{has}
use kypassword_server.Csv.Import.{Paths, group_paths, first_uuid, view_uuid}

-- `createGroup` finds the parent.
unfoldable pub Known : Database → Text → Type 0
Known db u = is_found (parent_group (some u) db.root) ≡ true

-- Each group of the map is known.
abbrev pub Holds : (Text → Type 0) → Paths → Type 0
Holds P m = All (λ entry. P entry.1) m

pub set_key-Holds :
    (P : Text → Type 0) (path u : Text) (m : Paths) → P u → Holds P m → Holds P (set_key path u m)
unfolding set_key
set_key-Holds P path u [] p h = (p, tt)
set_key-Holds P path u ((j, v) ∷ m) p h = elim (Bool-cases (equal j path)) [
  | inl y ↦ rw (y) (p, h.1)
  | inr n ↦ rw (n) (h.0, set_key-Holds P path u m p h.1)
]

pub get_key-Holds :
    (P : Text → Type 0) (path u : Text) (m : Paths) → Holds P m → get_key path m ≡ some u → P u
unfolding get_key
get_key-Holds P path u [] h g = cc
get_key-Holds P path u ((j, v) ∷ m) h g = elim (Bool-cases (equal j path)) [
  | inl y ↦ let found : u ≡ v = (let e = rw (y) at g in cc) in rw (found) h.0
  | inr n ↦ get_key-Holds P path u m h.1 (rw (n) at g)
]

pub group_paths-Holds :
    (P : Text → Type 0) (lower : Text → Text) (root_uuid : Text) (gs : List VaultGroup)
    (by_uuid m : Paths)
    → All (λ g. P g.uuid) gs
    → Holds P m
    → Holds P (group_paths lower root_uuid gs by_uuid m)
unfolding group_paths
group_paths-Holds P lower root_uuid [] by_uuid m a h = h
group_paths-Holds P lower root_uuid (g ∷ gs) by_uuid m a h =
    elim (Bool-cases (has (root_uuid ∷ []) g.uuid)) [
      | inl y ↦ rw (y) (group_paths-Holds P lower root_uuid gs by_uuid m a.1 h)
      | inr n ↦
          rw (n) (group_paths-Holds P lower root_uuid gs _ _ a.1 (set_key-Holds P _ g.uuid m a.0 h))
    ]

select-All :
    (P : VaultGroup → Type 0) (p : VaultGroup → Bool) (gs : List VaultGroup)
    → All P gs
    → All P (select p gs)
select-All P p [] a = tt
select-All P p (g ∷ gs) a = elim (Bool-cases (p g)) [
  | inl y ↦ rw (y) (a.0, select-All P p gs a.1)
  | inr n ↦ rw (n) (select-All P p gs a.1)
]

later : (b c : Bool) → c ≡ true → (b || c) ≡ true
later true c h = refl
later false c h = h

-- A list that holds another lists its ids.
lists-All :
    (views gs : List VaultGroup)
    → ((u : Text) → lists gs u ≡ true → lists views u ≡ true)
    → All (λ g. lists views g.uuid ≡ true) gs
lists-All views [] sub = tt
lists-All views (g ∷ gs) sub = (
  sub g.uuid (rw (equal_refl g.uuid)),
  lists-All views gs (λ u l. sub u (later (equal g.uuid u) (lists gs u) l)),
)

listed-Known : (db : Database) (u : Text) → lists (get_groups db) u ≡ true → Known db u
unfolding Known parent_group
listed-Known db [] l = refl
listed-Known db (c ∷ u) l = rw (find_group-lists db (c ∷ u)) l

groups-Known :
    (db : Database) (gs : List VaultGroup)
    → All (λ g. lists (get_groups db) g.uuid ≡ true) gs
    → All (λ g. Known db g.uuid) gs
groups-Known db [] a = tt
groups-Known db (g ∷ gs) a = (listed-Known db g.uuid a.0, groups-Known db gs a.1)

pub live_groups-Known :
    (lib : Library) (db : Database) → All (λ g. Known db g.uuid) (get_live_groups lib db)
unfolding get_live_groups
live_groups-Known lib db =
    select-All (λ g. Known db g.uuid) _ (get_groups db)
      (groups-Known db (get_groups db) (lists-All (get_groups db) (get_groups db) (λ u l. l)))

pub first_uuid-Known :
    (db : Database) (gs : List VaultGroup)
    → All (λ g. Known db g.uuid) gs
    → Known db (first_uuid gs)
unfolding Known parent_group
first_uuid-Known db [] a = refl
first_uuid-Known db (g ∷ gs) a = a.0

pub find_view-Known :
    (db : Database) (u : Text) (vs : List VaultGroup)
    → Known db u
    → Known db (view_uuid (find_view u vs))
unfolding find_view
find_view-Known db u [] h = unfold Known parent_group in refl
find_view-Known db u (v ∷ vs) h = elim (Bool-cases (equal v.uuid u)) [
  | inl y ↦ rw (y) (rw ((equal_iff v.uuid u).0 y) h)
  | inr n ↦ rw (n) (find_view-Known db u vs h)
]
