-- ===== src/Vault/Listing/Preorder.antt =====
-- The order of the listed folders, and which folders `findGroup` finds.
use kypassword_server.Base.{
  Text, equal, equal_refl, any, any-append, Bool, true, false, ◌&&◌, ◌||◌, Option, none, some, List,
  [], ◌∷◌, ◌++◌, ◌≡◌, refl, Bool-cases, &&-true, inl, inr,
}
use kypassword_server.Vault.{Entry}
use kypassword_server.Vault.Groups.{
  Group, group, Groups, no_groups, more_groups, find_group, find_below,
}
use kypassword_server.Vault.Listing.{
  VaultGroup, Database, group_view, traverse, traverse_below, get_groups, group_uuid, parent_of,
}

abbrev pub is_found : Option Group → Bool
is_found none = false
is_found (some _) = true

abbrev pub lists : List VaultGroup → Text → Bool
lists views u = any (λ v. equal v.uuid u) views

is_found-either :
    (o rest : Option Group)
    → is_found (elim o [ none ↦ rest | some found ↦ some found ]) ≡ (is_found o || is_found rest)
is_found-either none rest = refl
is_found-either (some g) rest = refl

mutual
  unfolding find_group traverse group_view

  traverse-lists :
      (entries : List Entry) (parents : List Group) (u : Text) (g : Group)
      → is_found (find_group u g) ≡ lists (traverse entries parents g) u
  traverse-lists entries parents u (group w name below) = elim (Bool-cases (equal w u)) [
    | inl y ↦ rw (y)
    | inr n ↦ rw (n, traverse_below-lists entries (group w name below ∷ parents) u below)
  ]

  traverse_below-lists :
      (entries : List Entry) (parents : List Group) (u : Text) (gs : Groups)
      → is_found (find_below u gs) ≡ lists (traverse_below entries parents gs) u
  traverse_below-lists entries parents u no_groups = refl
  traverse_below-lists entries parents u (more_groups g gs) =
      rw
        (
          any-append (λ (v : VaultGroup). equal v.uuid u) (traverse entries parents g)
              (traverse_below entries parents gs),
          ← traverse-lists entries parents u g,
          ← traverse_below-lists entries parents u gs,
        )
        (is_found-either (find_group u g) (find_below u gs))

-- `findGroup` finds a folder exactly if `getGroups` lists one with that id.
pub find_group-lists :
    (db : Database) (u : Text) → is_found (find_group u db.root) ≡ lists (get_groups db) u
unfolding get_groups
find_group-lists db u = traverse-lists db.entries [] u db.root

-- The parents of the listed folders: each stands in `seen`, or before the folder; the first folder of
-- an empty list needs none.
abbrev pub knows_parent : List Text → Option Text → Bool
knows_parent seen none = true
knows_parent seen (some p) = any (λ s. equal s p) seen

abbrev pub parents_first : List Text → List VaultGroup → Bool
parents_first seen [] = true
parents_first seen (v ∷ vs) = knows_parent seen v.parent_uuid && parents_first (v.uuid ∷ seen) vs

abbrev seen_has : List Text → Text → Bool
seen_has seen p = any (λ s. equal s p) seen

abbrev Includes : List Text → List Text → Type 0
Includes xs ys = (p : Text) → seen_has xs p ≡ true → seen_has ys p ≡ true

knows_parent_more :
    (xs ys : List Text) (o : Option Text)
    → Includes xs ys
    → knows_parent xs o ≡ true
    → knows_parent ys o ≡ true
knows_parent_more xs ys none inc h = refl
knows_parent_more xs ys (some p) inc h = inc p h

Includes-cons : (v : Text) (xs ys : List Text) → Includes xs ys → Includes (v ∷ xs) (v ∷ ys)
Includes-cons v xs ys inc p h = elim (Bool-cases (equal v p)) [
  | inl y ↦ rw (y)
  | inr n ↦ rw (n) (inc p (rw (n) at h))
]

parents_first_more :
    (xs ys : List Text) (vs : List VaultGroup)
    → Includes xs ys
    → parents_first xs vs ≡ true
    → parents_first ys vs ≡ true
parents_first_more xs ys [] inc h = refl
parents_first_more xs ys (v ∷ vs) inc h =
    let both = &&-true (knows_parent xs v.parent_uuid) _ h in
    rw (
      knows_parent_more xs ys v.parent_uuid inc both.0,
      parents_first_more (v.uuid ∷ xs) (v.uuid ∷ ys) vs (Includes-cons v.uuid xs ys inc) both.1,
    )

Includes-more : (v : Text) (xs : List Text) → Includes xs (v ∷ xs)
Includes-more v xs p h = elim (Bool-cases (equal v p)) [ inl y ↦ rw (y) | inr n ↦ rw (n, h) ]

parents_first-append :
    (seen : List Text) (vs ws : List VaultGroup)
    → parents_first seen vs ≡ true
    → parents_first seen ws ≡ true
    → parents_first seen (vs ++ ws) ≡ true
parents_first-append seen [] ws h k = k
parents_first-append seen (v ∷ vs) ws h k =
    let both = &&-true (knows_parent seen v.parent_uuid) _ h in
    rw (
      both.0,
      parents_first-append (v.uuid ∷ seen) vs ws both.1
          (parents_first_more seen (v.uuid ∷ seen) ws (Includes-more v.uuid seen) k),
    )

mutual
  unfolding traverse group_view

  traverse-parents_first :
      (entries : List Entry) (parents : List Group) (seen : List Text) (g : Group)
      → knows_parent seen (parent_of parents) ≡ true
      → parents_first seen (traverse entries parents g) ≡ true
  traverse-parents_first entries parents seen (group u name below) h = rw (
    h,
    traverse_below-parents_first entries (group u name below) parents (u ∷ seen) below
        (rw (equal_refl u)),
  )

  traverse_below-parents_first :
      (entries : List Entry) (g : Group) (parents : List Group) (seen : List Text) (gs : Groups)
      → seen_has seen (group_uuid g) ≡ true
      → parents_first seen (traverse_below entries (g ∷ parents) gs) ≡ true
  traverse_below-parents_first entries g parents seen no_groups h = refl
  traverse_below-parents_first entries g parents seen (more_groups x xs) h =
      parents_first-append seen (traverse entries (g ∷ parents) x)
        (traverse_below entries (g ∷ parents) xs)
        (traverse-parents_first entries (g ∷ parents) seen x h)
        (traverse_below-parents_first entries g parents seen xs h)

-- `getGroups` lists each folder behind its parent.
pub get_groups-parents_first : (db : Database) → parents_first [] (get_groups db) ≡ true
unfolding get_groups
get_groups-parents_first db = traverse-parents_first db.entries [] [] db.root refl
