-- ===== src/Page/Shown.antt =====
-- Which entries frontend/src/pages/VaultPage.tsx lists.
use kypassword_server.Base.{
  Text, equal, equal_refl, Bool, true, false, ◌&&◌, ◌||◌, Option, List, [], ◌∷◌, All, select, map,
  ◌≡◌, refl, Bool-cases, inl, inr, &&-true,
}
use kypassword_server.Vault.{Kdbxweb, Entry, has_group}
use kypassword_server.Vault.Listing.{Library, get_entries, get_recycled_entries, recycled_group_ids}
use kypassword_server.Vault.Operations.{Changes}
use kypassword_server.Vault.Update.{VaultEntry}
use kypassword_server.Page.{
  Page, recycle_bin_view, matches_group, matches_search, filtered_entries, refresh_vault_data,
}

abbrev ids : List VaultEntry → List Text
ids es = map (λ e. e.uuid) es

later : (b c : Bool) → c ≡ true → (b || c) ≡ true
later true c h = refl
later false c h = h

-- What a test selects stands among the ids of the selection.
select-ids :
    (r : VaultEntry → Bool) (es : List VaultEntry) (all_ids : List Text)
    → ((u : Text) → has_group (ids (select r es)) u ≡ true → has_group all_ids u ≡ true)
    → All (λ e. r e ≡ true → has_group all_ids e.uuid ≡ true) es
select-ids r [] all_ids sub = tt
select-ids r (e ∷ es) all_ids sub = elim (Bool-cases (r e)) [
  | inl y ↦
      let within = λ (u : Text). rw (y) at (sub u) in
      (
        λ h. within e.uuid (rw (equal_refl e.uuid)),
        select-ids r es all_ids
            (λ u l. within u (later (equal e.uuid u) (has_group (ids (select r es)) u) l)),
      )
  | inr n ↦ (
    λ h. (let absurd = rw (n) at h in cc),
    select-ids r es all_ids (λ u l. (rw (n) at (sub u)) l),
  )
]

select-All_with :
    (P Q : VaultEntry → Type 0) (p : VaultEntry → Bool) (es : List VaultEntry)
    → ((e : VaultEntry) → P e → p e ≡ true → Q e)
    → All P es
    → All Q (select p es)
select-All_with P Q p [] f a = tt
select-All_with P Q p (e ∷ es) f a = elim (Bool-cases (p e)) [
  | inl y ↦ rw (y) (f e a.0 y, select-All_with P Q p es f a.1)
  | inr n ↦ rw (n) (select-All_with P Q p es f a.1)
]

-- An entry that matches outside the recycle bin's view is not listed as recycled.
matches_group-not_recycled :
    (s : Page) (e : VaultEntry)
    → equal s.selected_group_uuid recycle_bin_view ≡ false
    → matches_group s e ≡ true
    → has_group s.recycled_ids e.uuid ≡ false
unfolding matches_group
matches_group-not_recycled s e n h = elim (Bool-cases (has_group s.recycled_ids e.uuid)) [
  | inl y ↦ let absurd = rw (n, y) at h in cc
  | inr m ↦ m
]

not_inside : (b c : Bool) → (b ≡ true → c ≡ true) → c ≡ false → b ≡ false
not_inside true c h n = let absurd = h refl in cc
not_inside false c h n = refl

-- Once the page is refreshed, no view but the recycle bin's lists an entry of the recycle bin,
-- whatever is searched for and whether or not only reused passwords are shown.
pub filtered_entries-live :
    (lower : Text → Text) (k : Kdbxweb) (lib : Library) (ch : Changes)
    (move : Text → Text → List Entry → List Entry) (selected : Option Text) (s : Page)
    → equal s.selected_group_uuid recycle_bin_view ≡ false
    → All
        (λ e. has_group (recycled_group_ids lib s.vault) e.group_uuid ≡ false)
        (filtered_entries lower (refresh_vault_data k lib ch move selected s))
unfolding filtered_entries refresh_vault_data get_recycled_entries
filtered_entries-live lower k lib ch move selected s n =
    let recycled = λ (e : VaultEntry). has_group (recycled_group_ids lib s.vault) e.group_uuid in
    let es = get_entries s.vault in
    let all_ids = ids (select recycled es) in
    let page = refresh_vault_data k lib ch move selected s in
    select-All_with (λ e. recycled e ≡ true → has_group all_ids e.uuid ≡ true)
      (λ e. recycled e ≡ false) (λ e. matches_group page e && matches_search lower page e) es
      (λ e inside matched. not_inside (recycled e) (has_group all_ids e.uuid) inside (
        matches_group-not_recycled page e n
          (&&-true (matches_group page e) (matches_search lower page e) matched).0))
      (select-ids recycled es all_ids (λ u l. l))
