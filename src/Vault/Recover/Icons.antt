-- ===== src/Vault/Recover/Icons.antt =====
-- The custom icons after `recoverEntryCopy` of frontend/src/lib/kdbx.ts.
use kypassword_server.Base.{
  ℕ, suc, ◌≤◌, ◌<◌, Text, equal, equal_iff, Bool-cases, true, false, none, some, List, [], ◌∷◌, ◌≡◌,
  inl, inr, refl, sym, ◌∙◌, arith,
}
use kypassword_server.Base.{Option-cases}
use kypassword_server.Crypto.{Bytes}
use kypassword_server.Vault.Fields.{get_key, set_key, get_key-set_key, get_key-set_key_other}
use kypassword_server.Vault.Recover.{Item, IconState, has_key, new_id, set_icons}

-- The keys of a `Map`.
abbrev pub HasUniqueKeys : List (Text × Bytes) → Type 0
HasUniqueKeys [] = Unit
HasUniqueKeys ((k, v) ∷ m) = (get_key k m ≡ none) × HasUniqueKeys m

pub set_icons-other :
    (k : Text) (ex ic : List (Text × Bytes))
    → get_key k ex ≡ none
    → get_key k (set_icons ex ic) ≡ get_key k ic
unfolding set_icons get_key
set_icons-other k [] ic h = refl
set_icons-other k ((i, v) ∷ ex) ic h = elim (Bool-cases (equal i k)) [
  | inl e ↦ let bad = rw e at h in cc
  | inr e ↦ set_icons-other k ex (set_key i v ic) (rw e at h) ∙ get_key-set_key_other k i v ic e
]

pub set_icons-keeps :
    (k : Text) (b : Bytes) (ex ic : List (Text × Bytes))
    → HasUniqueKeys ex
    → get_key k ex ≡ some b
    → get_key k (set_icons ex ic) ≡ some b
unfolding set_icons get_key
set_icons-keeps k b [] ic u h = cc
set_icons-keeps k b ((i, v) ∷ ex) ic u h = elim (Bool-cases (equal i k)) [
  | inl e ↦
      let same = (equal_iff i k).0 e in
      set_icons-other k ex (set_key i v ic) (rw same at u.0)
      ∙ (rw (same) (get_key-set_key k v ic) ∙ rw e at h)
  | inr e ↦ set_icons-keeps k b ex (set_key i v ic) u.1 (rw e at h)
]

pub has_key-absent : (k : Text) (m : List (Text × Bytes)) → get_key k m ≡ none → has_key k m ≡ false
has_key-absent k m h = rw (has_key, h)

pub has_key-present :
    (k : Text) (m : List (Text × Bytes)) {v : Bytes} → get_key k m ≡ some v → has_key k m ≡ true
has_key-present k m h = rw (has_key, h)

-- What the ids of `KdbxUuid.random()` are expected to be: new, and different.
pub record IsFresh (random : ℕ → Text) (existing source : List (Text × Bytes)) : Type 0 where
  pub distinct : (m n : ℕ) → equal (random m) (random n) ≡ true → m ≡ n
  pub not_existing : (n : ℕ) → get_key (random n) existing ≡ none
  pub not_source : (n : ℕ) → get_key (random n) source ≡ none

-- The icon that the first item has in `source` is the icon that the second item has in `icons`.
abbrev pub ShowsIcon : List (Text × Bytes) → List (Text × Bytes) → Item → Item → Type 0
ShowsIcon source icons old new =
    (i : Text) (v : Bytes)
    → old.custom_icon ≡ some i
    → get_key i source ≡ some v
    → (j : Text) × (new.custom_icon ≡ some j) × (get_key j icons ≡ some v)

-- The icon that the item has in `source` is there in `icons`.
abbrev pub HasIcon : List (Text × Bytes) → List (Text × Bytes) → Item → Type 0
HasIcon source icons item =
    (i : Text) (v : Bytes)
    → item.custom_icon ≡ some i
    → get_key i source ≡ some v
    → get_key i icons ≡ some v

-- The same of two lists of items, one by one.
abbrev pub ShowIcons : List (Text × Bytes) → List (Text × Bytes) → List Item → List Item → Type 0
ShowIcons source icons [] [] = Unit
ShowIcons source icons [] (y ∷ ys) = ⊥
ShowIcons source icons (x ∷ xs) [] = ⊥
ShowIcons source icons (x ∷ xs) (y ∷ ys) = ShowsIcon source icons x y × ShowIcons source icons xs ys

module _ (random : ℕ → Text) (existing source : List (Text × Bytes))
    (fresh : IsFresh random existing source) where
  -- No id drawn after the state `s` is `k`.
  abbrev pub IsStable : IconState → Text → Type 0
  IsStable s k = (m : ℕ) → s.drawn ≤ m → equal (random m) k ≡ false

  abbrev pub IsKept : IconState → IconState → Type 0
  IsKept s t =
      (s.drawn ≤ t.drawn) × ((k : Text) → IsStable s k → get_key k t.icons ≡ get_key k s.icons)

  abbrev pub Settled : IconState → Text → Bytes → Type 0
  Settled s j v = (get_key j s.icons ≡ some v) × (IsStable s j × (get_key j existing ≡ none))

  abbrev pub IsValid : IconState → Type 0
  IsValid s =
      (i n : Text) (v : Bytes)
      → get_key i s.imported ≡ some n
      → get_key i source ≡ some v
      → Settled s n v

  pub Settled-IsKept :
      (s t : IconState) (j : Text) (v : Bytes) → IsKept s t → Settled s j v → Settled t j v
  Settled-IsKept s t j v k h =
      (k.1 j h.1.0 ∙ h.0, (λ m le. h.1.0 m (omega (arith, le, k.0)), h.1.1))

  pub IsStable-source :
      (s : IconState) (i : Text) (v : Bytes) → get_key i source ≡ some v → IsStable s i
  IsStable-source s i v h m le = elim (Bool-cases (equal (random m) i)) [
    | inl e ↦
        let drawn : get_key (random m) source ≡ some v = rw ((equal_iff (random m) i).0 e) h in
        let bad : none ≡ some v = sym (fresh.not_source m) ∙ drawn in cc
    | inr e ↦ e
  ]

  random-IsStable : (s : IconState) (n : ℕ) → n < s.drawn → IsStable s (random n)
  random-IsStable s n lt m le = elim (Bool-cases (equal (random m) (random n))) [
    | inl e ↦ let same = fresh.distinct m n e in absurd (omega (arith, same, lt, le))
    | inr e ↦ e
  ]

  -- The state after an icon is given a new id.
  abbrev added : Text → Bytes → IconState → IconState
  unfolding set_key
  added id icon s = record {
    imported = set_key id (random s.drawn) s.imported;
    icons = set_key (random s.drawn) icon s.icons;
    drawn = suc s.drawn;
  }

  added-IsKept : (id : Text) (icon : Bytes) (s : IconState) → IsKept s (added id icon s)
  unfolding added
  added-IsKept id icon s = (
    omega arith,
    λ k st. get_key-set_key_other k (random s.drawn) icon s.icons (st s.drawn (omega arith)),
  )

  added-Settled :
      (id : Text) (icon : Bytes) (s : IconState) → Settled (added id icon s) (random s.drawn) icon
  unfolding added set_key
  added-Settled id icon s = (
    get_key-set_key (random s.drawn) icon s.icons,
    (random-IsStable (added id icon s) s.drawn (omega arith), fresh.not_existing s.drawn),
  )

  added-IsValid :
      (id : Text) (icon : Bytes) (s : IconState)
      → IsValid s
      → get_key id source ≡ some icon
      → IsValid (added id icon s)
  unfolding added
  added-IsValid id icon s valid h i n v e g = elim (Bool-cases (equal id i)) [
    | inl y ↦
        let same = (equal_iff id i).0 y in
        let found : get_key i (set_key i (random s.drawn) s.imported) ≡ some n = rw (same) at e in
        let put : some (random s.drawn) ≡ some n =
          sym (get_key-set_key i (random s.drawn) s.imported) ∙ found in
        let is_n : random s.drawn ≡ n = cc in
        let is_v : icon ≡ v = cc in rw (sym is_n, sym is_v) (added-Settled id icon s)
    | inr y ↦
        Settled-IsKept s (added id icon s) n v (added-IsKept id icon s)
          (valid i n v (sym (get_key-set_key_other i id (random s.drawn) s.imported y) ∙ e) g)
  ]

  pub new_id-Settled :
      (id : Text) (icon : Bytes) (s : IconState)
      → IsValid s
      → get_key id source ≡ some icon
      → Settled
          (new_id random existing source id icon s).1
          (new_id random existing source id icon s).0
          icon
        × (IsKept s (new_id random existing source id icon s).1
            × IsValid (new_id random existing source id icon s).1)
  unfolding new_id get_key equal added
  new_id-Settled id icon s valid h = elim (Option-cases (get_key id s.imported)) [
    | inr (n, e) ↦ rw (new_id, e) (valid id n icon e h, ((omega arith, λ k st. refl), valid))
    | inl e ↦
        rw (new_id, e)
          (added-Settled id icon s, (added-IsKept id icon s, added-IsValid id icon s valid h))
  ]
