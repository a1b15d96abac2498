-- ===== src/Vault/Recover/Rounds.antt =====
-- The loop of `recoverEntryCopy` of frontend/src/lib/kdbx.ts over the states of the copy.
use kypassword_server.Base.{All}
use kypassword_server.Base.{
  ℕ, Text, Option, none, some, List, [], ◌∷◌, ◌≡◌, inl, inr, refl, sym, ◌∙◌, arith,
}
use kypassword_server.Base.{Option-cases}
use mathlib.Core.Option.{some-injective, none-ne-some}
use kypassword_server.Vault.{Value}
use kypassword_server.Crypto.{Bytes}
use kypassword_server.Vault.Fields.{get_key}
use kypassword_server.Vault.Recover.{
  Item, IconState, new_id, re_identify, re_identify_all, set_icons,
}
use kypassword_server.Vault.Recover.Icons.{
  ShowIcons, HasIcon, set_icons-other, has_key-absent, has_key-present, IsFresh, ShowsIcon,
  IsStable, IsKept, Settled, IsValid, Settled-IsKept, IsStable-source, new_id-Settled,
}

module _ (random : ℕ → Text) (existing source : List (Text × Bytes))
    (fresh : IsFresh random existing source) where
  -- The item `new` for `old`, once the state `s` is reached.
  abbrev pub SettledItem : IconState → Item → Item → Type 0
  SettledItem s old new =
      (i : Text) (v : Bytes)
      → old.custom_icon ≡ some i
      → get_key i source ≡ some v
      → (j : Text) × ((new.custom_icon ≡ some j) × Settled random existing source fresh s j v)

  abbrev pub SettledItems : IconState → List Item → List Item → Type 0
  SettledItems s [] [] = Unit
  SettledItems s [] (y ∷ ys) = ⊥
  SettledItems s (x ∷ xs) [] = ⊥
  SettledItems s (x ∷ xs) (y ∷ ys) = SettledItem s x y × SettledItems s xs ys

  -- What one round of the loop leaves.
  abbrev pub IsDone : Item → IconState → Item × IconState → Type 0
  IsDone item s r =
      SettledItem r.1 item r.0
      × (IsKept random existing source fresh s r.1 × IsValid random existing source fresh r.1)

  IsDone-same :
      (item : Item) (s : IconState)
      → IsValid random existing source fresh s
      → SettledItem s item item
      → IsDone item s (item, s)
  IsDone-same item s valid h = (h, ((omega arith, λ k st. refl), valid))

  re_identify-absent :
      (fields : List (Text × Value)) (c : ℕ) (id : Text) (s : IconState)
      → get_key (c ∷ id) existing ≡ none
      → re_identify random existing source
          (record { fields = fields; custom_icon = some (c ∷ id) })
          s
        ≡ (record { fields = fields; custom_icon = some (c ∷ id) }, s)
  unfolding re_identify
  re_identify-absent fields c id s h = rw (has_key-absent (c ∷ id) existing h)

  re_identify-unknown :
      (fields : List (Text × Value)) (c : ℕ) (id : Text) (s : IconState)
      → get_key (c ∷ id) source ≡ none
      → re_identify random existing source
          (record { fields = fields; custom_icon = some (c ∷ id) })
          s
        ≡ (record { fields = fields; custom_icon = some (c ∷ id) }, s)
  unfolding re_identify
  re_identify-unknown fields c id s h = elim (Option-cases (get_key (c ∷ id) existing)) [
    | inl e ↦ rw (has_key-absent (c ∷ id) existing e)
    | inr (w, e) ↦ rw (has_key-present (c ∷ id) existing e, h)
  ]

  re_identify-known :
      (fields : List (Text × Value)) (c : ℕ) (id : Text) (s : IconState) {w v : Bytes}
      → get_key (c ∷ id) existing ≡ some w
      → get_key (c ∷ id) source ≡ some v
      → re_identify random existing source
          (record { fields = fields; custom_icon = some (c ∷ id) })
          s
        ≡ (
          record {
            fields = fields;
            custom_icon = some ((new_id random existing source (c ∷ id) v s).0);
          },
          (new_id random existing source (c ∷ id) v s).1,
        )
  unfolding re_identify
  re_identify-known fields c id s e h = rw (has_key-present (c ∷ id) existing e, h)

  pub re_identify-IsDone :
      (fields : List (Text × Value)) (icon : Option Text) (s : IconState)
      → get_key [] source ≡ none
      → IsValid random existing source fresh s
      → HasIcon source s.icons (record { fields = fields; custom_icon = icon })
      → IsDone
          (record { fields = fields; custom_icon = icon })
          s
          (re_identify random existing source (record { fields = fields; custom_icon = icon }) s)
  unfolding re_identify
  re_identify-IsDone fields none s ne valid has =
      IsDone-same (record { fields = fields; custom_icon = none }) s valid
        (λ i v h g. absurd (none-ne-some i h))
  re_identify-IsDone fields (some []) s ne valid has =
      IsDone-same (record { fields = fields; custom_icon = some [] }) s valid
        (λ i v h g.
          let known = rw (← some-injective [] i h) at g in absurd (none-ne-some v (sym ne ∙ known)))
  re_identify-IsDone fields (some (c ∷ id)) s ne valid has =
      elim (Option-cases (get_key (c ∷ id) existing)) [
        | inl not_there ↦ rw (re_identify-absent fields c id s not_there) (
            IsDone-same (record { fields = fields; custom_icon = some (c ∷ id) }) s valid
              (λ i v h g.
                let absent = rw (some-injective (c ∷ id) i h) at not_there in
                (
                  i,
                  (
                    h,
                    (has i v h g, (IsStable-source random existing source fresh s i v g, absent)),
                  ),
                )))
        | inr (w, there) ↦ elim (Option-cases (get_key (c ∷ id) source)) [
          | inl unknown ↦ rw (re_identify-unknown fields c id s unknown) (
              IsDone-same (record { fields = fields; custom_icon = some (c ∷ id) }) s valid
                (λ i v h g.
                  let known = rw (← some-injective (c ∷ id) i h) at g in
                  absurd (none-ne-some v (sym unknown ∙ known))))
          | inr (icon, known) ↦ rw (re_identify-known fields c id s there known) (
              let r = new_id-Settled random existing source fresh (c ∷ id) icon s valid known in
              (
                (λ i v h g.
                    let again = rw (← some-injective (c ∷ id) i h) at g in
                    let same = some-injective icon v (sym known ∙ again) in
                    ((new_id random existing source (c ∷ id) icon s).0, (refl, rw⁻¹ same r.0))),
                r.1,
              ))
        ]
      ]

  IsStable-IsKept :
      (s t : IconState) (k : Text)
      → IsKept random existing source fresh s t
      → IsStable random existing source fresh s k
      → IsStable random existing source fresh t k
  IsStable-IsKept s t k kept st m le = st m (omega (arith, le, kept.0))

  IsKept-trans :
      (s t u : IconState)
      → IsKept random existing source fresh s t
      → IsKept random existing source fresh t u
      → IsKept random existing source fresh s u
  IsKept-trans s t u a b =
      (omega (arith, a.0, b.0), λ k st. b.1 k (IsStable-IsKept s t k a st) ∙ a.1 k st)

  pub SettledItem-IsKept :
      (s t : IconState) (old new : Item)
      → IsKept random existing source fresh s t
      → SettledItem s old new
      → SettledItem t old new
  SettledItem-IsKept s t old new kept h i v e g =
      let r = h i v e g in
      (r.0, (r.1.0, Settled-IsKept random existing source fresh s t r.0 v kept r.1.1))

  HasIcon-IsKept :
      (s t : IconState) (item : Item)
      → IsKept random existing source fresh s t
      → HasIcon source s.icons item
      → HasIcon source t.icons item
  HasIcon-IsKept s t item kept h i v e g =
      kept.1 i (IsStable-source random existing source fresh s i v g) ∙ h i v e g

  pub All-HasIcon :
      (s t : IconState) (items : List Item)
      → IsKept random existing source fresh s t
      → All (HasIcon source s.icons) items
      → All (HasIcon source t.icons) items
  All-HasIcon s t [] kept h = tt
  All-HasIcon s t (x ∷ xs) kept h = (HasIcon-IsKept s t x kept h.0, All-HasIcon s t xs kept h.1)

  pub re_identify_all-Settled :
      (items : List Item) (s : IconState)
      → get_key [] source ≡ none
      → IsValid random existing source fresh s
      → All (HasIcon source s.icons) items
      → SettledItems
          (re_identify_all random existing source items s).1
          items
          (re_identify_all random existing source items s).0
        × IsKept random existing source fresh s (re_identify_all random existing source items s).1
  unfolding re_identify_all
  re_identify_all-Settled [] s ne valid has = (tt, (omega arith, λ k st. refl))
  re_identify_all-Settled (x ∷ xs) s ne valid has =
      let one = re_identify-IsDone x.fields x.custom_icon s ne valid has.0 in
      let t = (re_identify random existing source x s).1 in
      let u = (re_identify_all random existing source xs t).1 in
      let rest = re_identify_all-Settled xs t ne one.1.1 (All-HasIcon s t xs one.1.0 has.1) in
      (
        (
          SettledItem-IsKept t u x ((re_identify random existing source x s).0) rest.1 one.0,
          rest.0,
        ),
        IsKept-trans s t u one.1.0 rest.1,
      )

  pub SettledItem-ShowsIcon :
      (s : IconState) (old new : Item)
      → SettledItem s old new
      → ShowsIcon source (set_icons existing s.icons) old new
  SettledItem-ShowsIcon s old new h i v e g =
      let r = h i v e g in (r.0, r.1.0, set_icons-other r.0 existing s.icons r.1.1.1.1 ∙ r.1.1.0)

  pub SettledItems-ShowIcons :
      (s : IconState) (old new : List Item)
      → SettledItems s old new
      → ShowIcons source (set_icons existing s.icons) old new
  SettledItems-ShowIcons s [] [] h = tt
  SettledItems-ShowIcons s [] (y ∷ ys) h = h
  SettledItems-ShowIcons s (x ∷ xs) [] h = h
  SettledItems-ShowIcons s (x ∷ xs) (y ∷ ys) h =
      (SettledItem-ShowsIcon s x y h.0, SettledItems-ShowIcons s xs ys h.1)
