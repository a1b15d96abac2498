-- ===== src/Vault/Fields.antt =====
-- The fields of an entry, a `Map` from names to values (frontend/src/lib/kdbx.ts).
use kypassword_server.Base.{
  inr, inl, Bool-cases, Text, equal, equal_iff, equal_refl, false, Option, none, some, List, [],
  ◌∷◌, ◌≡◌, refl, arith, if◌then◌else◌,
}
use kypassword_server.Vault.{Value, plain, protected}

module _ {V : Type 0} where
  -- `Map.get`.
  unfoldable pub get_key : Text → List (Text × V) → Option V
  unfolding equal
  get_key k [] = none
  get_key k ((j, v) ∷ m) = if equal j k then some v else get_key k m

  -- `Map.set`, which keeps the place of a key that is there.
  unfoldable pub set_key : Text → V → List (Text × V) → List (Text × V)
  unfolding equal
  set_key k v [] = (k, v) ∷ []
  set_key k v ((j, w) ∷ m) = if equal j k then (j, v) ∷ m else (j, w) ∷ set_key k v m

  -- `Map.delete`.
  unfoldable pub delete_key : Text → List (Text × V) → List (Text × V)
  unfolding equal
  delete_key k [] = []
  delete_key k ((j, w) ∷ m) = let rest = delete_key k m in if equal j k then rest else (j, w) ∷ rest

  pub get_key-set_key :
      (k : Text) (v : V) (m : List (Text × V)) → get_key k (set_key k v m) ≡ some v
  unfolding get_key set_key
  get_key-set_key k v [] = rw (equal_refl k)
  get_key-set_key k v ((j, w) ∷ m) = ground (arith, get_key-set_key k v m)

  pub get_key-set_key_other :
      (k l : Text) (v : V) (m : List (Text × V))
      → equal l k ≡ false
      → get_key k (set_key l v m) ≡ get_key k m
  unfolding get_key set_key
  get_key-set_key_other k l v [] h = ground arith
  get_key-set_key_other k l v ((j, w) ∷ m) h = elim (Bool-cases (equal j l)) [
    | inl e ↦ rw (e, (equal_iff j l).0 e, h)
    | inr e ↦ rw (e, get_key-set_key_other k l v m h)
  ]

  pub get_key-delete_key : (k : Text) (m : List (Text × V)) → get_key k (delete_key k m) ≡ none
  unfolding get_key delete_key
  get_key-delete_key k [] = refl
  get_key-delete_key k ((j, w) ∷ m) = ground (arith, get_key-delete_key k m)

  pub get_key-delete_key_other :
      (k l : Text) (m : List (Text × V))
      → equal l k ≡ false
      → get_key k (delete_key l m) ≡ get_key k m
  unfolding get_key delete_key
  get_key-delete_key_other k l [] h = refl
  get_key-delete_key_other k l ((j, w) ∷ m) h = elim (Bool-cases (equal j l)) [
    | inl e ↦ rw (e, (equal_iff j l).0 e, h, get_key-delete_key_other k l m h)
    | inr e ↦ rw (e, get_key-delete_key_other k l m h)
  ]

unfoldable pub value_text : Option Value → Text
value_text none = []
value_text (some (plain t)) = t
value_text (some (protected t)) = t

-- `entryFieldText`.
unfoldable pub entry_field_text : List (Text × Value) → Text → Text
unfolding value_text get_key
entry_field_text fields name = value_text (get_key name fields)
