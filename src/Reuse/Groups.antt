-- ===== src/Reuse/Groups.antt =====
-- The groups by password that `findReusedPasswords` (frontend/src/lib/passwordReuse.ts) makes.
use kypassword_server.Base.{
  Text, equal, equal_iff, equal_refl, is_empty, any, Bool, true, false, ◌||◌, List, [], ◌∷◌, ◌++◌,
  map, select, if◌then◌else◌, ◌≡◌, refl, sym, ap, Bool-cases, inl, inr,
}
use kypassword_server.Reuse.{Entry, add_id, by_password}

-- The ids of the entries with a password.
unfoldable pub ids_with : Text → List Entry → List Text
unfolding equal
ids_with p es = map (λ e. e.uuid) (select (λ e. equal e.password p) es)

-- `byPassword.get(password)`, with no ids for a password that is not there.
unfoldable pub ids_in : Text → List (Text × List Text) → List Text
ids_in p [] = []
ids_in p ((q, ids) ∷ m) = if equal q p then ids else ids_in p m

abbrev pub is_among : Text → List Text → Bool
is_among id ids = any (λ i. equal i id) ids

pub later : (b c : Bool) → c ≡ true → (b || c) ≡ true
later true c h = refl
later false c h = h

append-nil : (ids : List Text) → ids ++ [] ≡ ids
append-nil [] = refl
append-nil (i ∷ ids) = ap (λ t. i ∷ t) (append-nil ids)

append_assoc : (a b c : List Text) → (a ++ b) ++ c ≡ a ++ (b ++ c)
append_assoc [] b c = refl
append_assoc (x ∷ a) b c = ap (λ t. x ∷ t) (append_assoc a b c)

others : (p q r : Text) → equal r q ≡ false → equal r p ≡ true → equal q p ≡ false
others p q r n z = elim (Bool-cases (equal q p)) [
  | inl e ↦ let absurd = rw ((equal_iff r p).0 z, (equal_iff q p).0 e, equal_refl p) at n in cc
  | inr o ↦ o
]

empty_other : (q p : Text) → is_empty q ≡ true → is_empty p ≡ false → equal q p ≡ false
unfolding equal
empty_other [] [] h k = cc
empty_other [] (c ∷ p) h k = refl
empty_other (c ∷ q) p h k = cc

ids_in-add_id :
    (p q id : Text) (m : List (Text × List Text))
    → ids_in p (add_id q id m) ≡ (if equal q p then ids_in p m ++ id ∷ [] else ids_in p m)
unfolding ids_in add_id
ids_in-add_id p q id [] = refl
ids_in-add_id p q id ((r, ids) ∷ m) = elim (Bool-cases (equal r q)) [
  | inl y ↦
      rw (y, (equal_iff r q).0 y)
        (elim (Bool-cases (equal q p)) [ inl z ↦ rw (z) refl | inr z ↦ rw (z) refl ])
  | inr n ↦ rw (n) (elim (Bool-cases (equal r p)) [
    | inl z ↦ rw (z, others p q r n z) refl
    | inr z ↦ rw (z) (ids_in-add_id p q id m)
  ])
]

pub ids_in-by_password :
    (p : Text) (es : List Entry) (m : List (Text × List Text))
    → is_empty p ≡ false
    → ids_in p (by_password es m) ≡ ids_in p m ++ ids_with p es
unfolding by_password ids_with
ids_in-by_password p [] m h = sym (append-nil (ids_in p m))
ids_in-by_password p (e ∷ es) m h = elim (Bool-cases (is_empty e.password)) [
  | inl y ↦ rw (y, empty_other e.password p y h) (ids_in-by_password p es m h)
  | inr n ↦
      rw
        (
          n,
          ids_in-by_password p es (add_id e.password e.uuid m) h,
          ids_in-add_id p e.password e.uuid m,
        )
        (elim (Bool-cases (equal e.password p)) [
          | inl z ↦ rw (z) (append_assoc (ids_in p m) (e.uuid ∷ []) (ids_with p es))
          | inr z ↦ rw (z) refl
        ])
]

abbrev pub has_key : Text → List (Text × List Text) → Bool
has_key p m = any (λ g. equal g.0 p) m

-- No password stands twice, and none is empty.
unfoldable pub AreSound : List (Text × List Text) → Type 0
AreSound [] = Unit
AreSound ((p, ids) ∷ m) = ((is_empty p ≡ false) × (has_key p m ≡ false)) × AreSound m

add_id-other :
    (p q id : Text) (m : List (Text × List Text))
    → equal q p ≡ false
    → has_key p m ≡ false
    → has_key p (add_id q id m) ≡ false
unfolding add_id
add_id-other p q id [] n h = rw (n) refl
add_id-other p q id ((r, ids) ∷ m) n h = elim (Bool-cases (equal r p)) [
  | inl y ↦ let absurd = rw (y) at h in cc
  | inr o ↦ elim (Bool-cases (equal r q)) [
    | inl z ↦ rw (z, o) (rw (o) at h)
    | inr z ↦ rw (z, o) (add_id-other p q id m n (rw (o) at h))
  ]
]

equal-sym : (g h : Text) → equal g h ≡ false → equal h g ≡ false
equal-sym g h n = elim (Bool-cases (equal h g)) [
  | inl e ↦ let same = rw ((equal_iff h g).0 e, equal_refl g) at n in cc
  | inr e ↦ e
]

add_id-AreSound :
    (q id : Text) (m : List (Text × List Text))
    → is_empty q ≡ false
    → AreSound m
    → AreSound (add_id q id m)
unfolding AreSound add_id
add_id-AreSound q id [] h s = ((h, refl), tt)
add_id-AreSound q id ((r, ids) ∷ m) h s = elim (Bool-cases (equal r q)) [
  | inl y ↦ rw (y) s
  | inr n ↦
      rw (n) ((s.0.0, add_id-other r q id m (equal-sym r q n) s.0.1), add_id-AreSound q id m h s.1)
]

pub by_password-AreSound :
    (es : List Entry) (m : List (Text × List Text)) → AreSound m → AreSound (by_password es m)
unfolding by_password
by_password-AreSound [] m s = s
by_password-AreSound (e ∷ es) m s = elim (Bool-cases (is_empty e.password)) [
  | inl y ↦ rw (y) (by_password-AreSound es m s)
  | inr n ↦ rw (n) (
      by_password-AreSound es (add_id e.password e.uuid m)
        (add_id-AreSound e.password e.uuid m n s))
]
