-- ===== src/Reuse/Counts.antt =====
-- What `findReusedPasswords` (frontend/src/lib/passwordReuse.ts) reports.
use kypassword_server.Base.{
  lt→ltb, ltb→lt, ℕ, ◌<◌, Text, equal, equal_iff, equal_refl, is_empty, length, ltb, any, Bool,
  true, false, List, [], ◌∷◌, All, ◌≡◌, ap, Bool-cases, inl, inr,
}
use kypassword_server.Reuse.{
  find_reused_passwords, Entry, by_password, set_count, set_all, reused_groups,
}
use kypassword_server.Reuse.Groups.{
  ids_with, ids_in, is_among, later, ids_in-by_password, has_key, AreSound, by_password-AreSound,
}

abbrev pub reports : Text → List (Text × ℕ) → Bool
reports id m = any (λ r. equal r.0 id) m

set_count-reports : (id : Text) (n : ℕ) (m : List (Text × ℕ)) → reports id (set_count id n m) ≡ true
unfolding set_count
set_count-reports id n [] = rw (equal_refl id)
set_count-reports id n ((i, k) ∷ m) = elim (Bool-cases (equal i id)) [
  | inl y ↦ rw (y, y)
  | inr z ↦ rw (z, z) (set_count-reports id n m)
]

set_count-keeps :
    (j id : Text) (n : ℕ) (m : List (Text × ℕ))
    → reports j m ≡ true
    → reports j (set_count id n m) ≡ true
unfolding set_count
set_count-keeps j id n [] h = cc
set_count-keeps j id n ((i, k) ∷ m) h = elim (Bool-cases (equal i id)) [
  | inl y ↦ rw (y) h
  | inr z ↦ rw (z) (elim (Bool-cases (equal i j)) [
    | inl y ↦ rw (y)
    | inr o ↦ rw (o) (set_count-keeps j id n m (rw (o) at h))
  ])
]

set_all-keeps :
    (j : Text) (ids : List Text) (n : ℕ) (m : List (Text × ℕ))
    → reports j m ≡ true
    → reports j (set_all ids n m) ≡ true
unfolding set_all
set_all-keeps j [] n m h = h
set_all-keeps j (id ∷ ids) n m h =
    set_all-keeps j ids n (set_count id n m) (set_count-keeps j id n m h)

set_all-reports :
    (j : Text) (ids : List Text) (n : ℕ) (m : List (Text × ℕ))
    → is_among j ids ≡ true
    → reports j (set_all ids n m) ≡ true
unfolding set_all
set_all-reports j [] n m h = cc
set_all-reports j (id ∷ ids) n m h = elim (Bool-cases (equal id j)) [
  | inl y ↦
      set_all-keeps j ids n (set_count id n m) (rw ((equal_iff id j).0 y) (set_count-reports j n m))
  | inr o ↦ set_all-reports j ids n (set_count id n m) (rw (o) at h)
]

reused_groups-keeps :
    (j : Text) (gs : List (Text × List Text)) (m : List (Text × ℕ))
    → reports j m ≡ true
    → reports j (reused_groups gs m) ≡ true
unfolding reused_groups
reused_groups-keeps j [] m h = h
reused_groups-keeps j ((p, ids) ∷ gs) m h = elim (Bool-cases (ltb 1 (length ids))) [
  | inl y ↦ rw (y) (reused_groups-keeps j gs _ (set_all-keeps j ids (length ids) m h))
  | inr n ↦ rw (n) (reused_groups-keeps j gs m h)
]

reused_groups-reports :
    (p j : Text) (gs : List (Text × List Text)) (m : List (Text × ℕ))
    → is_among j (ids_in p gs) ≡ true
    → ltb 1 (length (ids_in p gs)) ≡ true
    → reports j (reused_groups gs m) ≡ true
unfolding reused_groups ids_in
reused_groups-reports p j [] m h l = cc
reused_groups-reports p j ((q, ids) ∷ gs) m h l = elim (Bool-cases (equal q p)) [
  | inl y ↦
      let long = rw (y) at l in
      rw (long) (reused_groups-keeps j gs _ (set_all-reports j ids (length ids) m (rw (y) at h)))
  | inr n ↦ reused_groups-reports p j gs _ (rw (n) at h) (rw (n) at l)
]

-- A number is the count of a password that more than one entry has, the reported one among them.
unfoldable pub IsCount : List Entry → Text × ℕ → Type 0
IsCount live r =
    (p : Text) × (is_empty p ≡ false)
    × (is_among r.0 (ids_with p live) ≡ true)
    × (r.1 ≡ length (ids_with p live))
    × (1 < r.1)

set_count-All :
    (P : Text × ℕ → Type 0) (id : Text) (n : ℕ) (m : List (Text × ℕ))
    → P (id, n)
    → All P m
    → All P (set_count id n m)
unfolding set_count
set_count-All P id n [] p a = (p, tt)
set_count-All P id n ((i, k) ∷ m) p a = elim (Bool-cases (equal i id)) [
  | inl y ↦ rw (y, (equal_iff i id).0 y) (p, a.1)
  | inr z ↦ rw (z) (a.0, set_count-All P id n m p a.1)
]

set_all-All :
    (P : Text × ℕ → Type 0) (ids : List Text) (n : ℕ) (m : List (Text × ℕ))
    → ((id : Text) → is_among id ids ≡ true → P (id, n))
    → All P m
    → All P (set_all ids n m)
unfolding set_all
set_all-All P [] n m f a = a
set_all-All P (id ∷ ids) n m f a =
    set_all-All P ids n (set_count id n m) (λ j h. f j (later (equal id j) (is_among j ids) h))
      (set_count-All P id n m (f id (rw (equal_refl id))) a)

tail-key :
    (p q : Text) (gs : List (Text × List Text))
    → has_key p gs ≡ false
    → has_key q gs ≡ true
    → equal p q ≡ false
tail-key p q gs n k = elim (Bool-cases (equal p q)) [
  | inl e ↦ let absurd = rw ((equal_iff p q).0 e, k) at n in cc
  | inr o ↦ o
]

own-IsCount :
    (live : List Entry) (p id : Text) (ids : List Text)
    → is_empty p ≡ false
    → ids ≡ ids_with p live
    → ltb 1 (length ids) ≡ true
    → is_among id ids ≡ true
    → IsCount live (id, length ids)
unfolding IsCount
own-IsCount live p id ids h own long among =
    (p, h, rw (own) at among, ap (λ is. length is) own, ltb→lt 1 (length ids) long)

-- Every group counts as many entries as have its password.
reused_groups-All :
    (live : List Entry) (gs : List (Text × List Text)) (m : List (Text × ℕ))
    → AreSound gs
    → ((p : Text) → is_empty p ≡ false → has_key p gs ≡ true → ids_in p gs ≡ ids_with p live)
    → All (IsCount live) m
    → All (IsCount live) (reused_groups gs m)
unfolding reused_groups AreSound ids_in
reused_groups-All live [] m s f a = a
reused_groups-All live ((p, ids) ∷ gs) m s f a =
    let rest : (q : Text)
        → is_empty q ≡ false
        → has_key q gs ≡ true
        → ids_in q gs ≡ ids_with q live =
      λ q h k. rw (tail-key p q gs s.0.1 k) at (f q h (later (equal p q) (has_key q gs) k)) in
    let own : ids ≡ ids_with p live = rw (equal_refl p) at (f p s.0.0 (rw (equal_refl p))) in
    elim (Bool-cases (ltb 1 (length ids))) [
      | inl y ↦ rw (y) (
          reused_groups-All live gs _ s.1 rest (
            set_all-All (IsCount live) ids (length ids) m
              (λ id h. own-IsCount live p id ids s.0.0 own y h) a))
      | inr n ↦ rw (n) (reused_groups-All live gs m s.1 rest a)
    ]

-- Each number that is reported is the count of the entries with one password, not empty, which the
-- reported entry and at least one other have; and each entry of such a password is reported.
pub find_reused_passwords-IsCount :
    (live : List Entry)
    → All (IsCount live) (find_reused_passwords live)
      × ((p id : Text)
          → is_empty p ≡ false
          → is_among id (ids_with p live) ≡ true
          → 1 < length (ids_with p live)
          → reports id (find_reused_passwords live) ≡ true)
unfolding find_reused_passwords AreSound ids_with ids_in
find_reused_passwords-IsCount live =
    let same = λ (p : Text) (h : is_empty p ≡ false). ids_in-by_password p live [] h in
    (
      reused_groups-All live (by_password live []) [] (by_password-AreSound live [] tt)
          (λ p h k. same p h) tt,
      λ p id h among long.
          reused_groups-reports p id (by_password live []) [] (rw (same p h) among)
            (rw (same p h) (lt→ltb 1 (length (ids_with p live)) long)),
    )
