-- ===== src/Dialog/Admin/Users.antt =====
-- The list of users of frontend/src/pages/AdminPanel.tsx after an account was switched off and on.
use kypassword_server.Base.{
  Text, equal, Bool, Bool-cases, true, false, not, List, [], ◌∷◌, ◌≡◌, inl, inr, refl, ap₂, ◌∙◌, ok,
  All, if◌then◌else◌, sym,
}
use kypassword_server.Dialog.Admin.{User, AdminPanel, set_active, toggled}

-- Every user of the list with the id is active or not as told.
abbrev pub HasActive : Text → Bool → List User → Type 0
HasActive id active users = All (λ u. equal u.id id ≡ true → u.active ≡ active) users

set_one : Text → Bool → User → User
set_one id a u = if equal u.id id then record u { active = a } else u

set_one-again : (id : Text) (a b : Bool) (u : User) → set_one id a (set_one id b u) ≡ set_one id a u
unfolding set_one
set_one-again id a b u = elim (Bool-cases (equal u.id id)) [ inl e ↦ rw (e, e) | inr n ↦ rw (n, n) ]

set_one-same :
    (id : Text) (a : Bool) (u : User) → (equal u.id id ≡ true → u.active ≡ a) → set_one id a u ≡ u
unfolding set_one
set_one-same id a u h = elim (Bool-cases (equal u.id id)) [
  | inl e ↦ rw (e, sym (h e))
  | inr n ↦ rw (n)
]

set_one-HasActive :
    (id : Text) (a : Bool) (u : User)
    → equal (set_one id a u).id id ≡ true
    → (set_one id a u).active ≡ a
unfolding set_one
set_one-HasActive id a u h = elim (Bool-cases (equal u.id id)) [
  | inl e ↦ rw (e)
  | inr n ↦ let bad = rw (n) at h in cc
]

set_active-HasActive :
    (id : Text) (a : Bool) (users : List User) → HasActive id a (set_active id a users)
unfolding set_active set_one
set_active-HasActive id a [] = tt
set_active-HasActive id a (u ∷ users) = (set_one-HasActive id a u, set_active-HasActive id a users)

set_active-again :
    (id : Text) (a b : Bool) (users : List User)
    → set_active id a (set_active id b users) ≡ set_active id a users
unfolding set_active set_one
set_active-again id a b [] = refl
set_active-again id a b (u ∷ users) =
    ap₂ (λ x y. x ∷ y) (set_one-again id a b u) (set_active-again id a b users)

set_active-same :
    (id : Text) (a : Bool) (users : List User)
    → HasActive id a users
    → set_active id a users ≡ users
unfolding set_active set_one
set_active-same id a [] h = refl
set_active-same id a (u ∷ users) h =
    ap₂ (λ x y. x ∷ y) (set_one-same id a u h.0) (set_active-same id a users h.1)

not-not : (b : Bool) → not (not b) ≡ b
not-not true = refl
not-not false = refl

-- Where the list shows the account as the administrator saw it: after it was switched, every row of the
-- account has the other state, and after it was switched again the list is what it was.
pub toggled_twice :
    (u : User) (s : AdminPanel)
    → HasActive u.id u.active s.users_list
    → HasActive u.id (not u.active) (toggled u (ok tt) s).users_list
      × ((toggled (record u { active = not u.active }) (ok tt) (toggled u (ok tt) s)).users_list
          ≡ s.users_list)
unfolding toggled
toggled_twice u s h = (
  set_active-HasActive u.id (not u.active) s.users_list,
  set_active-again u.id (not (not u.active)) (not u.active) s.users_list
      ∙ (rw (not-not u.active) (set_active-same u.id u.active s.users_list h)),
)
