-- ===== src/Reuse.antt =====
-- frontend/src/lib/passwordReuse.ts: which live entries share a password, by entry id.
pub mod Groups
pub mod Counts
use kypassword_server.Base.{
  ℕ, Text, equal, is_empty, length, ltb, Option, none, some, List, [], ◌∷◌, ◌++◌, if◌then◌else◌,
}

-- What the comparison reads of a live entry.
pub record Entry : Type 0 where
  pub uuid : Text
  pub password : Text

-- `byPassword.get(password)` and the push, or the `set` of a new list; a `Map` keeps the order of
-- insertion.
unfoldable pub add_id : Text → Text → List (Text × List Text) → List (Text × List Text)
add_id password id [] = (password, id ∷ []) ∷ []
add_id password id ((p, ids) ∷ m) =
    if equal p password then (p, ids ++ id ∷ []) ∷ m else (p, ids) ∷ add_id password id m

unfoldable pub by_password : List Entry → List (Text × List Text) → List (Text × List Text)
unfolding add_id equal
by_password [] m = m
by_password (e ∷ es) m =
    by_password es (if is_empty e.password then m else add_id e.password e.uuid m)

-- `Map.set` of a count.
unfoldable pub set_count : Text → ℕ → List (Text × ℕ) → List (Text × ℕ)
set_count id n [] = (id, n) ∷ []
set_count id n ((i, k) ∷ m) = if equal i id then (i, n) ∷ m else (i, k) ∷ set_count id n m

unfoldable pub set_all : List Text → ℕ → List (Text × ℕ) → List (Text × ℕ)
unfolding set_count
set_all [] n m = m
set_all (id ∷ ids) n m = set_all ids n (set_count id n m)

unfoldable pub reused_groups : List (Text × List Text) → List (Text × ℕ) → List (Text × ℕ)
unfolding set_all
reused_groups [] m = m
reused_groups ((p, ids) ∷ groups) m =
    reused_groups groups (if ltb 1 (length ids) then set_all ids (length ids) m else m)

-- `findReusedPasswords` of the vault's live entries.
unfoldable pub find_reused_passwords : List Entry → List (Text × ℕ)
unfolding by_password reused_groups
find_reused_passwords live = reused_groups (by_password live []) []

-- `Map.get`.
unfoldable pub get_count : Text → List (Text × ℕ) → Option ℕ
get_count id [] = none
get_count id ((i, k) ∷ m) = if equal i id then some k else get_count id m
