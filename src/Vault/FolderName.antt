-- ===== src/Vault/FolderName.antt =====
-- The names of folders: `folderName` of frontend/src/lib/kdbx.ts.
use kypassword_server.Base.{
  ◌≤◌, inr, inl, ℕ, Text, codes, trim, trim_start, trim_end, is_space, is_empty, within, any,
  length, ltb, Bool, false, ◌&&◌, ◌||◌, ◌==◌, [], ◌∷◌, ◌≡◌, refl, arith, Result, ok, throw,
  if◌then◌else◌, Bool-cases,
}
use kypassword_server.Api.{Thrown, other_error}

-- `FOLDER_NAME_FORBIDDEN`.
abbrev pub is_forbidden : ℕ → Bool
is_forbidden c =
    within 0 0x1f c
    || within 0x7f 0x9f c
    || within 0x200b 0x200f c
    || within 0x202a 0x202e c
    || within 0x2066 0x2069 c
    || c == 0xfeff

abbrev max_folder_name_length : ℕ
max_folder_name_length = 255

unfoldable pub check_name : Text → Result Thrown Text
check_name trimmed =
    if is_empty trimmed || any is_forbidden trimmed
    then throw (other_error (codes "Enter a folder name without control characters."))
    else if ltb max_folder_name_length (length trimmed)
    then throw (other_error (codes "Enter a folder name of 255 characters or fewer."))
    else ok trimmed

unfoldable pub folder_name : Text → Result Thrown Text
unfolding check_name trim
folder_name name = check_name (trim name)

trim_start-twice : (s : Text) → trim_start (trim_start s) ≡ trim_start s
unfolding trim_start
trim_start-twice [] = refl
trim_start-twice (c ∷ s) = elim (Bool-cases (is_space c)) [
  | inl y ↦ rw (y, trim_start-twice s)
  | inr n ↦ rw (n, n)
]

trim_end-twice : (s : Text) → trim_end (trim_end s) ≡ trim_end s
unfolding trim_end
trim_end-twice [] = refl
trim_end-twice (c ∷ s) = elim (Bool-cases (is_empty (trim_end s) && is_space c)) [
  | inl y ↦ rw (y)
  | inr n ↦ rw (n, trim_end-twice s, n)
]

-- Trimming the end brings no space to the front.
trim_start-trim_end : (s : Text) → trim_start (trim_end (trim_start s)) ≡ trim_end (trim_start s)
unfolding trim_start trim_end
trim_start-trim_end [] = refl
trim_start-trim_end (c ∷ s) = elim (Bool-cases (is_space c)) [
  | inl y ↦ rw (y, trim_start-trim_end s)
  | inr n ↦ elim (Bool-cases (is_empty (trim_end s))) [
    | inl e ↦ rw (n, e, n, n)
    | inr f ↦ rw (n, f, n)
  ]
]

trim_twice : (s : Text) → trim (trim s) ≡ trim s
unfolding trim
trim_twice s = rw (trim_start-trim_end s, trim_end-twice (trim_start s))

is_allowed : (s : Text) → (is_empty s || any is_forbidden s) ≡ false → any is_forbidden s ≡ false
is_allowed [] h = refl
is_allowed (c ∷ s) h = h

check_name-ok :
    (s t : Text) → check_name s ≡ ok t → (t ≡ s) × (length s ≤ 255) × (any is_forbidden s ≡ false)
unfolding check_name
check_name-ok s t h = elim (Bool-cases (is_empty s || any is_forbidden s)) [
  | inl y ↦ let refused = rw (y) at h in cc
  | inr n ↦ elim (Bool-cases (ltb 255 (length s))) [
    | inl long ↦ let refused = rw (n, long) at h in cc
    | inr short ↦ let accepted = rw (n, short) at h in (cc, ground arith, is_allowed s n)
  ]
]

-- A name that is accepted comes out trimmed, has at most 255 units and none that is forbidden, and
-- is accepted as it is when it is entered again.
pub folder_name-ok :
    (s t : Text)
    → folder_name s ≡ ok t
    → (t ≡ trim s) × (length t ≤ 255) × (any is_forbidden t ≡ false) × (folder_name t ≡ ok t)
unfolding folder_name
folder_name-ok s t h =
    let checked = check_name-ok (trim s) t h in
    let same = checked.0 in
    (same, rw (same) checked.1, rw (same) checked.2, rw (same, trim_twice s) (rw (same) at h))
