-- ===== src/Vault/Attachments/Counting.antt =====
-- What `attachmentUsage` of frontend/src/lib/kdbx.ts counts, as a sum over a set of hashes.
use kypassword_server.Base.{
  ℕ, ◌+◌, ◌≤◌, Text, equal, equal_iff, equal_refl, Bool, true, false, ◌||◌, List, [], ◌∷◌, All,
  if◌then◌else◌, ◌≡◌, refl, arith, Bool-cases, inl, inr,
}
use kypassword_server.Vault.{Binary, hashed, inline, has_group}
use kypassword_server.Vault.Attachments.{Usage, add_binary, add_binaries, inline_sum}

-- The sizes of different hashes.
unfoldable pub sum_sizes : (Text → ℕ) → List Text → ℕ
sum_sizes size [] = 0
sum_sizes size (h ∷ hs) = size h + sum_sizes size hs

-- No hash stands twice.
unfoldable pub is_distinct : List Text → Bool
is_distinct [] = true
is_distinct (h ∷ hs) = if has_group hs h then false else is_distinct hs

remove_hash : Text → List Text → List Text
remove_hash h [] = []
remove_hash h (g ∷ gs) = if equal g h then gs else g ∷ remove_hash h gs

-- The hash of a shared binary has the property.
abbrev pub OnHash : (Text → Type 0) → Binary → Type 0
OnHash P (hashed h n) = P h
OnHash P (inline n) = Unit

-- The hash determines the number of bytes.
abbrev pub IsSized : (Text → ℕ) → Binary → Type 0
IsSized size (hashed h n) = n ≡ size h
IsSized size (inline n) = Unit

abbrev pub Within : List Text → Text → Type 0
Within hs h = has_group hs h ≡ true

sum_sizes-remove_hash :
    (size : Text → ℕ) (h : Text) (hs : List Text)
    → has_group hs h ≡ true
    → sum_sizes size hs ≡ size h + sum_sizes size (remove_hash h hs)
unfolding sum_sizes remove_hash
sum_sizes-remove_hash size h [] m = cc
sum_sizes-remove_hash size h (g ∷ gs) m = elim (Bool-cases (equal g h)) [
  | inl e ↦ rw (e, (equal_iff g h).0 e) refl
  | inr e ↦ rw (e) (omega (arith, sum_sizes-remove_hash size h gs (rw (e) at m)))
]

remove_hash-Within :
    (h g : Text) (hs : List Text)
    → has_group hs g ≡ true
    → equal h g ≡ false
    → has_group (remove_hash h hs) g ≡ true
unfolding remove_hash
remove_hash-Within h g [] m n = cc
remove_hash-Within h g (f ∷ fs) m n = elim (Bool-cases (equal f h)) [
  | inl e ↦ rw (e) (rw ((equal_iff f h).0 e, n) at m)
  | inr e ↦ rw (e) (elim (Bool-cases (equal f g)) [
    | inl same ↦ rw (same)
    | inr other ↦ rw (other) (remove_hash-Within h g fs (rw (other) at m) n)
  ])
]

true-right : (b : Bool) → (b || true) ≡ true
true-right true = refl
true-right false = refl

equal-sym : (g h : Text) → equal g h ≡ false → equal h g ≡ false
equal-sym g h n = elim (Bool-cases (equal h g)) [
  | inl e ↦ let same = rw ((equal_iff h g).0 e, equal_refl g) at n in cc
  | inr e ↦ e
]

All-remove_hash :
    (h : Text) (gs hs : List Text)
    → All (Within gs) hs
    → has_group hs h ≡ false
    → All (Within (remove_hash h gs)) hs
All-remove_hash h gs [] w n = tt
All-remove_hash h gs (g ∷ hs) w n = elim (Bool-cases (equal g h)) [
  | inl e ↦ let absurd = rw (e) at n in cc
  | inr e ↦
      (remove_hash-Within h g gs w.0 (equal-sym g h e), All-remove_hash h gs hs w.1 (rw (e) at n))
]

-- What holds the hashes of a list without repetition weighs at least as much.
pub sum_sizes-le :
    (size : Text → ℕ) (hs gs : List Text)
    → is_distinct hs ≡ true
    → All (Within gs) hs
    → sum_sizes size hs ≤ sum_sizes size gs
unfolding sum_sizes is_distinct
sum_sizes-le size [] gs d w = omega arith
sum_sizes-le size (h ∷ hs) gs d w = elim (Bool-cases (has_group hs h)) [
  | inl e ↦ let absurd = rw (e) at d in cc
  | inr e ↦ omega (
    arith,
    sum_sizes-remove_hash size h gs w.0,
    sum_sizes-le size hs (remove_hash h gs) (rw (e) at d) (All-remove_hash h gs hs w.1 e),
  )
]

add_binary-total :
    (size : Text → ℕ) (u : Usage) (b : Binary) (n : ℕ)
    → IsSized size b
    → u.bytes ≡ n + sum_sizes size u.hashes
    → (add_binary u b).bytes ≡ inline_sum (b ∷ []) + n + sum_sizes size (add_binary u b).hashes
unfolding add_binary sum_sizes
add_binary-total size u (hashed h m) n s e = elim (Bool-cases (has_group u.hashes h)) [
  | inl y ↦ rw (y) (omega (arith, e))
  | inr y ↦ rw (y) (omega (arith, e, s))
]
add_binary-total size u (inline m) n s e = omega (arith, e)

pub inline_sum-cons :
    (b : Binary) (bs : List Binary) → inline_sum (b ∷ bs) ≡ inline_sum (b ∷ []) + inline_sum bs
inline_sum-cons (hashed h n) bs = omega arith
inline_sum-cons (inline n) bs = omega arith

-- The bytes counted are those of the inline binaries, and of each hash once.
pub add_binaries-total :
    (size : Text → ℕ) (u : Usage) (bs : List Binary) (n : ℕ)
    → All (IsSized size) bs
    → u.bytes ≡ n + sum_sizes size u.hashes
    → (add_binaries u bs).bytes ≡ inline_sum bs + n + sum_sizes size (add_binaries u bs).hashes
unfolding add_binaries
add_binaries-total size u [] n s e = omega (arith, e)
add_binaries-total size u (b ∷ bs) n s e = omega (
  arith,
  add_binaries-total size (add_binary u b) bs (inline_sum (b ∷ []) + n) s.1
      (add_binary-total size u b n s.0 e),
  inline_sum-cons b bs,
)

add_binary-is_distinct :
    (u : Usage) (b : Binary)
    → is_distinct u.hashes ≡ true
    → is_distinct (add_binary u b).hashes ≡ true
unfolding add_binary is_distinct
add_binary-is_distinct u (hashed h n) d = elim (Bool-cases (has_group u.hashes h)) [
  | inl y ↦ rw (y) d
  | inr y ↦ rw (y, y) d
]
add_binary-is_distinct u (inline n) d = d

pub add_binaries-is_distinct :
    (u : Usage) (bs : List Binary)
    → is_distinct u.hashes ≡ true
    → is_distinct (add_binaries u bs).hashes ≡ true
unfolding add_binaries
add_binaries-is_distinct u [] d = d
add_binaries-is_distinct u (b ∷ bs) d =
    add_binaries-is_distinct (add_binary u b) bs (add_binary-is_distinct u b d)

add_binary-All :
    (P : Text → Type 0) (u : Usage) (b : Binary)
    → OnHash P b
    → All P u.hashes
    → All P (add_binary u b).hashes
unfolding add_binary
add_binary-All P u (hashed h n) p a = elim (Bool-cases (has_group u.hashes h)) [
  | inl y ↦ rw (y) a
  | inr y ↦ rw (y) (p, a)
]
add_binary-All P u (inline n) p a = a

pub add_binaries-All :
    (P : Text → Type 0) (u : Usage) (bs : List Binary)
    → All (OnHash P) bs
    → All P u.hashes
    → All P (add_binaries u bs).hashes
unfolding add_binaries
add_binaries-All P u [] p a = a
add_binaries-All P u (b ∷ bs) p a =
    add_binaries-All P (add_binary u b) bs p.1 (add_binary-All P u b p.0 a)

add_binary-keeps :
    (u : Usage) (b : Binary) (h : Text)
    → has_group u.hashes h ≡ true
    → has_group (add_binary u b).hashes h ≡ true
unfolding add_binary
add_binary-keeps u (hashed g n) h m = elim (Bool-cases (has_group u.hashes g)) [
  | inl y ↦ rw (y) m
  | inr y ↦ rw (y, m) (true-right (equal g h))
]
add_binary-keeps u (inline n) h m = m

add_binary-has :
    (u : Usage) (h : Text) (n : ℕ) → has_group (add_binary u (hashed h n)).hashes h ≡ true
unfolding add_binary
add_binary-has u h n = elim (Bool-cases (has_group u.hashes h)) [
  | inl y ↦ rw (y) y
  | inr y ↦ rw (y, equal_refl h)
]

add_binaries-keeps :
    (u : Usage) (bs : List Binary) (h : Text)
    → has_group u.hashes h ≡ true
    → has_group (add_binaries u bs).hashes h ≡ true
unfolding add_binaries
add_binaries-keeps u [] h m = m
add_binaries-keeps u (b ∷ bs) h m =
    add_binaries-keeps (add_binary u b) bs h (add_binary-keeps u b h m)

-- Each hash of the list is counted.
pub add_binaries-Within :
    (u : Usage) (bs : List Binary) → All (OnHash (Within (add_binaries u bs).hashes)) bs
unfolding add_binaries
add_binaries-Within u [] = tt
add_binaries-Within u (hashed h n ∷ bs) = (
  add_binaries-keeps (add_binary u (hashed h n)) bs h (add_binary-has u h n),
  add_binaries-Within (add_binary u (hashed h n)) bs,
)
add_binaries-Within u (inline n ∷ bs) = (tt, add_binaries-Within (add_binary u (inline n)) bs)
