-- ===== src/Vault/Attachments/Kept.antt =====
-- What adding an attachment (frontend/src/lib/kdbx.ts) does to the list of the vault's binaries.
use kypassword_server.Base.{
  ℕ, ◌+◌, ◌≤◌, Text, equal, Option, none, some, List, [], ◌∷◌, ◌++◌, All, All-append, drop, length,
  if◌then◌else◌, ◌≡◌, ◌∙◌, refl, ap, arith, Bool-cases, inl, inr, ltb, zero, suc, ◌-◌,
}
use kypassword_server.Vault.{
  Binary, hashed, Version, Entry, Meta, Kdbxweb, IsSound, find_entry, change_entry,
}
use kypassword_server.Vault.Fields.{set_key}
use kypassword_server.Vault.History.{
  entry_history_enabled, push_entry_history, complete_snapshot, prune, item_limit,
}
use kypassword_server.Vault.Attachments.{
  values, version_binaries, entry_binaries, inline_sum, attach, touch_entry,
}
use kypassword_server.Vault.Attachments.Counting.{inline_sum-cons}

module _ {ℓ κ} {A : Type ℓ} (P : A → Type κ) where
  All-left : (xs ys : List A) → All P (xs ++ ys) → All P xs
  All-left [] ys h = tt
  All-left (x ∷ xs) ys h = (h.0, All-left xs ys h.1)

  All-right : (xs ys : List A) → All P (xs ++ ys) → All P ys
  All-right [] ys h = h
  All-right (x ∷ xs) ys h = All-right xs ys h.1

inline_sum-append : (bs cs : List Binary) → inline_sum (bs ++ cs) ≡ inline_sum bs + inline_sum cs
inline_sum-append [] cs = omega arith
inline_sum-append (b ∷ bs) cs =
    omega (arith, inline_sum-cons b (bs ++ cs), inline_sum-cons b bs, inline_sum-append bs cs)

-- The inline bytes of the versions.
unfoldable pub inline_bytes : List Version → ℕ
inline_bytes vs = inline_sum (version_binaries vs)

inline_bytes-append :
    (vs : List Version) (v : Version)
    → inline_bytes (vs ++ v ∷ []) ≡ inline_bytes vs + inline_sum (values v.binaries)
unfolding inline_bytes
inline_bytes-append [] v = omega (arith, inline_sum-append (values v.binaries) [])
inline_bytes-append (w ∷ vs) v = omega (
  arith,
  inline_sum-append (values w.binaries) (version_binaries (vs ++ v ∷ [])),
  inline_sum-append (values w.binaries) (version_binaries vs),
  inline_bytes-append vs v,
)

inline_bytes-drop : (n : ℕ) (vs : List Version) → inline_bytes (drop n vs) ≤ inline_bytes vs
unfolding inline_bytes
inline_bytes-drop zero vs = omega arith
inline_bytes-drop (suc n) [] = omega arith
inline_bytes-drop (suc n) (v ∷ vs) =
    omega
      (arith, inline_sum-append (values v.binaries) (version_binaries vs), inline_bytes-drop n vs)

inline_sum-set_key :
    (name h : Text) (n : ℕ) (m : List (Text × Binary))
    → inline_sum (values (set_key name (hashed h n) m)) ≤ inline_sum (values m)
unfolding set_key
inline_sum-set_key name h n [] = omega arith
inline_sum-set_key name h n ((j, b) ∷ m) = elim (Bool-cases (equal j name)) [
  | inl e ↦ rw (e) (omega (arith, inline_sum-cons b (values m)))
  | inr e ↦ rw (e) (
      omega (
        arith,
        inline_sum-cons b (values m),
        inline_sum-cons b (values (set_key name (hashed h n) m)),
        inline_sum-set_key name h n m,
      ))
]

module _ (P : Binary → Type 0) where
  All-versions_append :
      (vs : List Version) (v : Version)
      → All P (version_binaries vs)
      → All P (values v.binaries)
      → All P (version_binaries (vs ++ v ∷ []))
  All-versions_append [] v a p = All-append P (values v.binaries) [] p tt
  All-versions_append (w ∷ vs) v a p =
      All-append P (values w.binaries) (version_binaries (vs ++ v ∷ []))
        (All-left P (values w.binaries) (version_binaries vs) a)
        (All-versions_append vs v (All-right P (values w.binaries) (version_binaries vs) a) p)

  All-versions_drop :
      (n : ℕ) (vs : List Version)
      → All P (version_binaries vs)
      → All P (version_binaries (drop n vs))
  All-versions_drop zero vs a = a
  All-versions_drop (suc n) [] a = tt
  All-versions_drop (suc n) (v ∷ vs) a =
      All-versions_drop n vs (All-right P (values v.binaries) (version_binaries vs) a)

  All-set_key :
      (name : Text) (b : Binary) (m : List (Text × Binary))
      → P b
      → All P (values m)
      → All P (values (set_key name b m))
  unfolding set_key
  All-set_key name b [] p a = (p, tt)
  All-set_key name b ((j, c) ∷ m) p a = elim (Bool-cases (equal j name)) [
    | inl e ↦ rw (e) (p, a.1)
    | inr e ↦ rw (e) (a.0, All-set_key name b m p a.1)
  ]

  -- A change of one entry leaves the property everywhere if it leaves it there.
  pub All-change_entry :
      (uuid : Text) (old new : Entry) (es : List Entry)
      → find_entry uuid es ≡ some old
      → (All P (version_binaries (old.current ∷ old.history))
          → All P (version_binaries (new.current ∷ new.history)))
      → All P (entry_binaries es)
      → All P (entry_binaries (change_entry uuid new es))
  unfolding find_entry change_entry
  All-change_entry uuid old new [] f g a = a
  All-change_entry uuid old new (e ∷ es) f g a = elim (Bool-cases (equal e.uuid uuid)) [
    | inl y ↦
        let same : old ≡ e = (let found = rw (y) at f in cc) in
        let kept = rw (same) at g in
        rw (y) (
          All-append P (version_binaries (new.current ∷ new.history)) (entry_binaries es)
            (kept (All-left P (version_binaries (e.current ∷ e.history)) (entry_binaries es) a))
            (All-right P (version_binaries (e.current ∷ e.history)) (entry_binaries es) a))
    | inr n ↦ rw (n) (
        All-append P (version_binaries (e.current ∷ e.history))
          (entry_binaries (change_entry uuid new es))
          (All-left P (version_binaries (e.current ∷ e.history)) (entry_binaries es) a)
          (All-change_entry uuid old new es (rw (n) at f) g
            (All-right P (version_binaries (e.current ∷ e.history)) (entry_binaries es) a)))
  ]

pub inline_sum-change_entry :
    (uuid : Text) (old new : Entry) (es : List Entry) (extra : ℕ)
    → find_entry uuid es ≡ some old
    → inline_bytes (new.current ∷ new.history) ≤ inline_bytes (old.current ∷ old.history) + extra
    → inline_sum (entry_binaries (change_entry uuid new es))
      ≤ inline_sum (entry_binaries es) + extra
unfolding find_entry change_entry inline_bytes
inline_sum-change_entry uuid old new [] extra f g = cc
inline_sum-change_entry uuid old new (e ∷ es) extra f g = elim (Bool-cases (equal e.uuid uuid)) [
  | inl y ↦
      let same : old ≡ e = (let found = rw (y) at f in cc) in
      let bound = rw (same) at g in
      rw (y) (
        omega (
          arith,
          bound,
          inline_sum-append (version_binaries (new.current ∷ new.history)) (entry_binaries es),
          inline_sum-append (version_binaries (e.current ∷ e.history)) (entry_binaries es),
        ))
  | inr n ↦ rw (n) (
      omega (
        arith,
        inline_sum-append (version_binaries (e.current ∷ e.history))
            (entry_binaries (change_entry uuid new es)),
        inline_sum-append (version_binaries (e.current ∷ e.history)) (entry_binaries es),
        inline_sum-change_entry uuid old new es extra (rw (n) at f) g,
      ))
]

module _ (k : Kdbxweb) (sound : IsSound k) where
  All-prune :
      (P : Binary → Type 0) (l : Option ℕ) (vs : List Version)
      → All P (version_binaries vs)
      → All P (version_binaries (prune k l vs))
  unfolding prune
  All-prune P none vs a = a
  All-prune P (some n) vs a = elim (Bool-cases (ltb n (length vs))) [
    | inl y ↦
        rw (y, sound.remove_history-drop (length vs - n) vs)
          (All-versions_drop P (length vs - n) vs a)
    | inr y ↦ rw (y) a
  ]

  inline_bytes-prune :
      (l : Option ℕ) (vs : List Version) → inline_bytes (prune k l vs) ≤ inline_bytes vs
  unfolding prune
  inline_bytes-prune none vs = omega arith
  inline_bytes-prune (some n) vs = elim (Bool-cases (ltb n (length vs))) [
    | inl y ↦
        rw (y, sound.remove_history-drop (length vs - n) vs) (inline_bytes-drop (length vs - n) vs)
    | inr y ↦ rw (y) (omega arith)
  ]

  -- What the history is once the current version is pushed.
  All-push :
      (P : Binary → Type 0) (m : Meta) (e : Entry)
      → All P (version_binaries (e.current ∷ e.history))
      → All P (version_binaries (push_entry_history k m e).history)
  unfolding push_entry_history
  All-push P m e a = elim (Bool-cases (entry_history_enabled m)) [
    | inl y ↦ rw (y) (
        All-prune P (item_limit m.history_max_items)
          (e.history ++ complete_snapshot k e.current ∷ [])
          (All-versions_append P e.history (complete_snapshot k e.current)
            (All-right P (values e.current.binaries) (version_binaries e.history) a)
            (rw (sound.snapshot-binaries e.current)
              (All-left P (values e.current.binaries) (version_binaries e.history) a))))
    | inr n ↦ rw (n) (All-right P (values e.current.binaries) (version_binaries e.history) a)
  ]

  inline_bytes-push :
      (m : Meta) (e : Entry)
      → inline_bytes (push_entry_history k m e).history
        ≤ inline_bytes e.history
          + (if entry_history_enabled m then inline_sum (values e.current.binaries) else 0)
  unfolding push_entry_history
  inline_bytes-push m e = elim (Bool-cases (entry_history_enabled m)) [
    | inl y ↦ rw (y) (
        omega (
          arith,
          inline_bytes-prune (item_limit m.history_max_items)
              (e.history ++ complete_snapshot k e.current ∷ []),
          inline_bytes-append e.history (complete_snapshot k e.current),
          ap (λ m. inline_sum (values m)) (sound.snapshot-binaries e.current),
        ))
    | inr n ↦ rw (n) (omega arith)
  ]

  -- The entry with the new file.
  unfoldable pub attached : Meta → Text → Binary → Entry → Entry
  unfolding push_entry_history
  attached m name b e = touch_entry k (attach name b (push_entry_history k m e))

  push-current : (m : Meta) (e : Entry) → (push_entry_history k m e).current ≡ e.current
  unfolding push_entry_history
  push-current m e = elim (Bool-cases (entry_history_enabled m)) [
    | inl y ↦ rw (y) refl
    | inr n ↦ rw (n) refl
  ]

  attached-binaries :
      (m : Meta) (name : Text) (b : Binary) (e : Entry)
      → (attached m name b e).current.binaries ≡ set_key name b e.current.binaries
  unfolding attached attach
  attached-binaries m name b e =
      sound.touch-binaries _ ∙ ap (λ (v : Version). set_key name b v.binaries) (push-current m e)

  pub All-attached :
      (P : Binary → Type 0) (m : Meta) (name : Text) (b : Binary) (e : Entry)
      → P b
      → All P (version_binaries (e.current ∷ e.history))
      → All P (version_binaries ((attached m name b e).current ∷ (attached m name b e).history))
  unfolding attached attach
  All-attached P m name b e p a =
      All-append P (values (attached m name b e).current.binaries)
        (version_binaries (push_entry_history k m e).history)
        (rw (attached-binaries m name b e) (
          All-set_key P name b e.current.binaries p
            (All-left P (values e.current.binaries) (version_binaries e.history) a)))
        (All-push P m e a)

  pub inline_bytes-attached :
      (m : Meta) (name h : Text) (n : ℕ) (e : Entry)
      → inline_bytes
          ((attached m name (hashed h n) e).current ∷ (attached m name (hashed h n) e).history)
        ≤ inline_bytes (e.current ∷ e.history)
          + (if entry_history_enabled m then inline_sum (values e.current.binaries) else 0)
  unfolding inline_bytes attached attach
  inline_bytes-attached m name h n e = omega (
    arith,
    inline_sum-append (values (attached m name (hashed h n) e).current.binaries)
        (version_binaries (push_entry_history k m e).history),
    ap (λ bs. inline_sum (values bs)) (attached-binaries m name (hashed h n) e),
    inline_sum-append (values e.current.binaries) (version_binaries e.history),
    inline_sum-set_key name h n e.current.binaries,
    inline_bytes-push m e,
  )
