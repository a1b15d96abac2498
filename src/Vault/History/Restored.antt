-- ===== src/Vault/History/Restored.antt =====
-- What a saved version and a restored version leave in an entry's history.
use kypassword_server.Base.{
  inr, ltb→lt, inl, lt→ltb, ◌+◌, ℕ, true, Option, none, some, List, [], ◌∷◌, ◌++◌, ◌≡◌, refl, arith,
  ◌≤◌, ◌<◌, length, drop, ltb, ◌-◌, length-append, zero, suc, Bool-cases,
}
use kypassword_server.Vault.{
  find_entry-uuid, find_entry-change_entry, Text, Version, Entry, Meta, Kdbxweb, IsSound,
}
use kypassword_server.Vault.History.{
  change_entry, get_elem?, is_live, find_entry, ok, restore_entry, restored, restore_entry_version,
  restore_found, entry_history_enabled, complete_snapshot, item_limit, prune, push_entry_history,
}

drop-append_le :
    {A : Type 0} (n : ℕ) (xs ys : List A) → n ≤ length xs → drop n (xs ++ ys) ≡ drop n xs ++ ys
drop-append_le zero xs ys h = refl
drop-append_le (suc n) [] ys h = absurd (omega arith)
drop-append_le (suc n) (x ∷ xs) ys h = drop-append_le n xs ys (omega arith)

length-drop :
    {A : Type 0} (n : ℕ) (xs : List A) → n ≤ length xs → length (drop n xs) + n ≡ length xs
length-drop zero xs h = omega arith
length-drop (suc n) [] h = absurd (omega arith)
length-drop (suc n) (x ∷ xs) h = omega (arith, length-drop n xs (omega arith))

-- A limit on the number of versions leaves the newest ones.
abbrev pub IsWithin : Option ℕ → ℕ → Type 0
IsWithin none n = Unit {0}
IsWithin (some l) n = n ≤ l

item_limit-positive :
    (m : Meta) (n : ℕ)
    → entry_history_enabled m ≡ true
    → item_limit m.history_max_items ≡ some n
    → 1 ≤ n
unfolding entry_history_enabled
item_limit-positive m n h l = ground arith

module _ {k : Kdbxweb} (sound : IsSound k) where
  prune_over :
      (n : ℕ) (vs : List Version) → n < length vs → prune k (some n) vs ≡ drop (length vs - n) vs
  unfolding prune
  prune_over n vs h = rw (lt→ltb n (length vs) h, sound.remove_history-drop (length vs - n) vs)

  prune_within : (n : ℕ) (vs : List Version) → length vs ≤ n → prune k (some n) vs ≡ vs
  unfolding prune
  prune_within n vs h = ground arith

  abbrev KeepsLast : ℕ → List Version → Version → Type 0
  KeepsLast n vs s =
      ((us : List Version) × (prune k (some n) (vs ++ s ∷ []) ≡ us ++ s ∷ []))
      × (length (prune k (some n) (vs ++ s ∷ [])) ≤ n)

  snoc_within : (n : ℕ) (vs : List Version) (s : Version) → length vs < n → KeepsLast n vs s
  snoc_within n vs s h =
      let le : length (vs ++ s ∷ []) ≤ n = omega (arith, length-append vs (s ∷ [])) in
      let all_kept = prune_within n (vs ++ s ∷ []) le in ((vs, all_kept), rw (all_kept) le)

  snoc_over : (n : ℕ) (vs : List Version) (s : Version) → 1 ≤ n → n ≤ length vs → KeepsLast n vs s
  snoc_over n vs s one h =
      let size = length-append vs (s ∷ []) in
      let surplus = length vs + 1 - n in
      let e : prune k (some n) (vs ++ s ∷ []) ≡ drop surplus vs ++ s ∷ [] = rw (
        prune_over n (vs ++ s ∷ []) (omega (arith, size)),
        size,
        drop-append_le surplus vs (s ∷ []) (omega arith),
      ) in
      (
        (drop surplus vs, e),
        rw (e) (
            omega (
              arith,
              length-append (drop surplus vs) (s ∷ []),
              length-drop surplus vs (omega arith),
            )),
      )

  -- The version that was added last stays, and the limit holds.
  prune-snoc : (n : ℕ) (vs : List Version) (s : Version) → 1 ≤ n → KeepsLast n vs s
  prune-snoc n vs s one = elim (Bool-cases (ltb (length vs) n)) [
    | inl lt ↦ snoc_within n vs s (ltb→lt _ _ lt)
    | inr ge ↦ snoc_over n vs s one (ground arith)
  ]

  -- The version `s` is the last one, and there are no more than the limit allows.
  abbrev pub Kept : Option ℕ → List Version → Version → Type 0
  Kept l ws s = ((us : List Version) × (ws ≡ us ++ s ∷ [])) × IsWithin l (length ws)

  prune-Kept :
      (l : Option ℕ) (vs : List Version) (s : Version)
      → ((n : ℕ) → l ≡ some n → 1 ≤ n)
      → Kept l (prune k l (vs ++ s ∷ [])) s
  prune-Kept none vs s h = ((vs, unfold prune in refl), tt)
  prune-Kept (some l) vs s h = prune-snoc l vs s (h l refl)

  -- Under the laws of kdbxweb (`IsSound`), with history enabled, what is pushed is the entry's state, it is the last version, and there are
  -- no more versions than the limit allows.
  pub push_entry_history-Kept :
      (m : Meta) (e : Entry)
      → entry_history_enabled m ≡ true
      → Kept
          (item_limit m.history_max_items)
          (push_entry_history k m e).history
          (complete_snapshot k e.current)
  unfolding push_entry_history
  push_entry_history-Kept m e h = rw (h) (
      prune-Kept (item_limit m.history_max_items) e.history (complete_snapshot k e.current)
        (λ n. item_limit-positive m n h))

  -- The entry `new` is `old` at the version `v`.
  pub record IsRestored (m : Meta) (old new : Entry) (v : Version) : Type 0 where
    pub fields : new.current.fields ≡ v.fields
    pub binaries : new.current.binaries ≡ v.binaries
    pub custom_data : new.current.custom_data ≡ v.custom_data
    pub uuid : new.uuid ≡ old.uuid
    pub parent : new.parent ≡ old.parent
    pub history :
        Kept (item_limit m.history_max_items) new.history (complete_snapshot k old.current)

  restore_found-IsRestored :
      (m : Meta) (e : Entry) (v : Version)
      → entry_history_enabled m ≡ true
      → (new : Entry) × (restore_found k m e (some v) ≡ ok new) × IsRestored m e new v
  unfolding restore_found restored push_entry_history
  restore_found-IsRestored m e v h =
      let kept = push_entry_history-Kept m e h in
      rw (h) (
        _,
        refl,
        record {
          fields = rw (sound.touch-fields, sound.copy_from-fields) refl;
          binaries = rw (sound.touch-binaries, sound.copy_from-binaries) refl;
          custom_data = sound.touch-custom_data _;
          uuid = refl;
          parent = refl;
          history = rw (h) at kept;
        },
      )

  -- Under the laws of kdbxweb (`IsSound`), with history enabled, each saved version of a live entry can be restored: the entry has then the
  -- fields, the attachments and the custom data of that version, with its own id and folder, the state
  -- before is the newest saved version, and the limit on the saved versions holds.
  pub restore_entry_version-IsRestored :
      (m : Meta) (recycled : List Text) (uuid : Text) (i : ℕ) (es : List Entry) (e : Entry)
      (v : Version)
      → find_entry uuid es ≡ some e
      → is_live recycled e ≡ true
      → get_elem? e.history i ≡ some v
      → entry_history_enabled m ≡ true
      → (es' : List Entry) × (new : Entry) × (restore_entry_version k m recycled uuid i es ≡ ok es')
        × (find_entry uuid es' ≡ some new)
        × IsRestored m e new v
  unfolding restore_entry_version restore_entry
  restore_entry_version-IsRestored m recycled uuid i es e v found live version h =
      let done = restore_found-IsRestored m e v h in
      (
        change_entry uuid done.0 es,
        done.0,
        rw (found, live, version, done.1) refl,
        find_entry-change_entry uuid done.0 es found
            (rw (done.2.uuid) (find_entry-uuid uuid es found)),
        done.2,
      )
