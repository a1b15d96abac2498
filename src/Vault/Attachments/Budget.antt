-- ===== src/Vault/Attachments/Budget.antt =====
-- Adding an attachment (frontend/src/lib/kdbx.ts) keeps the vault within its attachment budget.
use kypassword_server.Base.{
  Result, ◌>>=◌, ℕ, ◌+◌, ◌≤◌, Text, equal, equal_refl, Option, none, some, List, [], ◌∷◌, All, ok,
  throw, ◌≡◌, refl, arith, Bool-cases, inl, inr, ltb, >>=-eq-ok,
}
use kypassword_server.Api.{Thrown}
use kypassword_server.Vault.{
  Binary, hashed, inline, Entry, Kdbxweb, IsSound, find_entry, change_entry, has_group, is_live,
}
use kypassword_server.Vault.Listing.{Database, Library, recycled_group_ids}
use kypassword_server.Vault.Attachments.{
  live_of, Usage, add_binaries, entry_binaries, attachment_usage, attachment_bytes, inline_sum,
  needed_bytes, attach_to, add_attachment, live_entry, put_entry, has_name,
  max_vault_attachment_bytes, check_file, throw_if_aborted,
}
use kypassword_server.Vault.Attachments.Counting.{
  sum_sizes, is_distinct, sum_sizes-le, OnHash, IsSized, Within, add_binaries-total,
  add_binaries-is_distinct, add_binaries-All, add_binaries-Within,
}
use kypassword_server.Vault.Attachments.Kept.{
  inline_sum-change_entry, All-change_entry, attached, All-attached, inline_bytes-attached,
}

abbrev nothing_used : Usage
nothing_used = record { bytes = 0; hashes = [] }

All-OnHash_with :
    (h : Text) (hs : List Text) (bs : List Binary)
    → All (OnHash (Within hs)) bs
    → All (OnHash (Within (h ∷ hs))) bs
All-OnHash_with h hs [] a = tt
All-OnHash_with h hs (hashed g n ∷ bs) a = (
  elim (Bool-cases (equal h g)) [ inl y ↦ rw (y) | inr y ↦ rw (y) a.0 ],
  All-OnHash_with h hs bs a.1,
)
All-OnHash_with h hs (inline n ∷ bs) a = (tt, All-OnHash_with h hs bs a.1)

-- What a list counts whose hashes stand in `hs`.
counted-le :
    (size : Text → ℕ) (hs : List Text) (bs : List Binary)
    → All (IsSized size) bs
    → All (OnHash (Within hs)) bs
    → (add_binaries nothing_used bs).bytes ≤ inline_sum bs + sum_sizes size hs
unfolding sum_sizes is_distinct
counted-le size hs bs s w = omega (
  arith,
  add_binaries-total size nothing_used bs 0 s refl,
  sum_sizes-le size (add_binaries nothing_used bs).hashes hs
      (add_binaries-is_distinct nothing_used bs refl)
      (add_binaries-All (Within hs) nothing_used bs w tt),
)

module _ (k : Kdbxweb) (sound : IsSound k) where
  -- The number of bytes after the file is added is at most what the check computed.
  attachment_bytes-attached :
      (lib : Library) (size : Text → ℕ) (uuid name h : Text) (e : Entry) (db : Database)
      → find_entry uuid db.entries ≡ some e
      → All (IsSized size) (entry_binaries db.entries)
      → attachment_bytes (put_entry uuid (attached k sound db.meta name (hashed h (size h)) e) db)
        ≤ needed_bytes k lib h (size h) e db
  unfolding attachment_bytes attachment_usage needed_bytes sum_sizes put_entry
  attachment_bytes-attached lib size uuid name h e db f s =
      let bs = entry_binaries db.entries in
      let counted = add_binaries nothing_used bs in
      let new = attached k sound db.meta name (hashed h (size h)) e in
      let kept = λ (P : Binary → Type 0) (p : P (hashed h (size h))).
        All-change_entry P uuid e new db.entries f
          (All-attached k sound P db.meta name (hashed h (size h)) e p) in
      let total = add_binaries-total size nothing_used bs 0 s refl in
      let inlined =
        inline_sum-change_entry uuid e new db.entries _ f
          (inline_bytes-attached k sound db.meta name h (size h) e) in
      elim (Bool-cases (has_group counted.hashes h)) [
        | inl y ↦ rw (y) (
            omega (
              arith,
              total,
              inlined,
              counted-le size counted.hashes (entry_binaries (change_entry uuid new db.entries))
                  (kept (IsSized size) refl s)
                  (kept (OnHash (Within counted.hashes)) y (add_binaries-Within nothing_used bs)),
            ))
        | inr y ↦ rw (y) (
            omega (
              arith,
              total,
              inlined,
              counted-le size (h ∷ counted.hashes)
                  (entry_binaries (change_entry uuid new db.entries)) (kept (IsSized size) refl s)
                  (kept (OnHash (Within (h ∷ counted.hashes))) (rw (equal_refl h))
                    (All-OnHash_with h counted.hashes bs (add_binaries-Within nothing_used bs))),
            ))
      ]

  attach_to-bytes :
      (lib : Library) (size : Text → ℕ) (uuid name h : Text) (e : Entry) (db after : Database)
      → find_entry uuid db.entries ≡ some e
      → All (IsSized size) (entry_binaries db.entries)
      → attach_to k lib uuid name h (size h) db e ≡ ok after
      → attachment_bytes after ≤ max_vault_attachment_bytes
  unfolding attach_to attached
  attach_to-bytes lib size uuid name h e db after f s r =
      elim (Bool-cases (has_name name e.current.binaries)) [
        | inl y ↦ let refused = rw (y) at r in cc
        | inr n ↦
            elim (Bool-cases
              (ltb max_vault_attachment_bytes (needed_bytes k lib h (size h) e db))) [
                | inl y ↦ let refused = rw (n, y) at r in cc
                | inr fits ↦
                    let same : after
                        ≡ put_entry uuid (attached k sound db.meta name (hashed h (size h)) e) db =
                      (let done = rw (n, fits) at r in cc) in
                    let bound = attachment_bytes-attached lib size uuid name h e db f s in
                    rw (same) (ground (arith, bound, fits))
              ]
      ]

-- A chain of three checks, a call and what follows it that returns.
checks-eq-ok :
    (a b c : Result Thrown (Unit {0})) (call : Result Thrown Entry)
    (next : Entry → Result Thrown Database) {after : Database}
    → (a >>= (λ _. b >>= (λ _. c >>= (λ _. call >>= next)))) ≡ ok after
    → (e : Entry) × (call ≡ ok e) × (next e ≡ ok after)
checks-eq-ok (throw e) b c call next r = cc
checks-eq-ok (ok _) (throw e) c call next r = cc
checks-eq-ok (ok _) (ok _) (throw e) call next r = cc
checks-eq-ok (ok _) (ok _) (ok _) call next r = >>=-eq-ok call next r

live_entry-found :
    (k : Kdbxweb) (lib : Library) (uuid : Text) (db : Database) (o : Option Entry) (e : Entry)
    → live_of (recycled_group_ids lib db) o ≡ ok e
    → o ≡ some e
unfolding live_of
live_entry-found k lib uuid db none e h = cc
live_entry-found k lib uuid db (some d) e h =
    elim (Bool-cases (is_live (recycled_group_ids lib db) d)) [
      | inl y ↦ let found = rw (y) at h in cc
      | inr n ↦ let refused = rw (n) at h in cc
    ]

-- Where kdbxweb is as `IsSound` says and a hash determines the number of bytes, a file that is added
-- leaves the vault's attachments, those of the history and of the recycle bin included, within the
-- budget of 40 MiB.
pub add_attachment-within_budget :
    (k : Kdbxweb) (lib : Library)
    → IsSound k
    → (size : Text → ℕ) (uuid name h : Text) (first second : Option Thrown) (db after : Database)
    → All (IsSized size) (entry_binaries db.entries)
    → add_attachment k lib uuid name (size h) h first second db ≡ ok after
    → attachment_bytes after ≤ max_vault_attachment_bytes
unfolding add_attachment live_entry
add_attachment-within_budget k lib sound size uuid name h first second db after s r =
    let live =
      checks-eq-ok (check_file name (size h)) (throw_if_aborted first) (throw_if_aborted second)
        (live_entry k lib uuid db) (attach_to k lib uuid name h (size h) db) r in
    attach_to-bytes k sound lib size uuid name h live.0 db after
      (live_entry-found k lib uuid db (find_entry uuid db.entries) live.0 live.1) s live.2
