-- ===== src/Vault/History.antt =====
-- The history of an entry: `pushEntryHistory` and `restoreEntryVersion` of frontend/src/lib/kdbx.ts.
pub mod Restored
use kypassword_server.Base.{
  inr, inl, ℕ, Text, codes, Bool, true, false, not, ◌&&◌, Option, none, some, List, [], ◌∷◌, ◌++◌,
  ◌≡◌, refl, arith, ◌≤◌, if◌then◌else◌, length, drop, get_elem?, Result, ok, throw, ltb, ◌-◌,
  length-append, zero, suc, ◌>>=◌, >>=-eq-ok, Bool-cases,
}
use kypassword_server.Api.{Thrown, other_error}
use kypassword_server.Vault.{
  Version, Entry, Limit, unset, unlimited, at_most, Meta, Kdbxweb, IsSound, find_entry,
  change_entry, is_live,
}

-- `limit !== 0`.
abbrev is_on : Limit → Bool
is_on (at_most zero) = false
is_on _ = true

unfoldable pub entry_history_enabled : Meta → Bool
entry_history_enabled m = is_on m.history_max_items && is_on m.history_max_size

-- `snapshot`, with the properties that `copyFrom` leaves out.
abbrev pub complete_snapshot : Kdbxweb → Version → Version
complete_snapshot k v = record (k.snapshot v) {
  custom_data = v.custom_data;
  quality_check = v.quality_check;
  previous_parent = v.previous_parent;
}

-- `historyMaxItems ?? 10`, with `none` for a limit below 0.
abbrev pub item_limit : Limit → Option ℕ
item_limit unset = some 10
item_limit unlimited = none
item_limit (at_most n) = some n

unfoldable pub prune : Kdbxweb → Option ℕ → List Version → List Version
prune k none versions = versions
prune k (some n) versions =
    if ltb n (length versions) then k.remove_history (length versions - n) versions else versions

unfoldable pub push_entry_history : Kdbxweb → Meta → Entry → Entry
unfolding entry_history_enabled prune
push_entry_history k m e =
    if entry_history_enabled m
    then record e {
      history =
          prune k (item_limit m.history_max_items)
            (e.history ++ complete_snapshot k e.current ∷ []);
    }
    else e

-- The version that is restored, with the place and the identity of the entry.
unfoldable pub restored : Kdbxweb → Version → Version → Version
restored k current version = k.touch (record (k.copy_from current version) {
  custom_data = version.custom_data;
  quality_check = version.quality_check;
  previous_parent = current.previous_parent;
  location_changed = current.location_changed;
})

abbrev not_live : Thrown
not_live = other_error (codes "Restore the entry to the live vault before restoring a version.")

abbrev no_version : Thrown
no_version = other_error (codes "This entry version is no longer available.")

abbrev no_history : Thrown
no_history =
    other_error
      (codes "Entry history is disabled for this vault; the current version cannot be preserved.")

unfoldable pub restore_found : Kdbxweb → Meta → Entry → Option Version → Result Thrown Entry
unfolding push_entry_history restored
restore_found k m e none = throw no_version
restore_found k m e (some version) =
    if entry_history_enabled m
    then ok (record (push_entry_history k m e) { current = restored k e.current version })
    else throw no_history

unfoldable pub restore_entry : Kdbxweb → Meta → List Text → Option Entry → ℕ → Result Thrown Entry
unfolding restore_found
restore_entry k m recycled none index = throw not_live
restore_entry k m recycled (some e) index =
    if is_live recycled e then restore_found k m e (get_elem? e.history index) else throw not_live

-- `restoreEntryVersion`, on the vault's entries; an index is a natural number.
unfoldable pub restore_entry_version :
    Kdbxweb → Meta → List Text → Text → ℕ → List Entry → Result Thrown (List Entry)
unfolding restore_entry find_entry change_entry
restore_entry_version k m recycled uuid index es = do
  e ← restore_entry k m recycled (find_entry uuid es) index
  ok (change_entry uuid e es)

pub push_entry_history-uuid :
    (k : Kdbxweb) (m : Meta) (e : Entry) → (push_entry_history k m e).uuid ≡ e.uuid
unfolding push_entry_history
push_entry_history-uuid k m e = elim (Bool-cases (entry_history_enabled m)) [
  | inl h ↦ rw (h)
  | inr h ↦ rw (h)
]

pub push_entry_history-parent :
    (k : Kdbxweb) (m : Meta) (e : Entry) → (push_entry_history k m e).parent ≡ e.parent
unfolding push_entry_history
push_entry_history-parent k m e = elim (Bool-cases (entry_history_enabled m)) [
  | inl h ↦ rw (h)
  | inr h ↦ rw (h)
]
