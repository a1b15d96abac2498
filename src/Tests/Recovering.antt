-- ===== src/Tests/Recovering.antt =====
-- The recovery of an entry of a conflict at concrete inputs, with an instance of what kdbxweb imports.
use kypassword_server.Base.{
  ℕ, ◌+◌, Text, codes, equal, equal_iff, Bool-cases, false, none, some, List, [], ◌∷◌, ◌++◌, ◌≡◌,
  inl, inr, refl, arith, ok,
}
use mathlib.Core.List.{head-eq_of_cons-eq}
use kypassword_server.Crypto.{Bytes}
use kypassword_server.Vault.{find_entry}
use kypassword_server.Vault.Fields.{get_key}
use kypassword_server.Vault.Listing.{recycled_group_ids, group_uuid}
use kypassword_server.Vault.Recover.{
  Stored, Imports, Recovered, recover_entry_copy, recovered_title,
}
use kypassword_server.Vault.Recover.Icons.{IsFresh, ShowsIcon, ShowIcons}
use kypassword_server.Vault.Recover.Copies.{IsSound, recover_entry_copy-Shows}
use kypassword_server.Vault.Update.{title_key}
use kypassword_server.Dialog.Comparison.{Comparison, Reaches, open_comparison, loaded, recover}
use kypassword_server.Dialog.Comparison.Once.{IsOnce, Reaches-IsOnce}
use kypassword_server.Tests.Vaults.{mail}
use kypassword_server.Tests.Folders.{library, database}

-- The icon of every copied state.
abbrev shared_icon : Text
shared_icon = codes "i"

abbrev copying : Imports
copying = record {
  import_entry = λ e d source this. (
    record {
      uuid = codes "copy";
      current = record { fields = e.current.fields; custom_icon = some shared_icon };
      history = record { fields = []; custom_icon = some shared_icon } ∷ [];
    },
    record { db = this.db; icons = source.icons ++ this.icons },
  );
  random = λ n. (1000 + n) ∷ [];
}

get_key-append :
    (k : Text) (v : Bytes) (m l : List (Text × Bytes))
    → get_key k m ≡ some v
    → get_key k (m ++ l) ≡ some v
unfolding get_key
get_key-append k v [] l h = cc
get_key-append k v ((j, w) ∷ m) l h = elim (Bool-cases (equal j k)) [
  | inl y ↦ rw (y) (rw (y) at h)
  | inr n ↦ rw (n) (get_key-append k v m l (rw (n) at h))
]

copying-IsSound : IsSound copying
copying-IsSound = record {
  has_icons = λ e d source this. (
    (λ i v h g. get_key-append i v source.icons this.icons g),
    ((λ i v h g. get_key-append i v source.icons this.icons g), tt),
  );
}

abbrev conflict : Stored
conflict = record { db = database; icons = (shared_icon, 1 ∷ []) ∷ [] }

abbrev current : Stored
current = record { db = record database { entries = [] }; icons = (shared_icon, 2 ∷ []) ∷ [] }

other_id : (n : ℕ) → equal shared_icon ((1000 + n) ∷ []) ≡ false
other_id n = elim (Bool-cases (equal shared_icon ((1000 + n) ∷ []))) [
  | inl y ↦
      absurd (omega (arith, head-eq_of_cons-eq ((equal_iff shared_icon ((1000 + n) ∷ [])).0 y)))
  | inr n ↦ n
]

no_icon : (n : ℕ) (v : Bytes) → get_key (copying.random n) ((shared_icon, v) ∷ []) ≡ none
unfolding get_key
no_icon n v = rw (other_id n)

copying-IsFresh : IsFresh copying.random current.icons conflict.icons
copying-IsFresh = record {
  distinct = λ m n h.
      omega (arith, head-eq_of_cons-eq ((equal_iff ((1000 + m) ∷ []) ((1000 + n) ∷ [])).0 h));
  not_existing = λ n. no_icon n (2 ∷ []);
  not_source = λ n. no_icon n (1 ∷ []);
}

recover_entry_copy-Shows_example :
    (r : Recovered) × (recover_entry_copy library copying conflict (codes "e1") current
      ≡ ok (r.copy.uuid, r))
    × ((i : Text) (v : Bytes) → get_key i current.icons ≡ some v → get_key i r.vault.icons ≡ some v)
    × (get_key title_key r.copy.current.fields ≡ some (recovered_title mail.current.fields))
    × ShowsIcon conflict.icons r.vault.icons
        (copying.import_entry mail (group_uuid current.db.root) conflict current).0.current
        r.copy.current
    × ShowIcons conflict.icons r.vault.icons
        (copying.import_entry mail (group_uuid current.db.root) conflict current).0.history
        r.copy.history
recover_entry_copy-Shows_example =
    recover_entry_copy-Shows copying copying-IsSound library conflict current (codes "e1") mail
      (unfold find_entry equal in refl) (unfold recycled_group_ids in refl)
      (unfold recycled_group_ids in refl) (unfold get_key in (refl, tt))
      (unfold get_key equal in refl) copying-IsFresh

abbrev recovered_twice : Comparison
unfolding loaded recover
recovered_twice =
    recover library copying
      (recover library copying (loaded library copying (ok conflict) (open_comparison current)))

Reaches-IsOnce_example : IsOnce recovered_twice
unfolding recovered_twice
Reaches-IsOnce_example =
    Reaches-IsOnce library copying current recovered_twice
      (Reaches.recovers (Reaches.recovers (Reaches.loads (ok conflict) Reaches.opens)))
