-- ===== src/Dialog/Comparison.antt =====
-- frontend/src/components/ConflictComparison.tsx: the entries of a preserved conflict, and the recovery of
-- one of them as a copy in the open vault. The download and the opening of the conflict end in
-- `loaded`.
pub mod Once
use kypassword_server.Base.{
  Text, codes, equal, any, Bool, true, false, not, ◌||◌, Option, none, some, List, [], ◌∷◌, ◌++◌,
  if◌then◌else◌, Result, ok, throw,
}
use kypassword_server.Api.{Thrown}
use kypassword_server.Vault.Listing.{Library, get_live_entries}
use kypassword_server.Vault.Update.{VaultEntry}
use kypassword_server.Vault.Recover.{Stored, Imports, Recovered, recover_entry_copy}

pub data LoadState : Type 0 where
  loading load_failed : LoadState
  ready : Stored → LoadState

pub record Comparison : Type 0 where
  -- the open vault
  pub current : Stored
  pub state : LoadState
  pub selected_id : Text
  pub reveal : Bool
  -- the ids of a `Set`, the newest first
  pub recovered : List Text
  pub message : Text
  -- what `onRecovered` was called with, the newest first
  pub copies : List Text

abbrev pub open_comparison : Stored → Comparison
open_comparison current = record {
  current = current;
  state = loading;
  selected_id = [];
  reveal = false;
  recovered = [];
  message = [];
  copies = [];
}

abbrev first_uuid : List VaultEntry → Text
first_uuid [] = []
first_uuid (e ∷ _) = e.uuid

abbrev pub is_recovered : Text → List Text → Bool
is_recovered id ids = any (λ i. equal i id) ids

module _ (lib : Library) (k : Imports) where
  -- The end of the load, while the comparison is shown; any error is the same.
  unfoldable pub loaded : Result Thrown Stored → Comparison → Comparison
  unfolding get_live_entries
  loaded (throw e) s = record s { state = load_failed }
  loaded (ok vault) s = record s {
    state = ready vault;
    selected_id = first_uuid (get_live_entries lib vault.db);
  }

  -- Whether a row is selected; the rows are the live entries of the conflict.
  unfoldable pub has_selected : Stored → Text → Bool
  unfolding get_live_entries
  has_selected vault id = any (λ e. equal e.uuid id) (get_live_entries lib vault.db)

  -- The end of `recover`.
  unfoldable pub recovered_copy : Result Thrown (Text × Recovered) → Comparison → Comparison
  recovered_copy (ok r) s = record s {
    current = r.1.vault;
    recovered = s.selected_id ∷ s.recovered;
    copies = r.0 ∷ s.copies;
    message =
        codes
          "Recovered a copy to the top-level folder. Close this window to check autosave status. The conflict is still preserved.";
  }
  recovered_copy (throw e) s = record s {
    message = codes "Unable to recover this entry. The preserved conflict has not been deleted.";
  }

  unfoldable pub recover : Comparison → Comparison
  unfolding has_selected recovered_copy recover_entry_copy
  recover s = elim s.state [
    | loading ↦ s
    | load_failed ↦ s
    | ready vault ↦
        if not (has_selected vault s.selected_id) || is_recovered s.selected_id s.recovered
        then s
        else recovered_copy (recover_entry_copy lib k vault s.selected_id s.current) s
  ]

  -- A click on a row.
  unfoldable pub select_row : Text → Comparison → Comparison
  select_row uuid s = record s { selected_id = uuid; reveal = false }

  unfoldable pub set_reveal : Bool → Comparison → Comparison
  set_reveal b s = record s { reveal = b }

  -- The states that a shown comparison reaches.
  pub data Reaches (current : Stored) : Comparison → Type 0 where
    opens : Reaches current (open_comparison current)
    loads :
        {s : Comparison}
        → (r : Result Thrown Stored) → Reaches current s
        → Reaches current (loaded r s)
    selects :
        {s : Comparison} → (uuid : Text) → Reaches current s → Reaches current (select_row uuid s)
    reveals : {s : Comparison} → (b : Bool) → Reaches current s → Reaches current (set_reveal b s)
    recovers : {s : Comparison} → Reaches current s → Reaches current (recover s)
