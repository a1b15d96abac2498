-- ===== src/Dialog/History.antt =====
-- frontend/src/components/HistoryModal.tsx: the snapshots and the preserved conflicts of a vault, with the
-- requests that restore one and discard one.
pub mod Requests
use kypassword_server.Base.{
  ℕ, zero, suc, ◌+◌, Text, codes, equal, select, Bool, true, false, not, ◌&&◌, ◌||◌, Option, none,
  some, List, [], ◌∷◌, ◌++◌, if◌then◌else◌, Result, ok, throw,
}
use kypassword_server.Api.{Thrown, to_error_message}

pub record HistoryEntry : Type 0 where
  pub id : Text
  pub version : ℕ
  pub size_bytes : ℕ
  pub checksum : Text
  pub timestamp : Text

pub record ConflictEntry : Type 0 where
  pub id : Text
  pub expected_version : ℕ
  pub device_id : Text
  pub size_bytes : ℕ
  pub timestamp : Text

pub data Tab : Type 0 where
  history_tab conflicts_tab : Tab

pub record HistoryModal : Type 0 where
  pub comparison_id : Option Text
  pub active_tab : Tab
  pub history : List HistoryEntry
  pub conflicts : List ConflictEntry
  pub loading : Bool
  pub busy_id : Option Text
  pub message : Text
  pub error : Text
  -- the number of calls of `onRestored`
  pub restored : ℕ

abbrev pub open_modal : HistoryModal
open_modal = record {
  comparison_id = none;
  active_tab = history_tab;
  history = [];
  conflicts = [];
  loading = true;
  busy_id = none;
  message = [];
  error = [];
  restored = 0;
}

abbrev or_none : {A : Type 0} → Option (List A) → List A
or_none none = []
or_none (some xs) = xs

-- `loadData` up to its requests, and its end; the server's `null` is an empty list.
unfoldable pub load_data : HistoryModal → HistoryModal
load_data s = record s { loading = true; error = [] }

unfoldable pub data_loaded :
    Result Thrown (Option (List HistoryEntry) × Option (List ConflictEntry))
    → HistoryModal
    → HistoryModal
unfolding to_error_message
data_loaded (ok r) s = record s { history = or_none r.0; conflicts = or_none r.1; loading = false }
data_loaded (throw e) s = record s {
  error = to_error_message e (codes "Failed to load history");
  loading = false;
}

-- A request that the dialog waits for.
pub data Request : Type 0 where
  restore discard : Text → Request

abbrev pub request_id : Request → Text
request_id (restore id) = id
request_id (discard id) = id

abbrev is_busy : HistoryModal → Bool
is_busy s = elim s.busy_id [ none ↦ false | some _ ↦ true ]

-- The handlers up to their requests; `confirmed` is what the user answers.
unfoldable pub restore_snapshot : Bool → Bool → Text → HistoryModal → HistoryModal × List Request
restore_snapshot allow_rollback confirmed id s =
    if allow_rollback && not (is_busy s)
    then if confirmed
      then (record s { busy_id = some id; message = []; error = [] }, restore id ∷ [])
      else (s, [])
    else (s, [])

unfoldable pub discard_conflict : Bool → Bool → Text → HistoryModal → HistoryModal × List Request
discard_conflict allow_rollback confirmed id s =
    if allow_rollback && not (is_busy s)
    then if confirmed then (record s { busy_id = some id }, discard id ∷ []) else (s, [])
    else (s, [])

-- What the handlers do with the answer.
unfoldable pub answered : Request → Result Thrown (Unit {0}) → HistoryModal → HistoryModal
unfolding to_error_message equal
answered (restore id) (ok _) s = record s {
  message = codes "Vault successfully restored.";
  restored = s.restored + 1;
  busy_id = none;
}
answered (restore id) (throw e) s = record s {
  error = to_error_message e (codes "Failed to restore snapshot");
  busy_id = none;
}
answered (discard id) (ok _) s = record s {
  conflicts = select (λ c. not (equal c.id id)) s.conflicts;
  message = codes "Conflict upload removed.";
  busy_id = none;
}
answered (discard id) (throw e) s = record s {
  error = to_error_message e (codes "Failed to discard conflict");
  busy_id = none;
}

-- The dialog with the requests that wait for an answer, the oldest first, and all that were sent.
pub record World : Type 0 where
  pub modal : HistoryModal
  pub pending : List Request
  pub sent : List Request

-- What happens to the dialog: a click with the user's answer, the answer of a request, and the end of a
-- load.
pub data Event : Type 0 where
  clicks_restore clicks_discard : Bool → Text → Event
  answers : Result Thrown (Unit {0}) → Event
  loads : Event
  ends_load : Result Thrown (Option (List HistoryEntry) × Option (List ConflictEntry)) → Event

abbrev asks : HistoryModal × List Request → World → World
asks r w = record { modal = r.0; pending = w.pending ++ r.1; sent = w.sent ++ r.1 }

abbrev pub answer_first : List Request → Result Thrown (Unit {0}) → World → World
answer_first [] r w = w
answer_first (q ∷ qs) r w = record { modal = answered q r w.modal; pending = qs; sent = w.sent }

unfoldable pub step : Bool → Event → World → World
unfolding restore_snapshot discard_conflict answered load_data data_loaded
step allow (clicks_restore confirmed id) w = asks (restore_snapshot allow confirmed id w.modal) w
step allow (clicks_discard confirmed id) w = asks (discard_conflict allow confirmed id w.modal) w
step allow (answers r) w = answer_first w.pending r w
step allow loads w = record w { modal = load_data w.modal }
step allow (ends_load r) w = record w { modal = data_loaded r w.modal }

-- The states that an opened dialog reaches. The property `allowRollback` may be another one at each event;
-- the index tells whether it held at any so far.
pub data Reaches : Bool → World → Type 0 where
  opens : Reaches false (record { modal = open_modal; pending = []; sent = [] })
  follows :
      {ever : Bool} {w : World}
      → (allow : Bool) (e : Event) → Reaches ever w
      → Reaches (ever || allow) (step allow e w)
