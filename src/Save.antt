-- ===== src/Save.antt =====
-- frontend/src/lib/vaultSave.ts: the check of the server's acknowledgement, and the queue that saves
-- one unlocked vault. `save` is an async function: its synchronous parts are the functions below, and
-- `phase` says at which `await` it stands.
pub mod Ack
pub mod Versions
pub mod Delivery
pub mod Discard
pub mod Failed
pub mod Progress
use kypassword_server.Base.{
  ℕ, zero, suc, ◌+◌, ◌<◌, ◌≤◌, Text, codes, decimal, Bool, true, false, not, ◌&&◌, ◌||◌, Option,
  none, some, List, [], ◌∷◌, ◌++◌, map, select, if◌then◌else◌, ltb, ◌==◌, Result, ok, throw, ◌>>=◌,
}
use kypassword_server.Json.{Json, member, safe_natural}
use kypassword_server.Api.{
  Thrown, http_error, other_error, to_error_message, Headers, content_type, if_match,
  password_envelope,
}

pub data SaveState : Type 0 where
  saved : ℕ → SaveState
  saving : ℕ → SaveState
  error : ℕ → Text → SaveState

abbrev pub version : SaveState → ℕ
version (saved v) = v
version (saving v) = v
version (error v _) = v

-- The headers that `uploadVault` hands to the request.
unfoldable pub upload_headers : ℕ → Option Text → Headers
upload_headers v none =
    (content_type, codes "application/octet-stream")
    ∷ (if_match, b'"' ∷ (decimal v ++ b'"' ∷ []))
    ∷ []
upload_headers v (some envelope) =
    (content_type, codes "application/octet-stream")
    ∷ (if_match, b'"' ∷ (decimal v ++ b'"' ∷ []))
    ∷ (password_envelope, envelope)
    ∷ []

abbrev pub unconfirmed : Thrown
unconfirmed = other_error (codes "The server did not confirm the saved vault version.")

-- `typeof data.metadata.version === "number"`, a safe integer above the version that was sent.
check_version : ℕ → Option ℕ → Result Thrown ℕ
check_version v none = throw unconfirmed
check_version v (some w) = if ltb v w then ok w else throw unconfirmed

metadata_version : Option Json → Option ℕ
metadata_version none = none
metadata_version (some m) = elim (member (codes "version") m) [
  | none ↦ none
  | some w ↦ safe_natural w
]

-- What `uploadVault` makes of the body of the response.
unfoldable pub acknowledge : ℕ → Json → Result Thrown ℕ
unfolding check_version metadata_version
acknowledge v body = check_version v (metadata_version (member (codes "metadata") body))

-- `uploadVault` of what the request returned or threw.
unfoldable pub upload_result : ℕ → Result Thrown Json → Result Thrown ℕ
unfolding acknowledge
upload_result v response = do body ← response; acknowledge v body

unfoldable pub can_discard_vault : SaveState → Bool → Bool → Bool
can_discard_vault (saved _) has_draft confirmed = not has_draft || confirmed
can_discard_vault _ has_draft confirmed = confirmed

-- Where `save` stands: it does not run, or it awaits the export or the upload of a revision.
pub data Phase : Type 0 where
  idle : Phase
  exporting : ℕ → Phase
  uploading : ℕ → Phase

pub record Queue : Type 0 where
  pub revision : ℕ
  pub saved_revision : ℕ
  pub running : Bool
  -- a debounce timer is set
  pub timer : Bool
  -- `controller.signal.aborted`
  pub aborted : Bool
  -- `vault` is not null
  pub unlocked : Bool
  pub listeners : List ℕ
  pub state : SaveState
  pub phase : Phase
  -- the calls of listeners so far, the last one first
  pub notified : List (ℕ × SaveState)

unfoldable pub create : Bool → ℕ → Queue
create unlocked v = record {
  revision = 0;
  saved_revision = 0;
  running = false;
  timer = false;
  aborted = false;
  unlocked = unlocked;
  listeners = [];
  state = saved v;
  phase = idle;
  notified = [];
}

publish : SaveState → Queue → Queue
publish s q = record q { state = s; notified = map (λ l. (l, s)) q.listeners ++ q.notified }

-- `Set.add` and `Set.delete` of a listener.
abbrev knows : List ℕ → ℕ → Bool
knows [] l = false
knows (k ∷ ks) l = k == l || knows ks l

unfoldable pub subscribe : ℕ → Queue → Queue
subscribe l q = if knows q.listeners l then q else record q { listeners = q.listeners ++ l ∷ [] }

unfoldable pub unsubscribe : ℕ → Queue → Queue
unsubscribe l q = record q { listeners = select (λ k. not (k == l)) q.listeners }

abbrev recovered_message : Text
recovered_message =
    codes
      "Recovered unsaved edits. Review and retry saving, or download this copy before reloading."

unfoldable pub recover_unsaved : Queue → Queue
unfolding publish
recover_unsaved q =
    publish (error (version q.state) recovered_message) (record q { revision = q.revision + 1 })

unfoldable pub discard : Queue → Queue
discard q = record q { timer = false; aborted = true; unlocked = false; listeners = [] }

abbrev pub is_error : SaveState → Bool
is_error (error _ _) = true
is_error _ = false

unfoldable pub changed : Queue → Queue
unfolding publish
changed q =
    let r = record q { revision = q.revision + 1 } in
    if q.aborted
    then q
    else if is_error r.state || r.running
    then r
    else record (publish (saving (version r.state)) (record r { timer = false })) { timer = true }

-- `finally { this.running = false }`.
abbrev finish : Queue → Queue
finish q = record q { running = false; phase = idle }

-- The test of the `while`, and the loop's body up to its first `await`.
continue_loop : Queue → Queue
continue_loop q =
    if ltb q.saved_revision q.revision then record q { phase = exporting q.revision } else finish q

-- `save` up to its first `await`.
unfoldable pub save : Queue → Queue
unfolding publish continue_loop
save q =
    let r = record q { timer = false } in
    if r.aborted || r.running || r.revision == r.saved_revision
    then r
    else continue_loop (publish (saving (version r.state)) (record r { running = true }))

-- The callback of the timer.
unfoldable pub timer_fires : Queue → Queue
unfolding save
timer_fires q = if q.timer then save q else q

abbrev pub conflict_message : Text
conflict_message =
    codes
      "A newer vault exists on the server. Your edits are unsaved here. Download this copy before reloading to compare changes."

abbrev failure_message : Text
failure_message = codes "Unable to save vault. Your edits are still here."

unfoldable pub save_message : Thrown → Text
save_message (http_error s m) =
    if s == 409 then conflict_message else to_error_message (http_error s m) failure_message
save_message e = to_error_message e failure_message

-- The `catch` and the `finally` of `save`.
fail : Thrown → Queue → Queue
unfolding publish
fail e q = finish (if q.aborted then q else publish (error (version q.state) (save_message e)) q)

-- The `await` of the export ends; the vault was null if it is null now, for only `discard` clears it.
exported_at : Phase → Result Thrown (Unit {0}) → Queue → Queue
unfolding fail
exported_at (exporting r) (ok _) q =
    if q.aborted
    then finish q
    else if q.unlocked
    then record q { phase = uploading r }
    else fail (other_error (codes "Vault is locked.")) q
exported_at (exporting r) (throw e) q = fail e q
exported_at _ outcome q = q

unfoldable pub exported : Result Thrown (Unit {0}) → Queue → Queue
unfolding exported_at
exported outcome q = exported_at q.phase outcome q

accept : ℕ → ℕ → Queue → Queue
unfolding publish continue_loop
accept r v q =
    let s = record q { saved_revision = r } in
    continue_loop (publish (if s.saved_revision == s.revision then saved v else saving v) s)

-- The `await` of the upload ends with what the request returned or threw.
uploaded_at : Phase → Result Thrown Json → Queue → Queue
unfolding fail accept
uploaded_at (uploading r) response q = elim (upload_result (version q.state) response) [
  | ok v ↦ if q.aborted then finish q else accept r v q
  | throw e ↦ fail e q
]
uploaded_at _ response q = q

unfoldable pub uploaded : Result Thrown Json → Queue → Queue
unfolding uploaded_at upload_result
uploaded response q = uploaded_at q.phase response q

-- What happens to a queue, one synchronous stretch of code at a time.
pub data Event : Type 0 where
  listen forget : ℕ → Event
  edit retry debounce recover close : Event
  export_ends : Result Thrown (Unit {0}) → Event
  upload_ends : Result Thrown Json → Event

unfoldable pub step : Event → Queue → Queue
unfolding subscribe unsubscribe changed save timer_fires recover_unsaved discard exported uploaded
step (listen l) q = subscribe l q
step (forget l) q = unsubscribe l q
step edit q = changed q
step retry q = save q
step debounce q = timer_fires q
step recover q = recover_unsaved q
step close q = discard q
step (export_ends r) q = exported r q
step (upload_ends r) q = uploaded r q

unfoldable pub run : List Event → Queue → Queue
run [] q = q
run (e ∷ es) q = run es (step e q)
