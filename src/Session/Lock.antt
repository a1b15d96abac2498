-- ===== src/Session/Lock.antt =====
-- `autoLock`, the idle watch and the lock and sign-out buttons of frontend/src/App.tsx. `p` is what
-- lockedDraft.ts uses of the browser and `account` the user's id.
use kypassword_server.Base.{
  ℕ, Text, codes, Bool, true, false, not, ◌&&◌, ◌||◌, Option, none, some, if◌then◌else◌, Result, ok,
  throw,
}
use kypassword_server.Api.{Thrown}
use kypassword_server.AutoLock.{IdleDeadline, time, expired, activity}
use kypassword_server.Crypto.{Bytes}
use kypassword_server.Draft.{DraftMetadata, EntryDraft, Primitives, seal_draft}
use kypassword_server.Save.{Queue, SaveState, saved, version, can_discard_vault}
use kypassword_server.Session.{
  State, WebStorage, Checkpoint, settled, exporting_copy, storing_copy, removing_key, close_vault,
}

abbrev pub is_saved : SaveState → Bool
is_saved (saved _) = true
is_saved _ = false

abbrev is_some : {A : Type 0} → Option A → Bool
is_some none = false
is_some (some _) = true

-- What is recorded beside the vault's bytes.
abbrev pub draft_metadata : Queue → Option EntryDraft → DraftMetadata
draft_metadata q draft = record {
  version = version q.state;
  dirty = not (is_saved q.state);
  entry = draft;
}

abbrev pub has_unsaved : DraftMetadata → Bool
has_unsaved m = m.dirty || is_some m.entry

-- `sessionStorage.setItem` of the reference to the copy, and whether it worked.
abbrev keep_reference : Bool → Text → State → State
keep_reference needed id s =
    if needed && s.session.works
    then record s { session = record s.session { draft = some id } }
    else s

abbrev securing_notice : Text
securing_notice = codes "Vault locked. Securing your unsaved edits…"

abbrev idle_notice : Text
idle_notice = codes "Vault locked after inactivity."

-- The synchronous part for an open vault; `id` is the random reference.
unfoldable pub lock_open : Text → Bytes → DraftMetadata → State → State
unfolding close_vault
lock_open id key m s =
    let needed = has_unsaved m in
    let closed = close_vault (record (keep_reference needed id s) { recovery_pending = needed }) in
    record closed {
      lock_notice = if needed then securing_notice else idle_notice;
      checkpoint = if needed then exporting_copy key m s.session.works else removing_key;
      memory_draft = if needed then closed.memory_draft else none;
    }

unfoldable pub auto_lock : Text → State → State
unfolding lock_open
auto_lock id s = elim s.vault [
  | none ↦ s
  | some v ↦ elim s.vault_key [
    | none ↦ s
    | some key ↦ elim s.save_queue [
      | none ↦ s
      | some q ↦ lock_open id key (draft_metadata q s.draft) s
    ]
  ]
]

abbrev kept_notice : Text
kept_notice =
    codes
      "Vault locked. Your unsaved edits are encrypted on this device; unlock this tab to recover them."

abbrev tab_notice : Text
tab_notice =
    codes
      "Vault locked. Keep this tab open and unlock to recover your edits; the browser could not save the recovery reference."

abbrev storage_failed : Text
storage_failed =
    codes
      "Vault locked. Recovery storage failed; keep this tab open and unlock to recover your edits."

abbrev copy_failed : Text
copy_failed =
    codes "Vault locked, but the recovery copy failed. Unsaved edits could not be preserved."

abbrev key_kept_notice : Text
key_kept_notice =
    codes
      "Vault locked. Could not remove the cached device key; keep this tab locked until browser storage is available."

-- The `catch` of the checkpoint.
abbrev checkpoint_failed : State → State
checkpoint_failed s = record s {
  lock_notice = elim s.memory_draft [ none ↦ copy_failed | some _ ↦ storage_failed ];
  checkpoint = removing_key;
}

module _ (p : Primitives) (account : Text) where
  unfoldable pub seal_at : Bytes → Checkpoint → Result Thrown Bytes → State → State
  unfolding seal_draft
  seal_at iv (exporting_copy key m durable) (ok binary) s = record s {
    memory_draft = some (seal_draft p binary m key account iv);
    checkpoint = storing_copy durable;
  }
  seal_at iv (exporting_copy key m durable) (throw e) s = checkpoint_failed s
  seal_at iv _ exported s = s

  -- The export of the vault's bytes ends, and they are sealed with the nonce `iv`.
  unfoldable pub copy_exported : Bytes → Result Thrown Bytes → State → State
  unfolding seal_at
  copy_exported iv exported s = seal_at iv s.checkpoint exported s

unfoldable pub stored_at : Checkpoint → Bool → State → State
stored_at (storing_copy durable) done s =
    if done
    then record s {
      recovery_pending = not durable;
      lock_notice = if durable then kept_notice else tab_notice;
      checkpoint = removing_key;
    }
    else checkpoint_failed s
stored_at _ done s = s

-- `draftStore(id, "put", …)` ends.
unfoldable pub copy_stored : Bool → State → State
unfolding stored_at
copy_stored done s = stored_at s.checkpoint done s

unfoldable pub removed_at : Checkpoint → Bool → State → State
removed_at removing_key done s =
    if done
    then record s { device_key = none; checkpoint = settled }
    else record s { lock_notice = key_kept_notice; checkpoint = settled }
removed_at _ done s = s

-- The removal of the cached key ends. It runs beside the copy; the checkpoint awaits it last, and
-- here it ends at that await.
unfoldable pub key_removed : Bool → State → State
unfolding removed_at
key_removed done s = removed_at s.checkpoint done s

-- The lock button; `confirmed` is the user's answer if there is something to confirm.
abbrev save_state_of : Option Queue → SaveState
save_state_of none = saved 0
save_state_of (some q) = q.state

unfoldable pub confirm_discard_vault : Bool → State → Bool
unfolding can_discard_vault
confirm_discard_vault confirmed s =
    can_discard_vault (save_state_of s.save_queue) s.has_draft confirmed

unfoldable pub handle_lock_vault : Bool → State → State
unfolding confirm_discard_vault close_vault
handle_lock_vault confirmed s =
    if confirm_discard_vault confirmed s
    then record (close_vault s) { show_unlock_modal = true }
    else s

-- `logout` up to its request.
unfoldable pub handle_logout : Bool → State → State
unfolding confirm_discard_vault close_vault
handle_logout confirmed s = if confirm_discard_vault confirmed s then close_vault s else s

-- `record` of the idle watch.
abbrev set_activity : ℕ → WebStorage → WebStorage
set_activity wall w = if w.works then record w { activity = some (time wall) } else w

unfoldable pub record_activity : ℕ → State → State
record_activity wall s = record s {
  session = set_activity wall s.session;
  local = set_activity wall s.local;
}

-- What `deadline.activity()` decides: `record`, or to stop the event and lock.
unfoldable pub after_activity : Text → ℕ → State → IdleDeadline × Bool → IdleDeadline × Bool × State
unfolding record_activity auto_lock
after_activity id wall s (d, true) = (d, true, record_activity wall s)
after_activity id wall s (d, false) = (d, false, auto_lock id s)

-- A user event: the deadline after it, whether the event may go on to the page, and the state.
unfoldable pub user_event : Text → IdleDeadline → ℕ → ℕ → State → IdleDeadline × Bool × State
unfolding activity after_activity
user_event id d wall monotonic s = after_activity id wall s (activity d wall monotonic)

-- The timer, and the focus of the window.
unfoldable pub check_idle : Text → IdleDeadline → ℕ → ℕ → State → State
unfolding expired auto_lock
check_idle id d wall monotonic s = if expired d wall monotonic then auto_lock id s else s

-- The memory part of `handleForgetDevice`, once the checkpoint is settled.
unfoldable pub forget_copy : State → State
forget_copy s = record s {
  memory_draft = none;
  session = if s.session.works then record s.session { draft = none } else s.session;
}

-- `changeAutoLock`.
unfoldable pub change_auto_lock : ℕ → State → State
change_auto_lock minutes s = record s { auto_lock_minutes = minutes }

-- The drafts of the editor, `onDraftChange`.
unfoldable pub draft_changed : Option EntryDraft → State → State
draft_changed d s = record s { draft = d; has_draft = is_some d }
