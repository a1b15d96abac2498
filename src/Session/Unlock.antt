-- ===== src/Session/Unlock.antt =====
-- `initVault` of frontend/src/App.tsx, an async function: the places where it awaits, what it holds
-- there, and its synchronous parts. Session.Resume puts them together.
use kypassword_server.Base.{
  ℕ, Text, codes, is_empty, Bool, true, false, not, ◌&&◌, Option, none, some, List, [], ◌∷◌, ◌++◌,
  if◌then◌else◌, ◌==◌, Result,
}
use kypassword_server.Json.{Json}
use kypassword_server.Api.{Thrown, other_error, to_error_message}
use kypassword_server.Crypto.{Bytes, bytes_to_hex}
use kypassword_server.Draft.{DraftMetadata, LockedDraft, Read, available, unavailable}
use kypassword_server.Save.{Queue, create, recover_unsaved}
use kypassword_server.Session.{
  State, set_save_queue, remove_locked, Trust, unreadable, expired_or_locked, trusted, trust,
}

pub record Metadata : Type 0 where
  pub version : ℕ
  pub password_envelope : Text
  pub recovery_envelope : Text

-- What `initVault` holds once the vault is open.
pub record Opened : Type 0 where
  pub version : ℕ
  pub key : Bytes
  pub vault : Bytes
  pub recovered : Option DraftMetadata
  pub stored : Option LockedDraft
  pub is_available : Bool
  pub notices : List Text

-- Where a call of `initVault` stands.
pub data Stage : Type 0 where
  at_checkpoint at_metadata at_creation at_final_clear : Stage
  at_upload : Bytes → Bytes → Stage
  at_new_key_store : Bytes → Bytes → ℕ → Stage
  at_unwrap : Metadata → Stage
  at_cached_key : Metadata → Stage
  at_download : Metadata → Bytes → Stage
  at_draft : Metadata → Bytes → Bytes → Stage
  at_open : Metadata → Bytes → Bytes → Read → Stage
  at_key_store : Opened → Stage
  at_removal : Opened → Stage

-- What ends an `await`.
pub data Answer : Type 0 where
  checkpoint_settled : Answer
  metadata_read : Result Thrown Metadata → Answer
  -- the new key and the exported new vault
  vault_created : Result Thrown (Bytes × Bytes) → Answer
  upload_answered : Result Thrown Json → Answer
  key_stored : Bool → Answer
  key_cleared : Bool → Answer
  key_unwrapped : Result Thrown Bytes → Answer
  key_read : Option Text → Answer
  downloaded : Result Thrown Bytes → Answer
  draft_read : Read → Answer
  vault_opened : Answer
  draft_removed : Bool → Answer

pub record Call : Type 0 where
  pub generation : ℕ
  pub password : Option Text
  pub stage : Stage

-- `current()`.
unfoldable pub is_current : Call → State → Bool
is_current c s = c.generation == s.unlock_generation

abbrev pub Next : Type 0
Next = State × Option Stage

unfoldable pub show_unlock : State → State
show_unlock s = record s { show_unlock_modal = true }

-- The `catch`.
unfoldable pub failed : Call → Thrown → State → Next
unfolding is_current
failed c e s =
    if is_current c s
    then (
      record s {
        unlock_error = to_error_message e (codes "Failed to unlock vault");
        show_unlock_modal = true;
      },
      none,
    )
    else (s, none)

abbrev pub cache_failed : Text
cache_failed = codes "Could not cache the device key; you may need your master password again."

abbrev pub push_unless : Bool → Text → List Text → List Text
push_unless done notice notices = if done then notices else notices ++ notice ∷ []

-- `notices.join(" ")`.
join_notices : List Text → Text
join_notices [] = []
join_notices (n ∷ []) = n
join_notices (n ∷ ns) = n ++ (b' ' ∷ join_notices ns)

unfoldable pub store_key : Bool → Bytes → State → State
store_key done key s = record s {
  device_key = if done then some (bytes_to_hex key) else s.device_key;
}

unfoldable pub clear_key : Bool → State → State
clear_key done s = record s { device_key = if done then none else s.device_key }

-- The brand new vault is shown.
unfoldable pub show_new : Bytes → Bytes → ℕ → List Text → State → State
unfolding set_save_queue join_notices create
show_new key vault version notices s =
    record (set_save_queue (some (create true version)) (remove_locked s)) {
      vault_key = some key;
      vault = some vault;
      lock_notice = join_notices notices;
      show_unlock_modal = false;
    }

-- The envelope that the password opens.
abbrev pub envelope_of : Metadata → Text
envelope_of m = if is_empty m.password_envelope then m.recovery_envelope else m.password_envelope

-- The check of a device without the password.
unfoldable pub ask_device : Metadata → Trust → State → Next
unfolding show_unlock
ask_device m unreadable s = (show_unlock s, none)
ask_device m expired_or_locked s = (show_unlock s, some at_final_clear)
ask_device m trusted s = (s, some (at_cached_key m))

unfoldable pub begin : Call → ℕ → Metadata → Option Text → State → Next
unfolding show_unlock failed ask_device trust
begin c now m none s =
    if m.version == 0 then (show_unlock s, none) else ask_device m (trust true s now) s
begin c now m (some password) s =
    if m.version == 0
    then (s, some at_creation)
    else if is_empty (envelope_of m)
    then failed c (other_error (codes "No key envelopes found on server metadata")) s
    else (s, some (at_unwrap m))

abbrev pub read_failed : Text
read_failed =
    codes
      "Opened the server copy. Could not read the local recovery copy; retry unlocking when browser storage is available to recover local edits."

abbrev pub removal_failed : Text
removal_failed =
    codes
      "Recovered local edits, but could not remove the old encrypted recovery copy from browser storage."

abbrev recovered_notice : Text
recovered_notice = codes "Recovered local edits. Review them before saving."

abbrev pub new_queue : Opened → Queue
new_queue o = elim o.recovered [
  | none ↦ create true o.version
  | some m ↦ if m.dirty then recover_unsaved (create true m.version) else create true m.version
]

-- The opened vault is shown.
unfoldable pub show_opened : Call → Opened → State → State
unfolding set_save_queue join_notices create recover_unsaved
show_opened c o s =
    let shown = record (set_save_queue (some (new_queue o)) s) {
      memory_draft = none;
      recovery_pending = not o.is_available;
      initial_draft = elim o.recovered [ none ↦ none | some m ↦ m.entry ];
      vault_key = some o.key;
      vault = some o.vault;
      lock_notice =
          join_notices
            (elim o.recovered [ none ↦ o.notices | some _ ↦ recovered_notice ∷ o.notices ]);
      show_unlock_modal = false;
    } in
    elim c.password [ none ↦ shown | some _ ↦ remove_locked shown ]

abbrev pub forget_draft : Bool → State → State
forget_draft is_available s =
    if is_available && s.session.works
    then record s { session = record s.session { draft = none } }
    else s

unfoldable pub finish : Call → Opened → State → Next
unfolding is_current show_opened
finish c o s =
    let t = forget_draft o.is_available s in
    if is_current c t then (show_opened c o t, none) else (t, none)

abbrev pub take_stored : Call → Opened → Option LockedDraft → State → Next
unfolding finish
take_stored c o none s = finish c o s
take_stored c o (some d) s =
    (record s { memory_draft = some d; recovery_pending = true }, some (at_removal o))

-- The second look at the device's deadline, now that the vault is open.
open_device : Call → Opened → Trust → State → Next
unfolding show_unlock finish
open_device c o unreadable s = (show_unlock s, none)
open_device c o expired_or_locked s = (show_unlock s, some at_final_clear)
open_device c o trusted s = take_stored c o o.stored s

unfoldable pub after_open : Call → ℕ → Opened → Option Text → State → Next
unfolding open_device trust
after_open c now o none s = open_device c o (trust false s now) s
after_open c now o (some password) s = (s, some (at_key_store o))

abbrev pub stored_of : Read → Option LockedDraft
stored_of (available d) = d
stored_of unavailable = none

abbrev pub read_is_available : Read → Bool
read_is_available (available _) = true
read_is_available unavailable = false
