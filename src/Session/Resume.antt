-- ===== src/Session/Resume.antt =====
-- The stretches of `initVault` of frontend/src/App.tsx from one `await` to the next. `p` is what
-- lockedDraft.ts uses of the browser, `account` the user's id, and `open_vault` stands for
-- `KeePassVault.open`.
use kypassword_server.Base.{
  ℕ, Text, is_empty, Bool, true, false, Option, none, some, [], if◌then◌else◌, Result, ok, throw,
}
use kypassword_server.Api.{Thrown}
use kypassword_server.Crypto.{Bytes, hex_to_bytes}
use kypassword_server.Draft.{DraftMetadata, LockedDraft, Primitives, Read, available, open_draft}
use kypassword_server.Save.{upload_result}
use kypassword_server.Session.{State, Checkpoint, settled}
use kypassword_server.Session.Unlock.{
  Metadata, Opened, Stage, Answer, Call, is_current, Next, show_unlock, failed, cache_failed,
  push_unless, store_key, clear_key, show_new, begin, read_failed, removal_failed, finish,
  take_stored, after_open, stored_of, read_is_available, at_checkpoint, at_metadata, at_creation,
  at_final_clear, at_upload, at_new_key_store, at_unwrap, at_cached_key, at_download, at_draft,
  at_open, at_key_store, at_removal, checkpoint_settled, metadata_read, vault_created,
  upload_answered, key_stored, key_cleared, key_unwrapped, key_read, downloaded, draft_read,
  vault_opened, draft_removed,
}

module _ (p : Primitives) (account : Text) (open_vault : Bytes → Bytes → Result Thrown Bytes) where
  -- `openDraft` of the recovery copy, if there is one.
  abbrev just :
      Result Thrown (Bytes × DraftMetadata) → Result Thrown (Option (Bytes × DraftMetadata))
  just (ok r) = ok (some r)
  just (throw e) = throw e

  unfoldable pub recover :
      Bytes → Option LockedDraft → Result Thrown (Option (Bytes × DraftMetadata))
  recover key none = ok none
  recover key (some d) = just (open_draft p d key account)

  unfoldable pub opened_from :
      Metadata
      → Bytes
      → Read
      → Option (Bytes × DraftMetadata)
      → Result Thrown Bytes
      → Result Thrown Opened
  opened_from m key read recovered (throw e) = throw e
  opened_from m key read recovered (ok vault) = ok (record {
    version = m.version;
    key = key;
    vault = vault;
    recovered = elim recovered [ none ↦ none | some r ↦ some r.1 ];
    stored = stored_of read;
    is_available = read_is_available read;
    notices = push_unless (read_is_available read) read_failed [];
  })

  abbrev pub content_of : Bytes → Option (Bytes × DraftMetadata) → Bytes
  content_of kdbx none = kdbx
  content_of kdbx (some r) = r.0

  unfoldable pub open_content :
      Metadata
      → Bytes
      → Bytes
      → Read
      → Result Thrown (Option (Bytes × DraftMetadata))
      → Result Thrown Opened
  unfolding opened_from
  open_content m key kdbx read (throw e) = throw e
  open_content m key kdbx read (ok recovered) =
      opened_from m key read recovered (open_vault (content_of kdbx recovered) key)

  -- The recovery copy in place of the server's, if there is one.
  unfoldable pub open_copy : Metadata → Bytes → Bytes → Read → Result Thrown Opened
  unfolding open_content
  open_copy m key kdbx read = open_content m key kdbx read (recover key (stored_of read))

  unfoldable pub open_at : Call → ℕ → Result Thrown Opened → State → Next
  unfolding failed after_open is_current
  open_at c now (throw e) s = failed c e s
  open_at c now (ok o) s = if is_current c s then after_open c now o c.password s else (s, none)

  unfoldable pub with_key : Call → Metadata → Bytes → State → Next
  unfolding is_current
  with_key c m key s = if is_current c s then (s, some (at_download m key)) else (s, none)

  abbrev with_cached : Call → Metadata → Option Text → State → Next
  unfolding with_key show_unlock
  with_cached c m none s = (show_unlock s, none)
  with_cached c m (some hex) s =
      if is_empty hex then (show_unlock s, none) else with_key c m (hex_to_bytes hex) s

  -- `memoryDraft.current` is taken before the copy in the browser's database.
  abbrev choose_draft : Metadata → Bytes → Bytes → Option LockedDraft → State → Next
  choose_draft m key kdbx none s = (s, some (at_draft m key kdbx))
  choose_draft m key kdbx (some d) s = (s, some (at_open m key kdbx (available (some d))))

  abbrev is_settled : Checkpoint → Bool
  is_settled settled = true
  is_settled _ = false

  -- From one `await` to the next: the state, and the stage where the call waits again, if it does.
  unfoldable pub resume : Call → ℕ → Stage → Answer → State → Next
  unfolding is_current begin failed upload_result store_key clear_key show_new with_key open_copy
      open_at finish show_unlock
  resume c now at_checkpoint checkpoint_settled s =
      if is_settled s.checkpoint
      then (s, if is_current c s then some at_metadata else none)
      else (s, some at_checkpoint)
  resume c now at_metadata (metadata_read (ok m)) s =
      if is_current c s then begin c now m c.password s else (s, none)
  resume c now at_metadata (metadata_read (throw e)) s = failed c e s
  resume c now at_creation (vault_created (ok (key, vault))) s = (s, some (at_upload key vault))
  resume c now at_creation (vault_created (throw e)) s = failed c e s
  resume c now (at_upload key vault) (upload_answered r) s = elim (upload_result 0 r) [
    | ok version ↦ (s, if is_current c s then some (at_new_key_store key vault version) else none)
    | throw e ↦ failed c e s
  ]
  resume c now (at_new_key_store key vault version) (key_stored done) s =
      let t = store_key done key s in
      if is_current c t
      then (show_new key vault version (push_unless done cache_failed []) t, none)
      else (t, some at_final_clear)
  resume c now at_final_clear (key_cleared done) s = (clear_key done s, none)
  resume c now (at_unwrap m) (key_unwrapped (ok key)) s = with_key c m key s
  resume c now (at_unwrap m) (key_unwrapped (throw e)) s = failed c e s
  resume c now (at_cached_key m) (key_read hex) s = with_cached c m hex s
  resume c now (at_download m key) (downloaded (ok kdbx)) s =
      choose_draft m key kdbx s.memory_draft s
  resume c now (at_download m key) (downloaded (throw e)) s = failed c e s
  resume c now (at_draft m key kdbx) (draft_read read) s = (s, some (at_open m key kdbx read))
  resume c now (at_open m key kdbx read) vault_opened s =
      open_at c now (open_copy m key kdbx read) s
  resume c now (at_key_store o) (key_stored done) s =
      let t = store_key done o.key s in
      let told = record o { notices = push_unless done cache_failed o.notices } in
      if is_current c t then take_stored c told o.stored t else (t, some at_final_clear)
  resume c now (at_removal o) (draft_removed done) s =
      finish c (record o { notices = push_unless done removal_failed o.notices }) s
  resume c now stage _ s = (s, some stage)
