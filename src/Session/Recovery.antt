-- ===== src/Session/Recovery.antt =====
-- Edits that were not saved when the vault locked itself come back with the next unlock.
pub mod Steps
use kypassword_server.Draft.Frame.{IsVersion, open_draft-seal_draft}
use kypassword_server.Session.Lock.{
  draft_metadata, has_unsaved, copy_exported, copy_stored, key_removed, seal_at, stored_at,
  removed_at, lock_open, auto_lock,
}
use kypassword_server.Base.{
  ℕ, Text, is_empty, Bool, true, false, none, some, List, [], ◌∷◌, ◌≡◌, refl, arith, if◌then◌else◌,
  ◌==◌, ==_refl, Result, ok, ◌<◌, ◌^◌, length, ◌+◌,
}
use kypassword_server.Api.{Thrown}
use kypassword_server.Crypto.{Bytes}
use kypassword_server.Draft.{
  Primitives, DraftMetadata, LockedDraft, open_draft, available, seal_draft, IsSound,
}
use kypassword_server.Save.{Queue, create, recover_unsaved, version}
use kypassword_server.Session.{State, settled, set_save_queue, exporting_copy}
use kypassword_server.Session.Unlock.{
  Metadata, Opened, Stage, Call, Answer, checkpoint_settled, metadata_read, key_unwrapped,
  downloaded, vault_opened, key_stored, draft_removed, is_current, finish, show_opened, store_key,
  envelope_of, begin, after_open, at_checkpoint, at_metadata, at_unwrap, at_download, at_open,
  at_key_store, at_removal, push_unless, cache_failed, forget_draft, removal_failed,
}
use kypassword_server.Session.Resume.{
  resume, open_copy, with_key, open_at, recover, opened_from, open_content,
}
use kypassword_server.Session.World.{
  World, Event, answer, answer_call, step, run, copy_export_ends, copy_store_ends, key_removal_ends,
  unlock, init_vault,
}
use kypassword_server.Session.Recovery.Steps.{
  recovered_queue, Shows, open_copy-draft, one, run-waits, run-ends, call, resume-at_checkpoint,
  resume-at_metadata, resume-at_unwrap, resume-at_download, resume-at_open, resume-at_key_store,
  resume-at_removal,
}

-- The answers to an unlock with a password that goes well.
abbrev pub good_answers : ℕ → Metadata → Bytes → Bytes → Bool → Bool → List Event
good_answers now meta key kdbx cached removed =
    answer 0 now checkpoint_settled
    ∷ answer 0 now (metadata_read (ok meta))
    ∷ answer 0 now (key_unwrapped (ok key))
    ∷ answer 0 now (downloaded (ok kdbx))
    ∷ answer 0 now vault_opened
    ∷ answer 0 now (key_stored cached)
    ∷ answer 0 now (draft_removed removed)
    ∷ []

module _ (p : Primitives) (account : Text) (open_vault : Bytes → Bytes → Result Thrown Bytes) where
  module _ (g : ℕ) (password : Text) where
    -- The whole unlock, once the checkpoint is settled with a copy in memory.
    run-good :
        (s : State) (now : ℕ) (meta : Metadata) (key kdbx : Bytes) (cached removed : Bool)
        (d : LockedDraft) (binary v : Bytes) (m : DraftMetadata)
        → s.unlock_generation ≡ g
        → s.checkpoint ≡ settled
        → s.memory_draft ≡ some d
        → (meta.version == 0) ≡ false
        → is_empty (envelope_of meta) ≡ false
        → open_draft p d key account ≡ ok (binary, m)
        → open_vault binary key ≡ ok v
        → Shows v key m
            (run p account open_vault (good_answers now meta key kdbx cached removed) (
              one p account open_vault s
                (call p account open_vault g password at_checkpoint))).state
    run-good s now meta key kdbx cached removed d binary v m e done kept some_version envelope
          opened vault =
        let o : Opened = record {
          version = meta.version;
          key = key;
          vault = v;
          recovered = some m;
          stored = some d;
          is_available = true;
          notices = [];
        } in
        let copied = open_copy-draft p account open_vault meta key kdbx d binary v m opened vault in
        let stored = resume-at_key_store p account open_vault g password s now cached o d e refl in
        let told = record o { notices = stored.0 } in
        let t = record (store_key cached key s) {
          memory_draft = some d;
          recovery_pending = true;
        } in
        let last =
          resume-at_removal p account open_vault g password t now removed told m
            (unfold store_key in e) refl in
        rw
          (
            run-waits p account open_vault s s (call p account open_vault g password at_checkpoint)
                now checkpoint_settled at_metadata _
                (resume-at_checkpoint p account open_vault g password s now e done),
            run-waits p account open_vault s s (call p account open_vault g password at_metadata)
                now (metadata_read (ok meta)) (at_unwrap meta) _
                (resume-at_metadata p account open_vault g password s now meta e some_version
                  envelope),
            run-waits p account open_vault s s
                (call p account open_vault g password (at_unwrap meta)) now (key_unwrapped (ok key))
                (at_download meta key) _
                (resume-at_unwrap p account open_vault g password s now meta key e),
            run-waits p account open_vault s s
                (call p account open_vault g password (at_download meta key)) now
                (downloaded (ok kdbx)) (at_open meta key kdbx (available (some d))) _
                (resume-at_download p account open_vault g password s now meta key kdbx d kept),
            run-waits p account open_vault s s
                (call p account open_vault g password (at_open meta key kdbx (available (some d))))
                now vault_opened (at_key_store o) _
                (resume-at_open p account open_vault g password s now meta key kdbx d o e copied),
            run-waits p account open_vault s t
                (call p account open_vault g password (at_key_store o)) now (key_stored cached)
                (at_removal told) _ stored.1,
            run-ends p account open_vault t last.0
                (call p account open_vault g password (at_removal told)) now (draft_removed removed)
                last.1,
          )
          last.2

  copy_kept :
      (s : State) (key iv binary : Bytes) (m : DraftMetadata) (durable stored removed : Bool)
      → s.checkpoint ≡ exporting_copy key m durable
      → let t =
          key_removed removed (copy_stored stored (copy_exported p account iv (ok binary) s)) in
        (t.checkpoint ≡ settled) × (t.memory_draft ≡ some (seal_draft p binary m key account iv))
  unfolding key_removed removed_at copy_stored stored_at copy_exported seal_at
  copy_kept s key iv binary m durable stored removed h = ground arith

  auto_lock-checkpoint :
      (id : Text) (s : State) (v key : Bytes) (q : Queue)
      → s.vault ≡ some v
      → s.vault_key ≡ some key
      → s.save_queue ≡ some q
      → has_unsaved (draft_metadata q s.draft) ≡ true
      → (auto_lock id s).checkpoint ≡ exporting_copy key (draft_metadata q s.draft) s.session.works
  unfolding auto_lock lock_open
  auto_lock-checkpoint id s v key q hv hk hq unsaved = ground arith

  -- If decryption undoes encryption and parsing undoes printing (`IsSound`): when the idle watch locks
  -- a vault with unsaved edits, and their copy is exported, then whether or not the browser stores the
  -- copy and removes the cached key, an unlock with a password that the server's envelope accepts shows
  -- the vault of the copy, not the server's, with the draft of the editor, and a queue that still has
  -- the version and, where edits were not saved, tells so.
  pub auto_lock-recovered :
      IsSound p
      → (id : Text) (s : State) (v key iv binary kdbx : Bytes) (q : Queue) (u : Bytes)
        (stored removed cached deleted : Bool) (c : ℕ) (password : Text) (now : ℕ) (meta : Metadata)
      → s.vault ≡ some v
      → s.vault_key ≡ some key
      → s.save_queue ≡ some q
      → has_unsaved (draft_metadata q s.draft) ≡ true
      → IsVersion (version q.state)
      → length (p.print (draft_metadata q s.draft)) < 2 ^ 32
      → open_vault binary key ≡ ok u
      → (meta.version == 0) ≡ false
      → is_empty (envelope_of meta) ≡ false
      → Shows u key
          (draft_metadata q s.draft)
          (run p account open_vault
            (copy_export_ends iv (ok binary)
              ∷ copy_store_ends stored
              ∷ key_removal_ends removed
              ∷ unlock (c ∷ password)
              ∷ good_answers now meta key kdbx cached deleted)
            (record { state = auto_lock id s; calls = [] })).state
  auto_lock-recovered sound id s v key iv binary kdbx q u stored removed cached deleted c password
        now meta hv hk hq unsaved hver hlen opens some_version envelope =
      let m = draft_metadata q s.draft in
      let kept =
        copy_kept (auto_lock id s) key iv binary m s.session.works stored removed
          (auto_lock-checkpoint id s v key q hv hk hq unsaved) in
      let t =
        key_removed removed
          (copy_stored stored (copy_exported p account iv (ok binary) (auto_lock id s))) in
      unfold run step init_vault in
      run-good (t.unlock_generation + 1) (c ∷ password)
        (record t { unlock_generation = t.unlock_generation + 1 }) now meta key kdbx cached deleted
        (seal_draft p binary m key account iv) binary u m refl kept.0 kept.1 some_version envelope
        (open_draft-seal_draft p sound binary key iv m account hver hlen) opens
