-- ===== src/Session/Recovery/Steps.antt =====
-- The stretches of an unlock with a password that finds a recovery copy in memory.
use kypassword_server.Base.{
  ℕ, Text, is_empty, Bool, true, false, none, some, List, [], ◌∷◌, ◌≡◌, refl, arith, if◌then◌else◌,
  ◌==◌, ==_refl, Result, ok,
}
use kypassword_server.Api.{Thrown}
use kypassword_server.Crypto.{Bytes}
use kypassword_server.Draft.{Primitives, DraftMetadata, LockedDraft, open_draft, available}
use kypassword_server.Save.{Queue, create, recover_unsaved}
use kypassword_server.Session.{State, settled, set_save_queue}
use kypassword_server.Session.Unlock.{
  Metadata, Opened, Stage, Call, Answer, checkpoint_settled, metadata_read, key_unwrapped,
  downloaded, vault_opened, key_stored, draft_removed, is_current, finish, show_opened, store_key,
  envelope_of, begin, after_open, at_checkpoint, at_metadata, at_unwrap, at_download, at_open,
  at_key_store, at_removal, push_unless, cache_failed, forget_draft, removal_failed,
}
use kypassword_server.Session.Resume.{
  resume, open_copy, with_key, open_at, recover, opened_from, open_content,
}
use kypassword_server.Session.World.{World, Event, answer, answer_call, step, run}

-- The queue that the recovered metadata asks for.
abbrev pub recovered_queue : DraftMetadata → Queue
recovered_queue m =
    if m.dirty then recover_unsaved (create true m.version) else create true m.version

-- A state that shows the vault `v` with the edits that `m` tells of.
pub record Shows (v key : Bytes) (m : DraftMetadata) (t : State) : Type 0 where
  pub vault : t.vault ≡ some v
  pub vault_key : t.vault_key ≡ some key
  pub save_queue : t.save_queue ≡ some (recovered_queue m)
  pub initial_draft : t.initial_draft ≡ m.entry

show_opened-Shows :
    (c : Call) (o : Opened) (m : DraftMetadata) (s : State)
    → o.recovered ≡ some m
    → Shows o.vault o.key m (show_opened c o s)
unfolding show_opened set_save_queue
show_opened-Shows c o m s h = ground arith

module _ (p : Primitives) (account : Text) (open_vault : Bytes → Bytes → Result Thrown Bytes) where
  recover-draft :
      (key : Bytes) (d : LockedDraft) (r : Bytes × DraftMetadata)
      → open_draft p d key account ≡ ok r
      → recover p account open_vault key (some d) ≡ ok (some r)
  unfolding recover
  recover-draft key d r opened = rw (opened)

  pub open_copy-draft :
      (meta : Metadata) (key kdbx : Bytes) (d : LockedDraft) (binary v : Bytes) (m : DraftMetadata)
      → open_draft p d key account ≡ ok (binary, m)
      → open_vault binary key ≡ ok v
      → open_copy p account open_vault meta key kdbx (available (some d))
        ≡ ok (record {
          version = meta.version;
          key = key;
          vault = v;
          recovered = some m;
          stored = some d;
          is_available = true;
          notices = [];
        })
  unfolding open_copy open_content
  open_copy-draft meta key kdbx d binary v m opened vault =
      rw (recover-draft key d (binary, m) opened, vault) (unfold opened_from in refl)

  abbrev pub one : State → Call → World
  one s c = record { state = s; calls = c ∷ [] }

  -- One answer to the only call, after which it waits at `stage`.
  pub run-waits :
      (s t : State) (c : Call) (now : ℕ) (a : Answer) (stage : Stage) (es : List Event)
      → resume p account open_vault c now c.stage a s ≡ (t, some stage)
      → run p account open_vault (answer 0 now a ∷ es) (one s c)
        ≡ run p account open_vault es (one t (record c { stage = stage }))
  unfolding run step answer_call
  run-waits s t c now a stage es e = rw (e)

  -- One answer to the only call, with which it ends.
  pub run-ends :
      (s t : State) (c : Call) (now : ℕ) (a : Answer)
      → resume p account open_vault c now c.stage a s ≡ (t, none)
      → (run p account open_vault (answer 0 now a ∷ []) (one s c)).state ≡ t
  unfolding run step answer_call
  run-ends s t c now a e = rw (e)

  module _ (g : ℕ) (password : Text) where
    abbrev pub call : Stage → Call
    call stage = record { generation = g; password = some password; stage = stage }

    current :
        (stage : Stage) (s : State) → s.unlock_generation ≡ g → is_current (call stage) s ≡ true
    unfolding is_current
    current stage s e = rw (e, ==_refl g)

    forget_draft-generation :
        (b : Bool) (s : State) → (forget_draft b s).unlock_generation ≡ s.unlock_generation
    forget_draft-generation b s = ground arith

    pub resume-at_checkpoint :
        (s : State) (now : ℕ)
        → s.unlock_generation ≡ g
        → s.checkpoint ≡ settled
        → resume p account open_vault (call at_checkpoint) now at_checkpoint checkpoint_settled s
          ≡ (s, some at_metadata)
    unfolding resume
    resume-at_checkpoint s now e h = rw (h, current at_checkpoint s e)

    pub resume-at_metadata :
        (s : State) (now : ℕ) (meta : Metadata)
        → s.unlock_generation ≡ g
        → (meta.version == 0) ≡ false
        → is_empty (envelope_of meta) ≡ false
        → resume p account open_vault (call at_metadata) now at_metadata (metadata_read (ok meta)) s
          ≡ (s, some (at_unwrap meta))
    unfolding resume begin
    resume-at_metadata s now meta e v h = rw (current at_metadata s e, v, h)

    pub resume-at_unwrap :
        (s : State) (now : ℕ) (meta : Metadata) (key : Bytes)
        → s.unlock_generation ≡ g
        → resume p account open_vault
            (call (at_unwrap meta))
            now
            (at_unwrap meta)
            (key_unwrapped (ok key))
            s
          ≡ (s, some (at_download meta key))
    unfolding resume with_key
    resume-at_unwrap s now meta key e = rw (current (at_unwrap meta) s e)

    pub resume-at_download :
        (s : State) (now : ℕ) (meta : Metadata) (key kdbx : Bytes) (d : LockedDraft)
        → s.memory_draft ≡ some d
        → resume p account open_vault
            (call (at_download meta key))
            now
            (at_download meta key)
            (downloaded (ok kdbx))
            s
          ≡ (s, some (at_open meta key kdbx (available (some d))))
    unfolding resume
    resume-at_download s now meta key kdbx d e = rw (e)

    pub resume-at_open :
        (s : State) (now : ℕ) (meta : Metadata) (key kdbx : Bytes) (d : LockedDraft) (o : Opened)
        → s.unlock_generation ≡ g
        → open_copy p account open_vault meta key kdbx (available (some d)) ≡ ok o
        → resume p account open_vault
            (call (at_open meta key kdbx (available (some d))))
            now
            (at_open meta key kdbx (available (some d)))
            vault_opened
            s
          ≡ (s, some (at_key_store o))
    unfolding resume open_at after_open
    resume-at_open s now meta key kdbx d o e h =
        rw (h, current (at_open meta key kdbx (available (some d))) s e)

    pub resume-at_key_store :
        (s : State) (now : ℕ) (done : Bool) (o : Opened) (d : LockedDraft)
        → s.unlock_generation ≡ g
        → o.stored ≡ some d
        → (told : List Text) × (resume p account open_vault
              (call (at_key_store o))
              now
              (at_key_store o)
              (key_stored done)
              s
            ≡ (
              record (store_key done o.key s) { memory_draft = some d; recovery_pending = true },
              some (at_removal (record o { notices = told })),
            ))
    unfolding resume
    resume-at_key_store s now done o d e h = (
      push_unless done cache_failed o.notices,
      rw (current (at_key_store o) (store_key done o.key s) (unfold store_key in e), h) refl,
    )

    pub resume-at_removal :
        (s : State) (now : ℕ) (done : Bool) (o : Opened) (m : DraftMetadata)
        → s.unlock_generation ≡ g
        → o.recovered ≡ some m
        → (t : State) × (resume p account open_vault
              (call (at_removal o))
              now
              (at_removal o)
              (draft_removed done)
              s
            ≡ (t, none))
          × Shows o.vault o.key m t
    unfolding resume finish
    resume-at_removal s now done o m e h =
        let told = record o { notices = push_unless done removal_failed o.notices } in
        let t = forget_draft o.is_available s in
        (
          show_opened (call (at_removal o)) told t,
          rw (current (at_removal o) t (rw (forget_draft-generation o.is_available s) e)) refl,
          show_opened-Shows (call (at_removal o)) told m t h,
        )
