-- ===== src/Tests/Sessions.antt =====
-- Locking and unlocking of a session at concrete inputs.
use kypassword_server.Base.{codes, true, false, none, some, List, [], ◌∷◌, ◌≡◌, refl, arith, ok}
use kypassword_server.AutoLock.{time}
use kypassword_server.Draft.{available}
use kypassword_server.Save.{Queue, create, changed}
use kypassword_server.Session.{State, WebStorage, settled, close_vault}
use kypassword_server.Session.Unlock.{
  Metadata, Call, at_open, checkpoint_settled, metadata_read, vault_opened,
}
use kypassword_server.Session.Lock.{auto_lock, draft_metadata}
use kypassword_server.Session.World.{
  Event, unlock, answer, copy_export_ends, copy_store_ends, key_removal_ends, run,
}
use kypassword_server.Session.Locked.{run-close_vault}
use kypassword_server.Session.Recovery.{good_answers, auto_lock-recovered}
use kypassword_server.Session.Recovery.Steps.{Shows}
use kypassword_server.Tests.Codecs.{bound_primitives, bound_primitives-IsSound}

abbrev storage : WebStorage
storage = record { works = true; locked = false; activity = some (time 5000); draft = none }

-- A vault with an edit that is being saved.
abbrev edited_queue : Queue
edited_queue = changed (create true 4)

abbrev pub open_state : State
open_state = record {
  vault = some (1 ∷ 2 ∷ []);
  vault_key = some (7 ∷ 200 ∷ []);
  save_queue = some edited_queue;
  retired = [];
  has_draft = false;
  draft = none;
  initial_draft = none;
  auto_lock_minutes = 5;
  unlock_generation = 3;
  checkpoint = settled;
  memory_draft = none;
  lock_notice = [];
  recovery_pending = false;
  show_unlock_modal = false;
  show_history_modal = false;
  unlock_password = [];
  unlock_error = [];
  session = storage;
  local = storage;
  device_key = some (codes "07c8");
}

abbrev server_metadata : Metadata
server_metadata = record { version = 4; password_envelope = codes "{}"; recovery_envelope = [] }

auto_lock-recovered_example :
    Shows
      (9 ∷ 8 ∷ [])
      (7 ∷ 200 ∷ [])
      (draft_metadata edited_queue none)
      (run bound_primitives
        (codes "ann")
        (λ binary key. ok binary)
        (copy_export_ends (5 ∷ []) (ok (9 ∷ 8 ∷ []))
          ∷ copy_store_ends false
          ∷ key_removal_ends true
          ∷ unlock (codes "pw")
          ∷ good_answers 6000 server_metadata (7 ∷ 200 ∷ []) (1 ∷ []) true true)
        (record { state = auto_lock (codes "copy") open_state; calls = [] })).state
unfolding create
auto_lock-recovered_example =
    auto_lock-recovered bound_primitives (codes "ann") (λ binary key. ok binary)
      bound_primitives-IsSound (codes "copy") open_state (1 ∷ 2 ∷ []) (7 ∷ 200 ∷ []) (5 ∷ [])
      (9 ∷ 8 ∷ []) (1 ∷ []) edited_queue (9 ∷ 8 ∷ []) false true true true b'p' (codes "w") 6000
      server_metadata refl refl refl (unfold changed in refl) (unfold changed in omega arith)
      (unfold changed in omega arith) refl refl refl

-- A call with a password that waits for the vault's opening, while the vault is closed.
abbrev pub pending : Call
pending = record {
  generation = 3;
  password = some (codes "pw");
  stage = at_open server_metadata (7 ∷ 200 ∷ []) (1 ∷ []) (available none);
}

abbrev after_lock : List Event
after_lock =
    answer 0 6000 vault_opened
    ∷ unlock []
    ∷ answer 0 6000 checkpoint_settled
    ∷ answer 0 6000 (metadata_read (ok server_metadata))
    ∷ []

run-close_vault_example :
    let t =
      run bound_primitives
        (codes "ann")
        (λ binary key. ok binary)
        after_lock
        (record { state = close_vault open_state; calls = pending ∷ [] }) in
    (t.state.vault ≡ none) × (t.state.vault_key ≡ none) × (t.state.save_queue ≡ none)
run-close_vault_example =
    run-close_vault bound_primitives (codes "ann") (λ binary key. ok binary)
      (record { state = open_state; calls = pending ∷ [] }) after_lock refl refl
