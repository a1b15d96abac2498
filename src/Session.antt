-- ===== src/Session.antt =====
-- frontend/src/App.tsx: the state of the signed-in session, the browser storage it uses, and
-- `closeVault`. The storage keys are those of the one account that is signed in.
pub mod Unlock
pub mod Resume
pub mod Lock
pub mod World
pub mod Auth
pub mod Locked
pub mod Recovery
use kypassword_server.Base.{
  ℕ, ◌+◌, ◌*◌, Text, codes, Bool, true, false, not, ◌&&◌, ◌||◌, Option, none, some, List, [], ◌∷◌,
  ◌++◌, if◌then◌else◌,
}
use kypassword_server.AutoLock.{LastActivity, not_positive, cached_key_expired}
use kypassword_server.Crypto.{Bytes}
use kypassword_server.Draft.{EntryDraft, LockedDraft, DraftMetadata}
use kypassword_server.Save.{Queue, discard}

-- `sessionStorage` or `localStorage`, as far as it is used; each access throws where it does not work.
-- One flag stands for reading and writing: a storage that is full, and can still be read, is left out.
pub record WebStorage : Type 0 where
  pub works : Bool
  pub locked : Bool
  pub activity : Option LastActivity
  pub draft : Option Text

-- The stages of the recovery copy that `autoLock` makes, and what they await.
pub data Checkpoint : Type 0 where
  settled : Checkpoint
  exporting_copy : Bytes → DraftMetadata → Bool → Checkpoint
  storing_copy : Bool → Checkpoint
  removing_key : Checkpoint

pub record State : Type 0 where
  -- the content of the open vault
  pub vault : Option Bytes
  pub vault_key : Option Bytes
  pub save_queue : Option Queue
  -- the queues that were replaced, as they were left
  pub retired : List Queue
  pub has_draft : Bool
  pub draft : Option EntryDraft
  pub initial_draft : Option EntryDraft
  pub auto_lock_minutes : ℕ
  pub unlock_generation : ℕ
  pub checkpoint : Checkpoint
  pub memory_draft : Option LockedDraft
  pub lock_notice : Text
  pub recovery_pending : Bool
  pub show_unlock_modal : Bool
  pub show_history_modal : Bool
  pub unlock_password : Text
  pub unlock_error : Text
  pub session : WebStorage
  pub local : WebStorage
  -- the key in the device database, in hexadecimal digits
  pub device_key : Option Text

-- `setSaveQueue`, with the effect that discards the queue before.
abbrev retire : Option Queue → List Queue → List Queue
retire none qs = qs
retire (some q) qs = discard q ∷ qs

unfoldable pub set_save_queue : Option Queue → State → State
unfolding discard
set_save_queue q s = record s { save_queue = q; retired = retire s.save_queue s.retired }

-- `setItem` and `removeItem` of the lock flag, each in a `try`.
abbrev pub set_locked : WebStorage → WebStorage
set_locked w = if w.works then record w { locked = true } else w

-- Both are removed in one `try`, the session's first.
abbrev pub remove_locked : State → State
remove_locked s =
    if s.session.works
    then record s {
      session = record s.session { locked = false };
      local = if s.local.works then record s.local { locked = false } else s.local;
    }
    else s

unfoldable pub close_vault : State → State
unfolding set_save_queue
close_vault s = record (set_save_queue none s) {
  unlock_generation = s.unlock_generation + 1;
  session = set_locked s.session;
  local = set_locked s.local;
  draft = none;
  initial_draft = none;
  has_draft = false;
  vault = none;
  vault_key = none;
  unlock_password = [];
  show_unlock_modal = false;
  show_history_modal = false;
}

-- What the check of the trusted device's deadline says; `unreadable` where the storage throws.
pub data Trust : Type 0 where
  unreadable expired_or_locked trusted : Trust

-- The tests of the lock flags and of the age of the activity; the second look at them leaves the
-- session's flag out.
trust_of : Bool → State → ℕ → LastActivity → Trust
unfolding cached_key_expired
trust_of session_locked s now last =
    if session_locked
    then expired_or_locked
    else if not s.local.works
    then unreadable
    else if s.local.locked || cached_key_expired last (s.auto_lock_minutes * 60000) now
    then expired_or_locked
    else trusted

-- `sessionStorage.getItem(…) ?? localStorage.getItem(…)`, and then the tests.
trust_at : Bool → State → ℕ → Option LastActivity → Trust
unfolding trust_of
trust_at session_locked s now (some last) = trust_of session_locked s now last
trust_at session_locked s now none =
    if s.local.works
    then trust_of session_locked s now (elim s.local.activity [ none ↦ not_positive | some a ↦ a ])
    else unreadable

unfoldable pub trust : Bool → State → ℕ → Trust
unfolding trust_at
trust with_session s now =
    if s.session.works
    then trust_at (with_session && s.session.locked) s now s.session.activity
    else unreadable
