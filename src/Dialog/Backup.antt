-- ===== src/Dialog/Backup.antt =====
-- frontend/src/components/AdminBackup.tsx: the status of the sealed backups and the operations on them. An
-- operation awaits its request and then the status; both answers are arguments.
pub mod Deposit
use kypassword_server.Base.{
  ℕ, zero, suc, ◌+◌, ◌*◌, ◌==◌, ltb, Text, codes, is_empty, or_else, select, Bool, true, false, not,
  ◌&&◌, ◌||◌, Option, none, some, List, [], ◌∷◌, ◌++◌, if◌then◌else◌, Result, ok, throw,
}
use kypassword_server.Api.{Thrown, to_error_message}

pub record Receipt : Type 0 where
  pub capsule_id : Text
  pub digest : Text
  pub size_bytes : ℕ
  pub deposited_at : Text

pub record LastRun : Type 0 where
  pub at_time : Text
  pub capsule_id : Option Text
  pub local_path : Option Text
  pub local_error : Option Text
  pub deposited : Bool
  pub error : Option Text

pub record BackupStatus : Type 0 where
  pub paired : Bool
  pub recovery_url : Option Text
  pub recovery_key_id : Option Text
  pub threshold : Option ℕ
  pub total_shares : Option ℕ
  pub key_healthy : Bool
  pub last_deposit : Option Receipt
  pub error : Option Text
  pub backup_dir : Text
  pub allow_private : Bool
  pub interval_sec : ℕ
  pub next_attempt : Option Text
  pub last_attempt : Option Text
  -- the names of `localCopies`
  pub local_copies : List Text
  pub last_run : Option LastRun

pub record DrillCheck : Type 0 where
  pub name : Text
  pub passed : Bool
  pub message : Text

pub record DrillResult : Type 0 where
  pub passed : Bool
  pub duration_ms : ℕ
  pub checks : List DrillCheck

-- An absent text and an empty one are treated alike.
pub record DepositReply : Type 0 where
  pub local_path : Text
  pub local_error : Text
  pub receipt : Option Receipt
  pub warning : Text

-- `Boolean(reply.warning || reply.result.local_error)`.
unfoldable pub deposit_failed : DepositReply → Bool
deposit_failed reply = not (is_empty (or_else reply.warning reply.local_error))

-- `parts.filter(Boolean).join(" ")`.
unfoldable pub join_parts : List Text → Text
join_parts [] = []
join_parts (p ∷ parts) =
    let rest = join_parts parts in
    if is_empty p then rest else if is_empty rest then p else p ++ (codes " " ++ rest)

abbrev pub path_part : Text → Text
path_part path = if is_empty path then [] else codes "Local copy: " ++ (path ++ codes ".")

abbrev pub receipt_part : Option Receipt → Text
receipt_part none = []
receipt_part (some r) = codes "Deposited " ++ (r.capsule_id ++ codes ".")

-- The text and the role of `BackupDepositResult`.
unfoldable pub deposit_details : DepositReply → Text
unfolding join_parts
deposit_details reply = join_parts (
    path_part reply.local_path
    ∷ receipt_part reply.receipt
    ∷ reply.local_error
    ∷ reply.warning
    ∷ [])

pub record Backup : Type 0 where
  pub status : Option BackupStatus
  pub url : Text
  pub code : Text
  pub public_key : Text
  pub threshold : ℕ
  pub total_shares : ℕ
  -- 60 times `intervalMinutes`
  pub interval_seconds : ℕ
  pub drill : Option DrillResult
  pub busy : Bool
  pub deposit_reply : Option DepositReply
  pub message : Text
  pub error : Text

abbrev pub open_backup : Backup
open_backup = record {
  status = none;
  url = [];
  code = [];
  public_key = [];
  threshold = 2;
  total_shares = 3;
  interval_seconds = 1440 * 60;
  drill = none;
  busy = false;
  deposit_reply = none;
  message = [];
  error = [];
}

abbrev or_empty : Option Text → Text
or_empty none = []
or_empty (some t) = t

unfoldable pub refresh : Result Thrown BackupStatus → Backup → Backup
unfolding to_error_message
refresh (ok next) s = record s {
  status = some next;
  url = or_empty next.recovery_url;
  interval_seconds = next.interval_sec;
}
refresh (throw e) s = record s { error = to_error_message e (codes "Failed to load backup status") }

-- `act` up to its operation.
unfoldable pub begin_act : Backup → Backup
begin_act s = record s { busy = true; error = []; message = []; deposit_reply = none }

-- `act` from the answer to its operation on; `next` is the answer of `refresh`.
unfoldable pub end_act :
    {A : Type 0}
    → (A → Backup → Backup)
    → Result Thrown A
    → Result Thrown BackupStatus
    → Backup
    → Backup
unfolding refresh to_error_message
end_act action (ok a) next s = record (refresh next (action a s)) { busy = false }
end_act action (throw e) next s = record s {
  error = to_error_message e (codes "Backup operation failed");
  busy = false;
}

-- What the operations do with an answer.
unfoldable pub paired : Unit {0} → Backup → Backup
paired _ s = record s { code = []; message = codes "KyRecovery pairing pinned successfully." }

unfoldable pub deposited : DepositReply → Backup → Backup
deposited reply s = record s { deposit_reply = some reply }

unfoldable pub drilled : DrillResult → Backup → Backup
drilled r s = record s {
  drill = some r;
  message =
      if r.passed then codes "Restore drill passed." else codes "Restore drill found a problem.";
}

unfoldable pub downloaded : Unit {0} → Backup → Backup
downloaded _ s = record s { message = codes "Downloaded sealed capsule." }

unfoldable pub schedule_saved : Unit {0} → Backup → Backup
schedule_saved _ s = record s { message = codes "Backup schedule saved." }

unfoldable pub key_pinned : Unit {0} → Backup → Backup
key_pinned _ s = record s {
  public_key = [];
  message = codes "Recovery public key pinned. Compare its fingerprint with the ceremony page.";
}

unfoldable pub unpaired : Unit {0} → Backup → Backup
unpaired _ s = record s {
  message = codes "Remote pairing removed. Local backups remain available.";
}

-- What the forms send.
unfoldable pub pair_request : Backup → Text × Text
pair_request s = (s.url, s.code)

unfoldable pub schedule_request : Backup → ℕ
schedule_request s = s.interval_seconds

unfoldable pub pin_request : Backup → Text × ℕ × ℕ
pin_request s = (s.public_key, s.threshold, s.total_shares)

-- The buttons that can be pressed.
unfoldable pub can_save_schedule : Backup → Bool
can_save_schedule s = not (s.busy || (ltb 0 s.interval_seconds && ltb s.interval_seconds (15 * 60)))

abbrev is_key_healthy : Option BackupStatus → Bool
is_key_healthy none = false
is_key_healthy (some status) = status.key_healthy

unfoldable pub can_deposit : Backup → Bool
can_deposit s = not (s.busy || not (is_key_healthy s.status))

abbrev recovery_url_of : Option BackupStatus → Text
recovery_url_of none = []
recovery_url_of (some status) = or_empty status.recovery_url

unfoldable pub can_unpair : Bool → Backup → Bool
can_unpair confirmed s = not (is_empty (recovery_url_of s.status)) && (not s.busy && confirmed)

abbrev status_text_of : BackupStatus → Text
status_text_of status =
    if not (is_empty (or_empty status.error))
    then codes "Recovery configuration needs attention"
    else if status.paired
    then codes "Paired and healthy"
    else if status.key_healthy
    then codes "Key pinned; remote not paired"
    else codes "No recovery key"

unfoldable pub status_text : Option BackupStatus → Text
status_text none = codes "No recovery key"
status_text (some status) = status_text_of status
