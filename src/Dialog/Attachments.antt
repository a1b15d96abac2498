-- ===== src/Dialog/Attachments.antt =====
-- frontend/src/components/EntryAttachments.tsx: the files of the entry that is shown. `generation` counts
-- the runs of the effect that replaces the `AbortController`, so a call of `add` is aborted once the number
-- is another one than at its start.
pub mod Stale
use kypassword_server.Base.{
  ℕ, suc, ◌+◌, ◌==◌, ltb, within, Text, codes, is_empty, or_else, map, any, Bool, true, false, not,
  ◌&&◌, ◌||◌, Option, none, some, List, [], ◌∷◌, ◌++◌, if◌then◌else◌, Result, ok, throw,
}
use kypassword_server.Api.{Thrown, http_error, other_error, no_error, http_message}
use kypassword_server.Vault.{Kdbxweb, Binary}
use kypassword_server.Vault.Listing.{Database, Library}
use kypassword_server.Vault.Attachments.{
  max_attachment_bytes, add_attachment, remove_attachment, clear_attachment_history, get_attachment,
}

pub record EntryAttachments : Type 0 where
  pub vault : Database
  pub generation : ℕ
  pub busy : Bool
  pub error : Text
  pub remove_from_history : Bool
  -- the number of calls of `onChanged`
  pub changes : ℕ

-- `error instanceof Error ? error.message : fallback`.
abbrev message_or : Thrown → Text → Text
message_or (http_error status m) fallback = http_message status m
message_or (other_error m) fallback = m
message_or no_error fallback = fallback

-- The effect, when the vault, the entry or `readOnly` is another one.
unfoldable pub context_changed : EntryAttachments → EntryAttachments
context_changed s = record s { generation = suc s.generation; busy = false; error = [] }

-- `add` up to the reading of the file, with whether it goes on.
unfoldable pub begin_add : Bool → ℕ → EntryAttachments → EntryAttachments × Bool
begin_add read_only size s =
    if s.busy || read_only
    then (s, false)
    else if ltb max_attachment_bytes size
    then (record s { error = codes "Attachments must be 10 MiB or smaller." }, false)
    else (record s { error = []; busy = true }, true)

-- A character of `/[\\/\u0000-\u001f\u007f]/`.
abbrev pub is_forbidden : ℕ → Bool
is_forbidden c = c == 92 || c == 47 || within 0 31 c || c == 127

abbrev pub safe_char : ℕ → ℕ
safe_char c = if is_forbidden c then 95 else c

unfoldable pub download_name : Text → Text
download_name name = or_else (map safe_char name) (codes "attachment")

-- `download`: what is saved under which name.
unfoldable pub download : Text → Text → EntryAttachments → EntryAttachments × Option (Text × Binary)
unfolding get_attachment download_name
download entry_uuid name s = elim (get_attachment entry_uuid name s.vault) [
  | ok b ↦ (s, some (download_name name, b))
  | throw e ↦
      (record s { error = message_or e (codes "Unable to download this attachment.") }, none)
]

abbrev changed_if : Bool → EntryAttachments → EntryAttachments
changed_if did s = if did then record s { changes = s.changes + 1 } else s

module _ (k : Kdbxweb) (lib : Library) (abort_error : Thrown) where
  abbrev pub abort_of : Bool → Option Thrown
  abort_of aborted = if aborted then some abort_error else none

  -- The end of `add` with the vault `own`, on which it was called. It is the one that is shown unless
  -- the call was aborted.
  unfoldable pub add_ended :
      Bool → Database → Result Thrown Database → EntryAttachments → Database × EntryAttachments
  add_ended aborted own (ok db) s =
      if aborted
      then (db, record s { changes = s.changes + 1 })
      else (db, record s { vault = db; changes = s.changes + 1; busy = false })
  add_ended aborted own (throw e) s = if aborted then (own, s) else (
    own,
    record s { error = message_or e (codes "Unable to add this attachment."); busy = false },
  )

  -- `add` of a call that began in the generation `started` on the vault `own`, from the reading of the
  -- file, in the generation `read_in`, to the end of the hashing, in that of the state: the signal is
  -- tested at both, and either may have aborted it.
  unfoldable pub end_add :
      ℕ → ℕ → Text → Text → ℕ → Text → Database → EntryAttachments → Database × EntryAttachments
  unfolding add_ended add_attachment
  end_add started read_in entry_uuid name size hash own s =
      let at_read = abort_of (not (started == read_in)) in
      let aborted = not (started == s.generation) in
      add_ended aborted own
        (add_attachment k lib entry_uuid name size hash at_read (abort_of aborted) own) s

  unfoldable pub remove : Bool → Bool → Text → Text → EntryAttachments → EntryAttachments
  unfolding remove_attachment
  remove read_only confirmed entry_uuid name s =
      if read_only || s.busy || not confirmed
      then s
      else elim (remove_attachment k lib entry_uuid name s.remove_from_history s.vault) [
        | ok r ↦ changed_if r.1 (record s { vault = r.0; error = [] })
        | throw e ↦ record s { error = message_or e (codes "Unable to remove this attachment.") }
      ]

  unfoldable pub clear_history : Bool → Bool → Text → EntryAttachments → EntryAttachments
  unfolding clear_attachment_history
  clear_history read_only confirmed entry_uuid s =
      if read_only || s.busy || not confirmed
      then s
      else elim (clear_attachment_history k lib entry_uuid s.vault) [
        | ok r ↦ changed_if r.1 (record s { vault = r.0; error = [] })
        | throw e ↦ record s { error = message_or e (codes "Unable to clear attachment history.") }
      ]
