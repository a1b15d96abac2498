-- ===== src/Dialog/Attachments/Stale.antt =====
-- Attachments that frontend/src/components/EntryAttachments.tsx adds late, and the names that it saves files
-- under.
use kypassword_server.Base.{
  ℕ, ◌==◌, not, Text, true, false, some, [], ◌∷◌, ◌≡◌, ◌≢◌, refl, arith, All, map, ok, throw,
  Result, ◌>>=◌, codes,
}
use kypassword_server.Api.{Thrown}
use kypassword_server.Vault.{Kdbxweb}
use kypassword_server.Vault.Listing.{Library, Database}
use kypassword_server.Vault.Attachments.{
  add_attachment, check_file, throw_if_aborted, live_entry, attach_to,
}
use kypassword_server.Dialog.Attachments.{
  EntryAttachments, end_add, abort_of, download_name, is_forbidden, safe_char, add_ended,
}

aborted-same :
    (k : Kdbxweb) (lib : Library) (a : Thrown) (own : Database) (r q : Result Thrown (Unit {0}))
    (rest : Unit {0} → Result Thrown Database) (s : EntryAttachments)
    → add_ended k lib a true own (r >>= (λ _. q >>= (λ _. throw_if_aborted (some a) >>= rest))) s
      ≡ (own, s)
unfolding add_ended
aborted-same k lib a own (ok _) (ok _) rest s = refl
aborted-same k lib a own (ok _) (throw e) rest s = refl
aborted-same k lib a own (throw e) q rest s = refl

-- An attachment whose entry or vault was left before it was hashed changes nothing, whether it was left
-- before or after the file was read: neither the vault that it was for nor what the dialog shows now.
pub end_add-stale :
    (k : Kdbxweb) (lib : Library) (abort_error : Thrown) (started read_in : ℕ)
    (uuid name hash : Text) (size : ℕ) (own : Database) (s : EntryAttachments)
    → (started == s.generation) ≡ false
    → end_add k lib abort_error started read_in uuid name size hash own s ≡ (own, s)
unfolding end_add add_attachment
end_add-stale k lib abort_error started read_in uuid name hash size own s h = rw (h) (
    aborted-same k lib abort_error own (check_file name size)
      (throw_if_aborted (abort_of k lib abort_error (not (started == read_in))))
      (λ _. live_entry k lib uuid own >>= (λ e. attach_to k lib uuid name hash size own e)) s)

safe_char-allowed : (c : ℕ) → is_forbidden (safe_char c) ≡ false
safe_char-allowed c = ground arith

safe_chars-All : (t : Text) → All (λ c. is_forbidden c ≡ false) (map safe_char t)
safe_chars-All [] = tt
safe_chars-All (c ∷ t) = (safe_char-allowed c, safe_chars-All t)

-- Whatever an attachment is called, the name that its download is saved under is not empty and holds
-- neither a slash or a backslash nor a control character.
pub download_name-Allowed :
    (name : Text)
    → (download_name name ≢ []) × All (λ c. is_forbidden c ≡ false) (download_name name)
unfolding download_name
download_name-Allowed [] = ((λ h. absurd (ground (arith, h))), safe_chars-All (codes "attachment"))
download_name-Allowed (c ∷ t) = ((λ h. absurd (ground (arith, h))), safe_chars-All (c ∷ t))
