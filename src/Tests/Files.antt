-- ===== src/Tests/Files.antt =====
-- Attachments at concrete inputs.
use kypassword_server.Base.{
  ℕ, ◌≤◌, Text, codes, equal, All, none, [], ◌∷◌, ◌≡◌, refl, if◌then◌else◌, ok, throw, trim,
  is_space, Result,
}
use kypassword_server.Api.{Thrown}
use kypassword_server.Vault.{hashed, inline, find_entry}
use kypassword_server.Vault.Listing.{Database, recycled_group_ids}
use kypassword_server.Vault.Attachments.{
  live_of, check_file, attach, add_attachment, attachment_bytes, entry_binaries,
  max_vault_attachment_bytes, put_entry,
}
use kypassword_server.Vault.Attachments.Counting.{IsSized}
use kypassword_server.Vault.Attachments.Budget.{add_attachment-within_budget}
use kypassword_server.Tests.Vaults.{web, web-IsSound, mail}
use kypassword_server.Tests.Folders.{library, database}

-- The hash `aa` is of a file of 300 bytes, any other of one of 40.
abbrev size_of : Text → ℕ
size_of h = if equal h (codes "aa") then 300 else 40

abbrev with_files : Database
with_files = record database {
  entries =
      record mail {
        current = record mail.current {
          binaries = (codes "a.txt", hashed (codes "aa") 300) ∷ (codes "b.txt", inline 7) ∷ [];
        };
      }
      ∷ [];
}

with_files-IsSized : All (IsSized size_of) (entry_binaries with_files.entries)
unfolding equal
with_files-IsSized = (refl, (tt, tt))

unfoldable answer : Result Thrown Database
unfolding add_attachment
answer =
    add_attachment web library (codes "e1") (codes "c.txt") 40 (codes "cc") none none with_files

abbrev result_or : {E : Type 0} → Database → Result E Database → Database
result_or db (ok d) = d
result_or db (throw _) = db

-- 300 bytes of one file, 12 for each of the two copies of the inline one, and the new 40.
answer-bytes : attachment_bytes (result_or database answer) ≡ 364
unfolding answer add_attachment attachment_bytes put_entry attach check_file live_of equal trim
    is_space recycled_group_ids find_entry
answer-bytes = refl

add_attachment-within_budget_example :
    attachment_bytes (result_or database answer) ≤ max_vault_attachment_bytes
unfolding answer add_attachment put_entry attach check_file live_of equal trim is_space
    recycled_group_ids find_entry
add_attachment-within_budget_example =
    add_attachment-within_budget web library web-IsSound size_of (codes "e1") (codes "c.txt")
      (codes "cc") none none with_files (result_or database answer) with_files-IsSized refl
