-- ===== src/Csv/Import/Names.antt =====
-- The names that an import (frontend/src/lib/csvImport.ts) accepts before it changes anything.
use kypassword_server.Base.{
  ap, ◌∙◌, Text, is_empty, trim, Bool, true, false, List, [], ◌∷◌, All, length, if◌then◌else◌,
  Result, ok, throw, ◌>>=◌, ltb, ◌≡◌, sym, >>=-eq-ok, ◌∙◌,
}
use kypassword_server.Api.{Thrown}
use kypassword_server.Csv.Rows.{ImportedEntryPreview}
use kypassword_server.Csv.Import.{
  Options, check_segments, check_path, check_paths, check_new_folder, folder_of, too_deep,
  split_folder_path,
}
use kypassword_server.Vault.FolderName.{folder_name, folder_name-ok}

-- `folderName` accepts the name.
unfoldable pub IsValid : Text → Type 0
IsValid name = (valid : Text) × (folder_name name ≡ ok valid)

else-ok :
    (b : Bool) (e : Thrown) (r : Result Thrown (Unit {0}))
    → (if b then throw e else r) ≡ ok tt
    → r ≡ ok tt
else-ok true e r h = cc
else-ok false e r h = h

else-of-false :
    (b : Bool) (r s : Result Thrown (Unit {0}))
    → (if b then r else s) ≡ ok tt
    → b ≡ false
    → s ≡ ok tt
else-of-false true r s h n = cc
else-of-false false r s h n = h

pub check_segments-All :
    (segments : List Text) → check_segments segments ≡ ok tt → All IsValid segments
unfolding check_segments IsValid
check_segments-All [] h = tt
check_segments-All (s ∷ ss) h =
    let first = >>=-eq-ok (folder_name s) (λ _. check_segments ss) h in
    ((first.0, first.1), check_segments-All ss first.2)

pub check_path-All : (segments : List Text) → check_path segments ≡ ok tt → All IsValid segments
unfolding check_path
check_path-All segments h =
    check_segments-All segments
      (else-ok (ltb 16 (length segments)) too_deep (check_segments segments) h)

pub check_paths-All :
    (o : Options) (es : List ImportedEntryPreview)
    → check_paths o es ≡ ok tt
    → All (λ e. All IsValid (split_folder_path (folder_of o e))) es
unfolding check_paths
check_paths-All o [] h = tt
check_paths-All o (e ∷ es) h =
    let first =
      >>=-eq-ok (check_path (split_folder_path (folder_of o e))) (λ _. check_paths o es) h in
    (check_path-All (split_folder_path (folder_of o e)) first.1, check_paths-All o es first.2)

-- The new folder's name is accepted once it is trimmed, too.
pub check_new_folder-IsValid :
    (name : Text)
    → check_new_folder name ≡ ok tt
    → is_empty (trim name) ≡ false
    → IsValid (trim name)
unfolding check_new_folder IsValid
check_new_folder-IsValid name h n =
    let accepted =
      else-of-false (is_empty (trim name)) (ok tt) (folder_name name >>= (λ _. ok tt)) h n in
    let first = >>=-eq-ok (folder_name name) (λ _. ok tt) accepted in
    let trimmed = folder_name-ok name first.0 first.1 in
    (first.0, ap folder_name (sym trimmed.0) ∙ trimmed.3)
