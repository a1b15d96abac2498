-- ===== src/Tests/Opening.antt =====
-- Files at concrete inputs: a buffer is a database with the credentials that it was saved with.
use kypassword_server.Base.{
  codes, equal, equal_refl, [], ◌∷◌, ◌≡◌, if◌then◌else◌, Result, ok, throw, refl,
}
use kypassword_server.Crypto.{Bytes}
use kypassword_server.Vault.Listing.{Database}
use kypassword_server.Vault.File.{
  Files, KeePassVault, Credentials, of_text, of_binary, LoadError, invalid_key, credential_for,
  create_new, open_vault, export_binary, open_loaded, open_legacy,
}
use kypassword_server.Vault.File.Again.{IsSound, export_binary-Opens}
use kypassword_server.Tests.Folders.{database}

abbrev load_with : Database × Credentials → Credentials → Result LoadError Database
load_with (db, of_text a) (of_text b) = if equal a b then ok db else throw invalid_key
load_with (db, of_binary a) (of_binary b) = if equal a b then ok db else throw invalid_key
load_with (db, of_text a) (of_binary b) = throw invalid_key
load_with (db, of_binary a) (of_text b) = throw invalid_key

abbrev files : Files (Database × Credentials)
files = record {
  create = λ c name kdf. database;
  load = load_with;
  create_group = λ name db. db;
  cleanup = λ db. db;
  save = λ db c. (db, c);
}

load_with-save : (db : Database) (c : Credentials) → load_with (db, c) c ≡ ok db
load_with-save db (of_text a) = rw (equal_refl a)
load_with-save db (of_binary a) = rw (equal_refl a)

files-IsSound : IsSound files
files-IsSound = record { load-save = load_with-save }

abbrev key : Bytes
key = 7 ∷ 200 ∷ []

-- A file of an older client.
abbrev legacy_file : Database × Credentials
legacy_file = (database, of_binary key)

abbrev opened : KeePassVault
opened = record {
  db = database;
  db_credentials = credential_for key;
  credentials = credential_for key;
}

legacy_file-opens : open_vault files legacy_file key ≡ ok opened
unfolding open_vault open_loaded open_legacy equal
legacy_file-opens = refl

export_binary-Opens_example :
    (open_vault files (export_binary files opened).1 key ≡ ok (export_binary files opened).0)
    × (open_vault files (export_binary files (create_new files key (codes "Vault"))).1 key
        ≡ ok (export_binary files (create_new files key (codes "Vault"))).0)
export_binary-Opens_example =
    export_binary-Opens files files-IsSound legacy_file key (codes "Vault") opened legacy_file-opens
