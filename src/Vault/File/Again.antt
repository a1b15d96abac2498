-- ===== src/Vault/File/Again.antt =====
-- A vault that frontend/src/lib/kdbx.ts opened or made opens again once it is exported.
use kypassword_server.Base.{Text, Result, ok, throw, ◌≡◌, refl, sym, ap}
use kypassword_server.Crypto.{Bytes}
use kypassword_server.Vault.Listing.{Database}
use kypassword_server.Vault.File.{
  Files, KeePassVault, Credentials, of_binary, LoadError, invalid_key, load_error, credential_for,
  create_new, open_vault, open_loaded, open_legacy, export_binary,
}

-- What the client relies on of kdbxweb: a saved file loads with its credentials.
pub record IsSound {B : Type 0} (f : Files B) : Type 0 where
  pub load-save : (db : Database) (c : Credentials) → f.load (f.save db c) c ≡ ok db

-- Both credentials are the key in hexadecimal digits.
record HasKey (key : Bytes) (v : KeePassVault) : Type 0 where
  db_credentials : v.db_credentials ≡ credential_for key
  credentials : v.credentials ≡ credential_for key

has_key : (key : Bytes) (db : Database) → KeePassVault
has_key key db = record {
  db = db;
  db_credentials = credential_for key;
  credentials = credential_for key;
}

has_key-HasKey :
    (key : Bytes) (db : Database) (v : KeePassVault) → has_key key db ≡ v → HasKey key v
unfolding has_key
has_key-HasKey key db v same = record {
  db_credentials = ap (λ w. w.db_credentials) (sym same);
  credentials = ap (λ w. w.credentials) (sym same);
}

module _ {B : Type 0} (f : Files B) (sound : IsSound f) where
  open_legacy-credentials :
      (key : Bytes) (r : Result LoadError Database) (v : KeePassVault)
      → open_legacy f key (credential_for key) r ≡ ok v
      → HasKey key v
  unfolding open_legacy
  open_legacy-credentials key (ok db) v h = has_key-HasKey key db v (unfold has_key in cc)
  open_legacy-credentials key (throw e) v h = cc

  open_loaded-credentials :
      (buffer : B) (key : Bytes) (r : Result LoadError Database) (v : KeePassVault)
      → open_loaded f buffer key r ≡ ok v
      → HasKey key v
  unfolding open_loaded
  open_loaded-credentials buffer key (ok db) v h = has_key-HasKey key db v (unfold has_key in cc)
  open_loaded-credentials buffer key (throw invalid_key) v h =
      open_legacy-credentials key (f.load buffer (of_binary key)) v h
  open_loaded-credentials buffer key (throw (load_error e)) v h = cc

  exported-Opens :
      (key : Bytes) (v : KeePassVault)
      → HasKey key v
      → open_vault f (export_binary f v).1 key ≡ ok (export_binary f v).0
  unfolding open_vault open_loaded export_binary
  exported-Opens key v h =
      rw (h.db_credentials, h.credentials)
        (rw (sound.load-save (f.cleanup v.db) (credential_for key)) refl)

  -- Where a saved file loads with its credentials (`IsSound`): a vault that was opened with a key, be it with
  -- the digits of the key or with its bytes as older files want it, and a vault that was made for a key, open
  -- with that key once they are exported, and are then what the export left of them.
  pub export_binary-Opens :
      (buffer : B) (key : Bytes) (name : Text) (v : KeePassVault)
      → open_vault f buffer key ≡ ok v
      → (open_vault f (export_binary f v).1 key ≡ ok (export_binary f v).0)
        × (open_vault f (export_binary f (create_new f key name)).1 key
            ≡ ok (export_binary f (create_new f key name)).0)
  unfolding create_new open_vault
  export_binary-Opens buffer key name v h = (
    exported-Opens key v
        (open_loaded-credentials buffer key (f.load buffer (credential_for key)) v h),
    exported-Opens key (create_new f key name)
        (record { db_credentials = refl; credentials = refl }),
  )
