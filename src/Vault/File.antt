-- ===== src/Vault/File.antt =====
-- How frontend/src/lib/kdbx.ts makes and opens a KDBX file, and how it copies an entry of another vault
-- into the open one.
pub mod Again
use kypassword_server.Base.{ℕ, ◌*◌, ◌==◌, Text, codes, if◌then◌else◌, Result, ok, throw}
use kypassword_server.Api.{Thrown}
use kypassword_server.Crypto.{Bytes, bytes_to_hex}
use kypassword_server.Vault.Listing.{Database}

-- The parameters of a call of hash-wasm.
pub record Argon2Options : Type 0 where
  pub password : Bytes
  pub salt : Bytes
  pub parallelism : ℕ
  pub iterations : ℕ
  pub memory_size : ℕ
  pub hash_length : ℕ

pub record HashWasm : Type 0 where
  pub argon2d : Argon2Options → Bytes
  pub argon2i : Argon2Options → Bytes
  pub argon2id : Argon2Options → Bytes

-- Memory is in KiB on both sides; 0 is Argon2d, 2 is Argon2id and any other type Argon2i.
unfoldable pub derive_argon2_key : HashWasm → Bytes → Bytes → ℕ → ℕ → ℕ → ℕ → ℕ → Bytes
derive_argon2_key w password salt memory iterations length parallelism type =
    let options : Argon2Options = record {
      password = password;
      salt = salt;
      parallelism = parallelism;
      iterations = iterations;
      memory_size = memory;
      hash_length = length;
    } in
    if type == 0
    then w.argon2d options
    else if type == 2
    then w.argon2id options
    else w.argon2i options

-- What a vault is protected by: a protected text, or bytes.
pub data Credentials : Type 0 where
  of_text : Text → Credentials
  of_binary : Bytes → Credentials

abbrev pub credential_for : Bytes → Credentials
unfolding bytes_to_hex
credential_for vault_key = of_text (bytes_to_hex vault_key)

-- What `Kdbx.load` throws: the error of a wrong key, or another one.
pub data LoadError : Type 0 where
  invalid_key : LoadError
  load_error : Thrown → LoadError

-- `db_credentials` are `db.credentials`, with which kdbxweb saves; `credentials` is the field of the class.
pub record KeePassVault : Type 0 where
  pub db : Database
  pub db_credentials : Credentials
  pub credentials : Credentials

pub record KdfParameters : Type 0 where
  pub memory_bytes : ℕ
  pub iterations : ℕ
  pub parallelism : ℕ

abbrev pub kotpass_argon2 : KdfParameters
kotpass_argon2 = record { memory_bytes = 32 * 1024 * 1024; iterations = 8; parallelism = 2 }

-- `Kdbx.create` under a name, `Kdbx.load`, `createGroup` in the default group, `cleanup` of the binaries, and
-- `save`; a new file has the KDF parameters that it is given, for Argon2d. `B` is the type of the buffers.
pub record Files (B : Type 0) : Type 0 where
  pub create : Credentials → Text → KdfParameters → Database
  pub load : B → Credentials → Result LoadError Database
  pub create_group : Text → Database → Database
  pub cleanup : Database → Database
  pub save : Database → Credentials → B

module _ {B : Type 0} (f : Files B) where
  unfoldable pub create_new : Bytes → Text → KeePassVault
  unfolding credential_for
  create_new vault_key vault_name =
      let cred = credential_for vault_key in
      let db = f.create cred vault_name kotpass_argon2 in
      record {
        db = f.create_group (codes "Finance") (
            f.create_group (codes "Work")
              (f.create_group (codes "Personal") (f.create_group (codes "General") db)));
        db_credentials = cred;
        credentials = cred;
      }

  -- The second attempt, with the key as bytes: the database that it loads gets the other credential.
  unfoldable pub open_legacy :
      Bytes → Credentials → Result LoadError Database → Result LoadError KeePassVault
  open_legacy vault_key cred (throw e) = throw e
  open_legacy vault_key cred (ok db) =
      ok (record { db = db; db_credentials = cred; credentials = cred })

  unfoldable pub open_loaded : B → Bytes → Result LoadError Database → Result LoadError KeePassVault
  unfolding open_legacy credential_for
  open_loaded buffer vault_key (ok db) = ok (record {
    db = db;
    db_credentials = credential_for vault_key;
    credentials = credential_for vault_key;
  })
  open_loaded buffer vault_key (throw invalid_key) =
      open_legacy vault_key (credential_for vault_key) (f.load buffer (of_binary vault_key))
  open_loaded buffer vault_key (throw (load_error e)) = throw (load_error e)

  unfoldable pub open_vault : B → Bytes → Result LoadError KeePassVault
  unfolding open_loaded credential_for
  open_vault buffer vault_key =
      open_loaded buffer vault_key (f.load buffer (credential_for vault_key))

  -- `exportBinary`: the vault after it, and its bytes.
  unfoldable pub export_binary : KeePassVault → KeePassVault × B
  export_binary v = let db = f.cleanup v.db in (record v { db = db }, f.save db v.db_credentials)
