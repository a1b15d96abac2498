-- ===== src/Tests/Codecs.antt =====
-- Concrete primitives for the theorems' hypotheses: ciphers that hide nothing, and texts that carry
-- their parts behind their lengths.
use kypassword_server.Base.{
  ℕ, zero, suc, Text, equal, equal_refl, length, take, drop, take-length-append, drop-length-append,
  Bool, true, false, Option, none, some, [], ◌∷◌, ◌++◌, if◌then◌else◌, ◌≡◌, refl, Result, ok, throw,
  codes,
}
use kypassword_server.Crypto.{Bytes, IsByte, Kdf, argon2id, legacy, Argon2idParams, Envelope}
use kypassword_server.Crypto
use kypassword_server.Draft
use kypassword_server.Draft.{EntryDraft, DraftMetadata, metadata_json}
use kypassword_server.Json.{Json}
use kypassword_server.Api.{Thrown, other_error}

-- A text behind its length, in front of what follows.
abbrev put : Text → Text → Text
put t rest = length t ∷ (t ++ rest)

-- The text at the front, handed on with what follows it.
abbrev get {ℓ} : {A : Type ℓ} → Text → A → (Text → Text → A) → A
get [] default next = default
get (n ∷ s) default next = next (take n s) (drop n s)

get-put {ℓ} :
    {A : Type ℓ} (t rest : Text) (default : A) (next : Text → Text → A)
    → get (put t rest) default next ≡ next t rest
get-put t rest default next = rw (take-length-append, drop-length-append)

abbrev put_kdf : Kdf → Text → Text
put_kdf (argon2id p) rest = 0 ∷ p.memory_kib ∷ p.iterations ∷ p.parallelism ∷ rest
put_kdf (legacy none) rest = 1 ∷ 0 ∷ 0 ∷ 0 ∷ rest
put_kdf (legacy (some n)) rest = 2 ∷ n ∷ 0 ∷ 0 ∷ rest

abbrev get_kdf : ℕ → ℕ → ℕ → ℕ → Kdf
get_kdf zero a b c = argon2id (record { memory_kib = a; iterations = b; parallelism = c })
get_kdf (suc zero) a b c = legacy none
get_kdf (suc (suc k)) a b c = legacy (some a)

abbrev put_envelope : Envelope → Text
put_envelope e = put_kdf e.kdf (put e.salt (put e.iv e.ciphertext))

abbrev get_envelope : Text → Option Envelope
get_envelope (k ∷ a ∷ b ∷ c ∷ s) = get s none (λ salt s1.
    get s1 none
      (λ iv s2. some (record { kdf = get_kdf k a b c; salt = salt; iv = iv; ciphertext = s2 })))
get_envelope _ = none

get_put_envelope : (e : Envelope) → get_envelope (put_envelope e) ≡ some e
get_put_envelope e = by_kdf e.kdf e.salt e.iv e.ciphertext
  where
    by_kdf :
        (k : Kdf) (salt iv c : Text)
        → get_envelope (put_kdf k (put salt (put iv c)))
          ≡ some (record { kdf = k; salt = salt; iv = iv; ciphertext = c })
    by_kdf (argon2id p) salt iv c =
        rw (take-length-append, drop-length-append, take-length-append, drop-length-append)
    by_kdf (legacy none) salt iv c =
        rw (take-length-append, drop-length-append, take-length-append, drop-length-append)
    by_kdf (legacy (some n)) salt iv c =
        rw (take-length-append, drop-length-append, take-length-append, drop-length-append)

abbrev rejected : Thrown
rejected = other_error (codes "Operation failed")

abbrev or_throw {ℓ} : {A : Type ℓ} → Option A → Result Thrown A
or_throw none = throw rejected
or_throw (some a) = ok a

abbrev pub plain_primitives : Crypto.Primitives
plain_primitives = record {
  derive_argon2id = λ secret salt p. secret;
  derive_pbkdf2 = λ secret salt n. secret;
  encrypt = λ k iv m. m;
  decrypt = λ k iv c. ok c;
  stringify = put_envelope;
  parse = λ t. or_throw (get_envelope t);
}

pub plain_primitives-IsSound : Crypto.IsSound plain_primitives
plain_primitives-IsSound = record {
  decrypt-encrypt = λ k iv m. refl;
  encrypt-bytes = λ k iv m h. h;
  parse-stringify = λ e. rw (get_put_envelope e) refl;
}

abbrev put_dirty : Bool → ℕ
put_dirty true = 1
put_dirty false = 0

abbrev get_dirty : ℕ → Bool
get_dirty zero = false
get_dirty (suc n) = true

abbrev put_entry : Option EntryDraft → Text
put_entry none = []
put_entry (some e) = put e.uuid (
    put e.title
      (put e.username (put e.password (put e.url (put e.notes (put e.totp_seed e.group_uuid))))))

abbrev entry_from : Text → Text → Text → Text → Text → Text → Text → Text → EntryDraft
entry_from a b c d e f g h = record {
  uuid = a;
  title = b;
  username = c;
  password = d;
  url = e;
  notes = f;
  totp_seed = g;
  group_uuid = h;
}

abbrev get_entry : Text → Option EntryDraft
get_entry s = get s none (λ a s. get s none (λ b s. get s none (λ c s. get s none (λ d s.
    get s none
      (λ e s. get s none (λ f s. get s none (λ g s. some (entry_from a b c d e f g s))))))))

abbrev print : DraftMetadata → Text
print m = m.version ∷ put_dirty m.dirty ∷ put_entry m.entry

abbrev parse : Text → Result Thrown Json
parse (v ∷ d ∷ s) =
    ok (metadata_json (record { version = v; dirty = get_dirty d; entry = get_entry s }))
parse _ = throw rejected

get_put_dirty : (b : Bool) → get_dirty (put_dirty b) ≡ b
get_put_dirty true = refl
get_put_dirty false = refl

get_put_entry : (e : Option EntryDraft) → get_entry (put_entry e) ≡ e
get_put_entry none = refl
get_put_entry (some e) = simp (take-length-append, drop-length-append)

abbrev pub bound_primitives : Draft.Primitives
bound_primitives = record {
  encrypt = λ k iv account m. put account m;
  decrypt =
      λ k iv account c. or_throw (get c none (λ a m. if equal a account then some m else none));
  print = print;
  parse = parse;
  range_error = rejected;
}

parse-print : (m : DraftMetadata) → parse (print m) ≡ ok (metadata_json m)
parse-print m = rw (get_put_dirty m.dirty, get_put_entry m.entry)

pub bound_primitives-IsSound : Draft.IsSound bound_primitives
bound_primitives-IsSound = record {
  decrypt-encrypt = λ k iv account m. simp (take-length-append, drop-length-append, equal_refl);
  parse-print = parse-print;
}
