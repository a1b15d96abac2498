-- ===== src/Draft/Frame.antt =====
-- The checkpoint is read back as it was written, and nothing malformed is let through.
use kypassword_server.Base.{
  throw, Bool-cases, inr, inl, Option-cases, >>=-eq-ok, ℕ, ◌+◌, ◌^◌, ◌≤◌, ◌<◌, Text, length, take,
  drop, length-append, drop-append_at, take-length-append, true, false, Option, none, some, ◌++◌,
  leb, ltb, le→leb, ◌≡◌, refl, ap, arith, ok,
}
use kypassword_server.Crypto.{Bytes}
use kypassword_server.Json.{Json, member, safe_natural, max_safe_integer, as_string, as_boolean}
use kypassword_server.Draft.{
  Thrown, Result, codes, require, LockedDraft, EntryDraft, DraftMetadata, entry_json, metadata_json,
  Primitives, IsSound, set_uint32, get_uint32, plain_text, seal_draft, read_entry, read_metadata,
  open_plain, open_draft, open_frame, parse_metadata, with_metadata,
}

-- The metadata that the client may seal: a version of a saved vault.
abbrev pub IsVersion : ℕ → Type 0
IsVersion v = (1 ≤ v) × (v ≤ max_safe_integer)

get_uint32-plain_text :
    (range_error : Thrown) (json binary : Bytes)
    → length json < 2 ^ 32
    → get_uint32 range_error (plain_text json binary) ≡ ok (length json)
unfolding plain_text get_uint32
get_uint32-plain_text range_error json binary h = ap ok (omega arith)

read_entry-entry_json : (e : Option EntryDraft) → read_entry (entry_json e) ≡ ok e
unfolding read_entry entry_json member as_string
read_entry-entry_json none = refl
read_entry-entry_json (some e) = refl

read_metadata-metadata_json :
    (m : DraftMetadata) → IsVersion m.version → read_metadata (metadata_json m) ≡ ok m
unfolding read_metadata metadata_json member safe_natural as_boolean
read_metadata-metadata_json m h =
    let safe : leb m.version max_safe_integer ≡ true = le→leb m.version max_safe_integer h.1 in
    let positive : ltb m.version 1 ≡ false = ground arith in
    ground (arith, read_entry-entry_json m.entry)

frame-binary : (json binary : Bytes) → drop (4 + length json) (plain_text json binary) ≡ binary
unfolding plain_text set_uint32
frame-binary json binary =
    drop-append_at (4 + length json) (set_uint32 (length json) ++ json) binary (omega arith)

frame-json : (json binary : Bytes) → take (length json) (drop 4 (plain_text json binary)) ≡ json
unfolding plain_text set_uint32
frame-json json binary = take-length-append json binary

frame-fits : (json binary : Bytes) → ltb (length (plain_text json binary)) (length json + 4) ≡ false
unfolding plain_text set_uint32
frame-fits json binary = ground (arith, length-append json binary)

require_safe-le :
    (k : Text) (j : Json) (v : ℕ) → require safe_natural k j ≡ ok v → v ≤ max_safe_integer
unfolding safe_natural
require_safe-le k j v h = elim (Option-cases (member k j)) [
  | inl absent ↦ absurd (ground arith)
  | inr (x, e) ↦ ground arith
]

read_metadata-IsVersion :
    (j : Json) (m : DraftMetadata) → read_metadata j ≡ ok m → IsVersion m.version
unfolding read_metadata
read_metadata-IsVersion j m h =
    let (v, a, rest) = >>=-eq-ok (require safe_natural (codes "version") j) _ h in
    let bound = require_safe-le (codes "version") j v a in ground arith

parse_metadata-IsVersion :
    (p : Primitives) (json : Bytes) (m : DraftMetadata)
    → parse_metadata p json ≡ ok m
    → IsVersion m.version
unfolding parse_metadata
parse_metadata-IsVersion p json m h =
    let (j, _, e) = >>=-eq-ok (p.parse json) read_metadata h in read_metadata-IsVersion j m e

with_metadata-eq-ok :
    (b binary : Bytes) (r : Result Thrown DraftMetadata) (m : DraftMetadata)
    → with_metadata b r ≡ ok (binary, m)
    → (r ≡ ok m) × (binary ≡ b)
unfolding with_metadata
with_metadata-eq-ok b binary (ok m') m h = (ground arith, ground arith)
with_metadata-eq-ok b binary (throw e) m h = absurd (ground arith)

open_frame-eq-ok :
    (p : Primitives) (plain : Bytes) (n : ℕ) (binary : Bytes) (m : DraftMetadata)
    → open_frame p plain n ≡ ok (binary, m)
    → IsVersion m.version
      × (n + 4 ≤ length plain)
      × (parse_metadata p (take n (drop 4 plain)) ≡ ok m)
      × (binary ≡ drop (4 + n) plain)
unfolding open_frame
open_frame-eq-ok p plain n binary m h = elim (Bool-cases (ltb (length plain) (n + 4))) [
  | inl short ↦ absurd (ground arith)
  | inr fits ↦
      let parsed = parse_metadata p (take n (drop 4 plain)) in
      let (e, b) = with_metadata-eq-ok (drop (4 + n) plain) binary parsed m (rw fits at h) in
      (parse_metadata-IsVersion p _ m e, ground arith, e, b)
]

module _ (p : Primitives) (sound : IsSound p) where
  open_plain-plain_text :
      (metadata : DraftMetadata) (binary : Bytes)
      → IsVersion metadata.version
      → length (p.print metadata) < 2 ^ 32
      → open_plain p (plain_text (p.print metadata) binary) ≡ ok (binary, metadata)
  unfolding open_plain
  open_plain-plain_text metadata binary v h =
      let json = p.print metadata in
      rw (
        get_uint32-plain_text p.range_error json binary h,
        open_frame,
        frame-fits json binary,
        frame-json json binary,
        frame-binary json binary,
        parse_metadata,
        sound.parse-print,
        read_metadata-metadata_json metadata v,
      )

  -- Under `IsSound` (decryption undoes encryption for the same key, nonce and account, and parsing
  -- undoes printing), opening a sealed checkpoint with its key and account gives back the vault's bytes and the metadata,
  -- if the version is one of a saved vault and the metadata prints in less than 4 GiB.
  pub open_draft-seal_draft :
      (binary key iv : Bytes) (metadata : DraftMetadata) (account : Text)
      → IsVersion metadata.version
      → length (p.print metadata) < 2 ^ 32
      → open_draft p (seal_draft p binary metadata key account iv) key account
        ≡ ok (binary, metadata)
  unfolding open_draft seal_draft
  open_draft-seal_draft binary key iv metadata account v h =
      rw sound.decrypt-encrypt (open_plain-plain_text metadata binary v h)

-- Whatever the primitives and the ciphertext: when a checkpoint opens, the ciphertext decrypted to a frame
-- whose first four bytes give a length `n` that the frame has room for, the metadata are what the
-- next `n` bytes parse to, the vault's bytes are everything after these, and the version is positive
-- and safe.
pub open_draft-IsVersion :
    (p : Primitives) (draft : LockedDraft) (key : Bytes) (account : Text) (binary : Bytes)
    (m : DraftMetadata)
    → open_draft p draft key account ≡ ok (binary, m)
    → IsVersion m.version
      × ((plain : Bytes) × (n : ℕ) × (p.decrypt key draft.iv account draft.ciphertext ≡ ok plain)
          × (get_uint32 p.range_error plain ≡ ok n)
          × (n + 4 ≤ length plain)
          × (parse_metadata p (take n (drop 4 plain)) ≡ ok m)
          × (binary ≡ drop (4 + n) plain))
unfolding open_draft
open_draft-IsVersion p draft key account binary m h =
    let (plain, e, rest) =
      >>=-eq-ok (p.decrypt key draft.iv account draft.ciphertext) (open_plain p) h in
    let (n, header, framed) =
      >>=-eq-ok (get_uint32 p.range_error plain) (open_frame p plain) (unfold open_plain in rest) in
    let (v, fits, parsed, b) = open_frame-eq-ok p plain n binary m framed in
    (v, (plain, n, e, header, fits, parsed, b))
