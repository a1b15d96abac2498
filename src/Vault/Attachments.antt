-- ===== src/Vault/Attachments.antt =====
-- The attachments of the vault in frontend/src/lib/kdbx.ts: what they count, and the operations that
-- add, list and remove them. An attachment stands for its bytes by their number; the pool of
-- binaries that kdbxweb saves is left out.
pub mod Counting
pub mod Kept
pub mod Budget
use kypassword_server.Base.{
  ℕ, ◌+◌, ◌-◌, ◌*◌, ◌/◌, Text, codes, is_empty, Bool, true, false, ◌||◌, Option, none, some, List,
  [], ◌∷◌, ◌++◌, map, any, if◌then◌else◌, Result, ok, throw, ◌>>=◌, ltb, ◌==◌, within, trim,
}
use kypassword_server.Api.{Thrown, other_error}
use kypassword_server.Vault.{
  Binary, hashed, inline, Version, Entry, Kdbxweb, find_entry, change_entry, has_group, is_live,
}
use kypassword_server.Vault.Fields.{get_key, set_key, delete_key}
use kypassword_server.Vault.History.{entry_history_enabled, push_entry_history}
use kypassword_server.Vault.Listing.{Database, Library, recycled_group_ids}

abbrev pub max_attachment_bytes : ℕ
max_attachment_bytes = 10 * 1024 * 1024

abbrev max_vault_bytes : ℕ
max_vault_bytes = 50 * 1024 * 1024

abbrev pub max_vault_attachment_bytes : ℕ
max_vault_attachment_bytes = max_vault_bytes - 10 * 1024 * 1024

pub record Usage : Type 0 where
  pub bytes : ℕ
  pub hashes : List Text

-- `Math.ceil(n / 3) * 4`.
abbrev pub base64_size : ℕ → ℕ
base64_size n = (n + 2) / 3 * 4

unfoldable pub add_binary : Usage → Binary → Usage
add_binary u (hashed h n) =
    if has_group u.hashes h then u else record { bytes = u.bytes + n; hashes = h ∷ u.hashes }
add_binary u (inline n) = record u { bytes = u.bytes + base64_size n }

unfoldable pub add_binaries : Usage → List Binary → Usage
unfolding add_binary
add_binaries u [] = u
add_binaries u (b ∷ bs) = add_binaries (add_binary u b) bs

abbrev pub values : List (Text × Binary) → List Binary
values [] = []
values ((name, b) ∷ m) = b ∷ values m

-- The binaries of `[entry, ...entry.history]`, in the order of the loops.
abbrev pub version_binaries : List Version → List Binary
version_binaries [] = []
version_binaries (v ∷ vs) = values v.binaries ++ version_binaries vs

abbrev pub entry_binaries : List Entry → List Binary
entry_binaries [] = []
entry_binaries (e ∷ es) = version_binaries (e.current ∷ e.history) ++ entry_binaries es

unfoldable pub attachment_usage : Database → Usage
unfolding add_binaries
attachment_usage db = add_binaries (record { bytes = 0; hashes = [] }) (entry_binaries db.entries)

unfoldable pub attachment_bytes : Database → ℕ
unfolding attachment_usage
attachment_bytes db = (attachment_usage db).bytes

abbrev has_binaries : Version → Bool
has_binaries v = elim v.binaries [ [] ↦ false | _ ∷ _ ↦ true ]

abbrev found_history : Option Entry → List Version
found_history none = []
found_history (some e) = e.history

unfoldable pub has_attachment_history : Text → Database → Bool
unfolding find_entry
has_attachment_history uuid db = any has_binaries (found_history (find_entry uuid db.entries))

abbrev pub no_live_entry : Thrown
no_live_entry = other_error (codes "Choose an entry in the live vault.")

-- `findEntry`, and the check that the entry is live.
unfoldable pub live_of : List Text → Option Entry → Result Thrown Entry
live_of recycled none = throw no_live_entry
live_of recycled (some e) = if is_live recycled e then ok e else throw no_live_entry

abbrev without_binaries : Version → Version
without_binaries v = record v { binaries = [] }

unfoldable pub without_binary : Text → Version → Version
unfolding delete_key
without_binary name v = record v { binaries = delete_key name v.binaries }

abbrev pub touch_entry : Kdbxweb → Entry → Entry
touch_entry k e = record e { current = k.touch e.current }

unfoldable pub put_entry : Text → Entry → Database → Database
unfolding change_entry
put_entry uuid e db = record db { entries = change_entry uuid e db.entries }

unfoldable pub get_attachment : Text → Text → Database → Result Thrown Binary
unfolding find_entry get_key
get_attachment uuid name db = elim (find_entry uuid db.entries) [
  | none ↦ throw (other_error (codes "This attachment is no longer available."))
  | some e ↦ elim (get_key name e.current.binaries) [
    | none ↦ throw (other_error (codes "This attachment is no longer available."))
    | some b ↦ ok b
  ]
]

unfoldable pub has_name : Text → List (Text × Binary) → Bool
unfolding get_key
has_name name m = elim (get_key name m) [ none ↦ false | some _ ↦ true ]

-- The bytes of the inline files that a checkpoint would hold twice.
abbrev pub inline_sum : List Binary → ℕ
inline_sum [] = 0
inline_sum (hashed h n ∷ bs) = inline_sum bs
inline_sum (inline n ∷ bs) = base64_size n + inline_sum bs

abbrev over_budget : Thrown
over_budget = other_error (
    codes
      "The vault's 40 MiB attachment budget includes retained history and recycled entries. Remove files and their saved copies, or clear attachment history, before adding more. The total upload limit is 50 MiB.")

abbrev name_taken : Thrown
name_taken =
    other_error
      (codes "An attachment with this name already exists. Rename the file before adding it.")

abbrev is_control : ℕ → Bool
is_control c = within 0 0x1f c || c == 0x7f

-- The checks before the file is hashed; `size` is the number of its bytes.
unfoldable pub check_file : Text → ℕ → Result Thrown (Unit {0})
unfolding trim
check_file name size =
    if is_empty (trim name) || any is_control name
    then throw (other_error (codes "Choose a file with a valid name."))
    else if ltb max_attachment_bytes size
    then throw (other_error (codes "Attachments must be 10 MiB or smaller."))
    else ok tt

-- `signal.throwIfAborted()`, with the reason if there was an abort.
abbrev pub throw_if_aborted : Option Thrown → Result Thrown (Unit {0})
throw_if_aborted none = ok tt
throw_if_aborted (some reason) = throw reason

unfoldable pub attach : Text → Binary → Entry → Entry
unfolding set_key
attach name b e = record e {
  current = record e.current { binaries = set_key name b e.current.binaries };
}

unfoldable pub detach : Text → Bool → Entry → Entry
unfolding without_binary
detach name from_history e = record e {
  current = without_binary name e.current;
  history = if from_history then map (without_binary name) e.history else e.history;
}

module _ (k : Kdbxweb) (lib : Library) where
  unfoldable pub live_entry : Text → Database → Result Thrown Entry
  unfolding find_entry recycled_group_ids
  live_entry uuid db = live_of (recycled_group_ids lib db) (find_entry uuid db.entries)

  unfoldable pub clear_attachment_history : Text → Database → Result Thrown (Database × Bool)
  unfolding live_entry has_attachment_history
  clear_attachment_history uuid db = do
    e ← live_entry uuid db
    if has_attachment_history uuid db
        then ok (
          put_entry uuid (touch_entry k (record e { history = map without_binaries e.history })) db,
          true,
        )
        else ok (db, false)

  -- What the file would bring the vault's attachments to.
  unfoldable pub needed_bytes : Text → ℕ → Entry → Database → ℕ
  unfolding attachment_usage entry_history_enabled
  needed_bytes hash size e db =
      (attachment_usage db).bytes
      + (if entry_history_enabled db.meta then inline_sum (values e.current.binaries) else 0)
      + (if has_group (attachment_usage db).hashes hash then 0 else size)

  unfoldable pub attach_to : Text → Text → Text → ℕ → Database → Entry → Result Thrown Database
  unfolding has_name needed_bytes push_entry_history
  attach_to uuid name hash size db e =
      if has_name name e.current.binaries
      then throw name_taken
      else if ltb max_vault_attachment_bytes (needed_bytes hash size e db)
      then throw over_budget
      else ok (
          put_entry uuid
            (touch_entry k (attach name (hashed hash size) (push_entry_history k db.meta e))) db)

  -- The file has `size` bytes and the hash `hash`; `first` and `second` are the reasons of an abort
  -- before and after the hashing, if there was one, and `db` is the database after it.
  unfoldable pub add_attachment :
      Text → Text → ℕ → Text → Option Thrown → Option Thrown → Database → Result Thrown Database
  unfolding live_entry attach_to
  add_attachment uuid name size hash first second db = do
    _ ← check_file name size
    _ ← throw_if_aborted first
    _ ← throw_if_aborted second
    e ← live_entry uuid db
    attach_to uuid name hash size db e

  unfoldable pub remove_attachment : Text → Text → Bool → Database → Result Thrown (Database × Bool)
  unfolding live_entry has_name push_entry_history
  remove_attachment uuid name from_history db = do
    e ← live_entry uuid db
    if has_name name e.current.binaries
        then ok (
          put_entry uuid (touch_entry k (detach name from_history (push_entry_history k db.meta e)))
              db,
          true,
        )
        else ok (db, false)
