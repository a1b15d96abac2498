-- ===== src/Lib.antt =====
-- The client logic of KyPassword (frontend/src): how edits of the open vault reach the server, how
-- the vault key and the lock checkpoint are sealed, how a CSV export becomes entries, and the small
-- calculations around them.
--
-- Parts, and the files that model them:
--   Save       frontend/src/lib/vaultSave.ts, class VaultSaveQueue. A `Queue` holds the fields of the
--              class; `phase` is the place where the pending call of `save` awaits. An `Event` is a
--              call of a public method, the timer, or the end of an awaited export or upload, and
--              `step` is what runs until the next await. `notified` logs the calls of listeners.
--   Api        frontend/src/lib/api.ts: request headers, the check of the response, error texts. Save
--              uses it for its upload and for its message.
--   Crypto     frontend/src/lib/vaultCrypto.ts: hexadecimal text and the two envelope shapes.
--   Draft      frontend/src/lib/lockedDraft.ts: the frame around the vault's bytes and its metadata.
--   Csv        frontend/src/lib/csvImport.ts: Csv.Records is the parser,
--              Csv.Provider the detection of the exporter, Csv.Rows the mapping of rows;
--              Csv.Duplicates is findDuplicateImports, Csv.Import is applyImportToVault. It uses
--              Vault.Operations to make folders and entries.
--   Totp       frontend/src/lib/totp.ts, with the signed 32-bit shifts of the counter written out.
--   AutoLock   frontend/src/lib/autoLock.ts, times in milliseconds.
--   Reuse, Conflict   frontend/src/lib/passwordReuse.ts and frontend/src/lib/conflictComparison.ts.
--   Generator  the function generate of frontend/src/components/PasswordGenerator.tsx.
--   Vault      entries, fields and history of frontend/src/lib/kdbx.ts: Vault.History is
--              pushEntryHistory and restoreEntryVersion, Vault.Update is updateEntry, Vault.Groups is
--              findGroup, Vault.FolderName is folderName. The entries are a list in the order of
--              allEntries, and what the code changes of the entry that findEntry returned is a change
--              of the first entry with that id.
--   Vault.Listing, Vault.Operations   the listings of frontend/src/lib/kdbx.ts, and the operations that
--              create, delete, restore and rename. Database.entries is allEntries, with the id of the
--              folder in each entry; the folders are a tree of the ids and names.
--   Vault.Attachments   the attachments of frontend/src/lib/kdbx.ts and their budget. A file is its
--              hash and its number of bytes.
--   Session    frontend/src/App.tsx. `State` is the component's state and refs with the browser
--              storage of the account; Session.Unlock and Session.Resume are initVault, cut at its
--              awaits (`resume` runs from one to the next), Session.Lock is autoLock, the idle watch
--              and the buttons. Session.World runs any number of pending calls of initVault among
--              the other events. Locking uses Draft for the recovery copy, Save for the queue and
--              AutoLock for the deadlines.
--   Page       frontend/src/pages/VaultPage.tsx: the state of the page, the list that it shows, and the
--              handlers that change the vault through Vault.Operations and Vault.Update.
--   Session.Auth   checkAuth, the unlock form and handleForgetDevice; Page.Dialogs is what the page does
--              when a dialog reports.
--   Vault.File, Vault.Recover   how frontend/src/lib/kdbx.ts makes, opens and exports a file, and recoverEntryCopy
--              with the custom icons of both vaults.
--   Dialog     the dialogs and pages of frontend/src/components and frontend/src/pages, one module each:
--              CsvImport (CsvImportModal), Security (SecuritySettings), History (HistoryModal),
--              Comparison (ConflictComparison), Attachments (EntryAttachments), Pairing
--              (DevicePairingModal), Backup (AdminBackup), Admin (AdminPanel), EntryHistory
--              (EntryHistoryModal). A handler is cut at its
--              request; the answer is an argument of the second part. They use Csv.Import, Crypto,
--              Session, Vault.Recover and Vault.Attachments as the code does.
--   Storage    frontend/src/lib/storage.ts and draftStore of frontend/src/lib/lockedDraft.ts.
--   Json       the JSON values that Save and Draft inspect.
--   Base       library names passed on, text and list functions of JavaScript, results, searching.
--   Tests      runs on concrete inputs, and each theorem that has hypotheses at such an input.
--
-- Text is a list of UTF-16 code units and bytes are numbers below 256. Each loop of the
-- code is a recursion over a text or a list, but for the countdown of Dialog.Pairing, which runs for a number
-- of seconds that is its fuel; 90 are enough. Digits and letters are ASCII where the code
-- changes case.
--
-- Parameters stand for what is not in the repository's own code: Argon2id, PBKDF2, AES-GCM,
-- HMAC-SHA-1, kdbxweb, JSON text, UTF-8, the URL parser and random numbers. Where a theorem relies
-- on one of them, the law is a named hypothesis (decryption undoes encryption, parsing undoes
-- printing), and Tests has an instance.
--
-- Not modelled: the Go server, the login page and what is rendered anywhere. The answers of
-- the server and of the browser's storage are arbitrary events. The removal of the cached key that
-- autoLock starts ends where the checkpoint awaits it; a render that follows a change of state is
-- taken to be done before the next event. A browser storage that is full but can be read, the failure
-- of hash-wasm on an empty secret, the cache of the duplicates in CsvImportModal, which are computed
-- at each use, and the id that the history versions of an entry carry are left out.

pub mod Base
pub mod Json
pub mod Api
pub mod Save
pub mod Crypto
pub mod Csv
pub mod Draft
pub mod AutoLock
pub mod Totp
pub mod Reuse
pub mod Conflict
pub mod Generator
pub mod Vault
pub mod Session
pub mod Page
pub mod Storage
pub mod Dialog
mod Tests
