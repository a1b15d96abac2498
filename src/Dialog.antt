-- ===== src/Dialog.antt =====
-- The dialogs and the other pages of frontend/src/components and frontend/src/pages: the state that each
-- keeps, and its handlers. A handler that awaits a request is cut in two: what it does and sends
-- before the request, and what it does with the answer.
pub mod CsvImport
pub mod Security
pub mod History
pub mod Pairing
pub mod Backup
pub mod Admin
pub mod Comparison
pub mod Attachments
pub mod EntryHistory
