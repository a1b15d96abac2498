-- ===== src/Csv.antt =====
-- frontend/src/lib/csvImport.ts, in its parts: the records of a CSV text, the provider that wrote it,
-- the entry that a row becomes, and the imports that the vault has already.
pub mod Records
pub mod Provider
pub mod Rows
pub mod Duplicates
pub mod Import
