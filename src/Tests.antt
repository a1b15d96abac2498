-- ===== src/Tests.antt =====
-- The theorems at concrete inputs, and runs of the model.
mod Saving
mod Importing
mod Codecs
mod Sealing
mod Codes
mod Locking
mod Vaults
mod Sessions
mod Folders
mod Files
mod Merging
mod Pages
mod Dialogs
mod Recovering
mod Storing
mod Opening
