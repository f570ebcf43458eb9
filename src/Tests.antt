-- ===== src/Tests.antt =====
-- Concrete runs of the model: each theorem that has hypotheses at inputs where they hold, with a
-- service that never fails.
mod Data
mod Sessions
mod Tokens
mod Codes
mod Limits
mod Settings
mod Linking
mod Paging
mod Migration
mod Directory
mod Accounts
mod Deletion
