-- ===== src/Configuration.antt =====
-- The declarative configuration: internal/config.
pub mod Blocks
pub mod Surfaces
pub mod Text
pub mod Checks
pub mod Sorting
pub mod Validate
pub mod Duration
pub mod Secrets
pub mod Defaults
pub mod StoreRules
pub mod Rules
pub mod Phases
pub mod Load
