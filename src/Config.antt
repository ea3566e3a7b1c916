-- ===== src/Config.antt =====
-- The configuration of internal/config: its records, validation, changes and the file on disk.
pub mod Types
pub mod Errors
pub mod Platform
pub mod Validate
pub mod Update
pub mod Store
pub mod Samples
mod Tests
