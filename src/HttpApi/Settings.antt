-- ===== src/HttpApi/Settings.antt =====
-- internal/httpapi/configapi.go: reading and changing the configuration.
pub mod Request
pub mod Apply
pub mod Locks
pub mod Shown
pub mod Update
pub mod Kept
pub mod Resending
pub mod Restarts
pub mod Sections
pub mod Resent
