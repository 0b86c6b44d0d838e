-- ===== src/Config.antt =====
-- src/config: the check of the settings at startup.
pub mod Checks
pub mod Accounts
pub mod Defaults
pub mod Limits
pub mod Strings
