-- ===== src/User.antt =====
-- Package user (src/user): organization roles, creation modes, names and the reserved list.
mod Blocklist
pub mod Role
pub mod Mode
pub mod Name
pub mod Email
pub mod Domain
pub mod Password
