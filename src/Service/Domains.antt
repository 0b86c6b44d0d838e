-- ===== src/Service/Domains.antt =====
-- src/server/service/domain.go: custom domains.
pub mod Environment
pub mod Hosts
pub mod Claims
pub mod Verify
pub mod Serving
pub mod Commands
pub mod Keeps
pub mod Proofs
pub mod Quota
pub mod Isolation
