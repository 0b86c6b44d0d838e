-- ===== src/Service.antt =====
-- Package service (src/server/service): every rule that decides whether an action is allowed.
pub mod Base
pub mod Access
pub mod Invites
pub mod Orgs
pub mod Members
pub mod Zones
pub mod Tokens
pub mod Commands
pub mod Domains
pub mod Auth
