-- ===== src/RateLimit.antt =====
-- src/server/middleware/ratelimit.go: the rate-limit stage.
pub mod Paths
pub mod Window
pub mod Policy
pub mod Gate
