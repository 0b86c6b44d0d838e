-- ===== src/Middleware.antt =====
-- src/server/middleware: the stages that a request passes before its handler.
pub mod Segments
pub mod Paths
pub mod Requests
pub mod Csrf
pub mod Cors
pub mod Lists
pub mod Auth
pub mod Chain
pub mod Redact
pub mod Sanitize
