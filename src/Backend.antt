-- ===== src/Backend.antt =====
-- internal/backend: what a session is started with.
pub mod Limits
pub mod Posix
