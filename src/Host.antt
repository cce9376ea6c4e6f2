-- ===== src/Host.antt =====
-- internal/host: the host of one session.
pub mod Session
pub mod Run
pub mod Tty
pub mod Stats
pub mod Login
pub mod FailedStart
pub mod Sampler
pub mod ProcessTree
