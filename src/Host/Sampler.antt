-- ===== src/Host/Sampler.antt =====
-- internal/host/sampler_linux.go: what a session uses, measured from what the kernel shows. Its numbers
-- are read as text of /proc and the cgroup, and as attributes of sockets.
pub mod Keyed
pub mod Sample
pub mod Diag
pub mod Stat
