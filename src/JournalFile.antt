-- ===== src/JournalFile.antt =====
-- pkg/journalfile: the systemd journal file.
pub mod Lookup3
pub mod Objects
pub mod Writer
pub mod Reader
pub mod Chain
pub mod RoundTrip
