-- ===== src/Tests.antt =====
-- Tests of the definitions at concrete inputs, and the theorems at inputs that meet their hypotheses.
mod Attach
mod Combined
mod Host
mod Journal
mod JournalFile
mod JournalReader
mod Limits
mod Login
mod Posix
mod ProcessTree
mod Protocol
mod Sampler
mod Socket
mod Stats
mod Tty
