-- ===== src/Lib.antt =====
-- swash runs commands as sessions: a host process runs the task of a session, keeps its output and its
-- lifecycle in an event log, and lets clients watch it, feed it, restart it and stop it.
--
-- The parts and their files:
-- * Protocol (internal/protocol/protocol.go): the readers that turn the raw output of a task into
--   texts, one per line (`processLines` is `line_texts`) or one per Server-Sent Event (`processSSE` is
--   `sse_texts`). `Process` is `process`, over the sequence of results that `Read` gives: a read may
--   give bytes and an error at once. Protocol/Lines and Protocol/Sse compare them with a reference on
--   the whole output, Protocol/Sse/RoundTrip with the sender of events.
-- * Journal (internal/journal/types.go): the events, their fields and their filters. Journal/Fake
--   (internal/journal/fake.go) is the log in memory: `writeEntry`, `AddEntry`, `Poll`, `Follow`,
--   `Close` and `Clear`. `Follow` is an iterator that looks at the journal once a round, so its run is
--   a sequence of journals. Journal/Fake/Resume is about `Poll` and its cursors, Journal/Fake/Following
--   about `Follow`, and Journal/Ownership about which fields an event's writer decides.
-- * Journal/Combined (internal/journal/combined.go): a log made of a sink and a source. `WriteSync`
--   polls the source, which is the list of logs that the polls see.
-- * Journal/Socket (internal/journal/socket.go): the datagram of an entry. Journal/Socket/Receive is a
--   receiver that follows pkg/journalfile/JOURNAL_NATIVE_PROTOCOL.md, Journal/Socket/RoundTrip what it
--   gets of an entry.
-- * Host/Session (internal/host/host.go, types.go, session_stats.go): the state of a `Host` and its
--   methods, which the mutex makes single steps, and the results of a run. Host/Run is `RunTask` with
--   the goroutines of the task and `terminateTask`, as a step relation: the loop is a control state,
--   the goroutine that waits for the process another one, and the environment (the process, the
--   event log, the service manager and the clients) decides what happens. Host/Run/Invariant holds its
--   invariant, Host/Run/Safety and Host/Run/Progress what follows. Host/FailedStart is about
--   `failedStartResult`.
-- * Host/Tty (internal/host/tty.go): a `TTYHost`, whose terminal (vterm/wasm.go) is a record of
--   operations with laws, a parameter. Its steps are the sections between a lock and its unlock.
--   A call of `Resize` is three steps, of which only the first is locked, and the PTY pair may refuse a
--   size. Host/Tty/Scrollback, Clients, Fits and Sizes are about the lines, the clients and the sizes.
--   Host/Tty/Locks has the order in which the reader and a client take the two mutexes, each as the
--   list of its lock operations, those of the callbacks during a `Write` or a `SetSize` included.
-- * Host/Stats (internal/host/stats.go): the totals of a session as fields of its exited event.
-- * Host/Sampler (internal/host/sampler_linux.go): Sampler/Sample is `Sample`, over a record of what the
--   kernel shows at a time, with the order that `sort.Slice` gives to equals as a parameter; Sample/Window
--   is about its history, Sample/Growth about its totals. Sampler/Keyed has its maps, Sampler/Stat the
--   readers of the texts of /proc, Stat/RoundTrip what is read of a stat text, and Sampler/Diag
--   `parseDiagAttrs`, on as much fuel as there are bytes, of which a round takes four.
-- * Host/ProcessTree (internal/host/process_tree.go, process_tree_linux.go): `signalProcessSession`, over
--   a record of system calls, each of which gives the state of the system behind it; ProcessTree/Reach is
--   about the processes that it signals.
-- * Host/Login (internal/host/login.go): the variables that are forwarded and the login shell.
-- * Backend/Limits (internal/backend/limits.go): `ParseLimits` is `parse_limits`: its text is cut into
--   settings, which a loop applies. Backend/Limits/Commute has two settings in either order, Order
--   any number of them, and Caps what a cap of the memory sets.
-- * Backend/Posix (internal/backend/posix/stub.go): what a client learns of a session from the shared
--   log: `PollSessionOutput` polls a log that is a parameter (SQLite in the program), and `FollowSession`
--   reads what `Follow` yields. Backend/Posix/Written says what of the log a client can see.
--   Backend/Posix/Output has a client that polls again and again, Backend/Posix/Exit one that follows.
-- * JournalFile/Lookup3 (pkg/journalfile/lookup3.go): the Jenkins hash, with words of 32 bits that wrap
--   around; JournalFile/Lookup3/Blocks describes it by blocks.
-- * JournalFile/Objects (pkg/journalfile/types.go): a journal file as a store of objects at their
--   offsets. JournalFile/Writer (pkg/journalfile/journal.go) creates and syncs it; of `AppendEntry`,
--   Writer/Data is about the data and field objects and the hash tables, Writer/Arrays about the arrays
--   of entries behind a data object, Writer/Entry about the entry and its place in the chain of all
--   entries. Objects/Views says what others rely on in an object, Writer/Invariant what holds of an open
--   file between the writes, JournalFile/Chain what the chain of all entries is; Data/Kept,
--   Arrays/Kept, Entry/Kept, Entry/Placed, Entry/Appended and Entry/Many follow an append through these.
--   JournalFile/Reader (pkg/journalfile/reader.go) is the reader, Reader/Cursor its cursors;
--   Reader/Entry, Reader/Advance and Reader/Drain follow it along the chain, and JournalFile/RoundTrip
--   puts the writer and the reader together.
--   The header that a reader holds is a copy, so a file may grow between its steps.
-- * Attach (internal/attach/attach.go): the client of a terminal session. Attach has the sizes and the
--   border, Attach/Border where the border is drawn. Attach/Owner is `runVtermOwner`, over what it finds
--   in its channel one time after another, with an emulator that is a record of operations, a parameter;
--   Attach/Owner/Current is about the last frame it prints. Attach/Session is `readInput`,
--   `readOutput`, `handleResize` and the loop of `Run`, with the client as a record of operations, which
--   Host/Tty fills; Session/Input and Session/Size are about the keys and the sizes.
-- The reader of Protocol hands its texts to the host, which writes them to the log with the helpers of
-- Journal; the host of a terminal writes the lines of its scrollback there.
--
-- Prelude has the shared parts: Boolean tests, lists, byte strings and the functions of Go's `strings`
-- and `bytes` that the program calls, maps as association lists, decimal numbers, and Go's signed
-- integers. Tests has the definitions at concrete inputs.
--
-- Numbers are unbounded where the program counts (cursors, client ids, lengths), and `uint16` is
-- written out where a size is cut to it. A loop over a buffer runs on the buffer's length and one more
-- as fuel: each round takes a byte at least, so no round is left when it runs out (the blocks of the
-- hash, with 12 bytes a round, on the length). The decimal digits of n run on n and one more. A walk along
-- the arrays of a data object runs on the length of the file, since they link forward; the reader of a
-- file with n entries on 2n + 1 rounds for a call, two for an entry.
--
-- Not modelled: the D-Bus and Unix-socket front ends, the texts of the cgroup, flags and printing, the system calls, libvterm,
-- the SQLite and systemd logs, the bytes of the objects in a journal file, and the watch on it. SipHash,
-- a library, is a parameter of the writer.
pub mod Prelude
pub mod Protocol
pub mod Journal
pub mod Host
pub mod Backend
pub mod JournalFile
pub mod Attach
pub mod Tests
