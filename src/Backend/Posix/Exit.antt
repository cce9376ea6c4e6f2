-- ===== src/Backend/Posix/Exit.antt =====
-- The exit code that a client of a session gets.
use swash.Prelude.{◌≤◌, List, map, select, Bytes}
use swash.Journal.{EventRecord, ExitCode, pos, neg}
use swash.Backend.Posix.Written.{Written}
use swash.Backend.Posix.{is_output, max_int64}

-- A number of 64 bits with a sign.
abbrev pub IsInt64 : ExitCode → Type 0
IsInt64 (pos n) = n ≤ max_int64
IsInt64 (neg n) = n ≤ max_int64

-- The messages of the output lines.
abbrev printed_lines : List EventRecord → List Bytes
printed_lines es = map (λ e. e.message) (select is_output es)
