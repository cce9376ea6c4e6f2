-- ===== src/Host/Session.antt =====
-- internal/host/host.go: the state of a `Host` and its methods. The mutex makes each method, or each
-- part of one between a lock and its unlock, one step on the state.
use swash.Prelude.{
  ℕ, Bool, true, false, not, Option, none, some, List, [], ◌∷◌, ◌++◌, if◌then◌else◌, Bytes, codes,
  Fields, put, copy,
}
use swash.Journal.{Entry, ExitCode, field_session, emit_started, emit_exited, write_output}

pub data Signal : Type 0 where
  sigterm sigkill : Signal

-- The waiting goroutine of a task: there is no task, it waits, it has recorded the exit, it has
-- closed `doneChan`.
pub data Waiter : Type 0 where
  absent watching recorded closed : Waiter

-- One task process with its goroutines: the process, the two readers, the waiter, the channel
-- `eventErrors` of capacity one, and the signals sent so far, latest first.
pub record Task : Type 0 where
  pub pid : ℕ
  pub exited : Option ExitCode
  pub stdout_done : Bool
  pub stderr_done : Bool
  -- Whether they have read to the end of the stream, and were not cut off.
  pub stdout_eof : Bool
  pub stderr_eof : Bool
  pub waiter : Waiter
  pub event_error : Bool
  pub signals : List Signal

pub record Host : Type 0 where
  pub session_id : Bytes
  pub command : List Bytes
  pub tags : Fields
  pub started : Fields
  pub proc : Option ℕ
  pub stdin : Option ℕ
  pub running : Bool
  pub exit_code : Option ExitCode
  -- `restartCh` of capacity one: absent, or whether it holds a request.
  pub restart_ch : Option Bool
  pub stdout_read : Bool
  pub stderr_read : Bool

pub record HostStatus : Type 0 where
  pub running : Bool
  pub exit_code : Option ExitCode
  pub command : List Bytes

pub data Error : Type 0 where
  no_process no_task not_supported in_progress : Error

pub data Answer (A : Type 0) : Type 0 where
  ok : A → Answer A
  err : Error → Answer A

-- `NewHost`: the session ID is merged into the tags.
unfoldable pub new_host : Bytes → List Bytes → Fields → Fields → Host
new_host session_id command tags started = record {
  session_id = session_id;
  command = command;
  tags = put (copy [] tags) field_session session_id;
  started = started;
  proc = none;
  stdin = none;
  running = false;
  exit_code = none;
  restart_ch = none;
  stdout_read = false;
  stderr_read = false;
}

unfoldable pub gist : Host → HostStatus
gist h = record { running = h.running; exit_code = h.exit_code; command = h.command }

-- `SendInput`, up to the write: the pipe that the data goes to.
unfoldable pub send_input : Host → Answer ℕ
send_input h =
    if not h.running
    then err no_process
    else elim h.stdin [ none ↦ err no_process | some pipe ↦ ok pipe ]

-- A signal to the session of the task's process.
unfoldable pub send_signal : Signal → Task → Task
send_signal sig t = record t { signals = sig ∷ t.signals }

-- `Kill`.
unfoldable pub kill : Host → Task → Answer Task
unfolding send_signal
kill h t = elim h.proc [ none ↦ err no_process | some pid ↦ ok (send_signal sigkill t) ]

-- `GracefulKill`.
unfoldable pub graceful_kill : Host → Task → Task
unfolding send_signal
graceful_kill h t = elim h.proc [ none ↦ t | some pid ↦ send_signal sigterm t ]

-- The task after `Kill` whose answer nobody reads.
unfoldable pub forced : Host → Task → Task
unfolding kill
forced h t = elim (kill h t) [ ok t' ↦ t' | err e ↦ t ]

unfoldable pub close_pipes : Host → Host
close_pipes h = record h { stdout_read = false; stderr_read = false }

-- `Restart`: a request is put into the channel unless one is there.
unfoldable pub restart : Host → Answer Host
restart h = if not h.running then err no_task else elim h.restart_ch [
  | none ↦ err not_supported
  | some full ↦ if full then err in_progress else ok (record h { restart_ch = some true })
]

-- `startTaskProcess` when the pipes and the process could be made: the stored state, and the
-- goroutines that it starts.
unfoldable pub start_task_process : ℕ → Host → Host × Task
start_task_process pid h = (
  record h {
    proc = some pid;
    stdin = some pid;
    stdout_read = true;
    stderr_read = true;
    running = true;
  },
  record {
    pid = pid;
    exited = none;
    stdout_done = false;
    stderr_done = false;
    stdout_eof = false;
    stderr_eof = false;
    waiter = watching;
    event_error = false;
    signals = [];
  },
)

-- The waiting goroutine under its lock, when the process has exited and the readers are done.
unfoldable pub record_exit : ExitCode → Host → Host
record_exit code h = record h { exit_code = some code; running = false; proc = none; stdin = none }

-- `mergeFields`.
unfoldable pub merge_fields : Fields → Fields → Fields
merge_fields base extra = copy (copy [] base) extra

-- What `completedTaskResult` is given: how `RunTask` ended.
pub data RunResult : Type 0 where
  finished canceled start_failed started_failed notify_failed persist_failed : RunResult

pub data Completed : Type 0 where
  exit_with : ExitCode → Completed
  failed : RunResult → Completed
  without_status : Completed

-- `completedTaskResult`.
unfoldable pub completed_task_result : Host → RunResult → Completed
completed_task_result h canceled = exit_with (ExitCode.pos 0)
completed_task_result h finished = elim (gist h).exit_code [
  | none ↦ without_status
  | some code ↦ exit_with code
]
completed_task_result h other = failed other

-- `failedStartResult`: the events of a command that could not be started, while every write
-- succeeds, and the exit code.
unfoldable pub failed_start_result :
    Bytes → List Bytes → Fields → Fields → Bytes → List Entry × ExitCode
unfolding merge_fields
failed_start_result session_id command tags started start_err = (
  emit_started session_id command (merge_fields tags started)
      ∷ write_output 2 (codes "swash: " ++ start_err) (put tags field_session session_id)
      ∷ emit_exited session_id (ExitCode.pos 127) command tags
      ∷ [],
  ExitCode.pos 127,
)
