-- ===== src/Host/Run.antt =====
-- internal/host/host.go: `RunTask`, `terminateTask` and the goroutines of `startTaskProcess`, as a
-- step relation. A step is what one goroutine does between two points where it can wait: at a
-- channel, at a lock, at the process or at a pipe. The environment chooses the order, when the
-- process exits, and which writes and notifications fail.
pub mod Invariant
pub mod Safety
pub mod Progress
use swash.Prelude.{
  ℕ, zero, suc, ◌+◌, ◌-◌, ◌*◌, ◌/◌, ◌%◌, ◌^◌, ◌≤◌, ◌<◌, min, max, ◌≡◌, refl, sym, ap, ◌∙◌, fun_ext,
  subst, ◌≢◌, ◌↔◌, ◌⊎◌, inl, inr, Bool, true, false, not, ◌&&◌, ◌||◌, Option, none, some, List, [],
  ◌∷◌, ◌++◌, map, append_assoc, append-nil, arith, ltb, leb, ◌==◌, if◌then◌else◌, ltb→lt, lt→ltb,
  ==_iff, Bool-cases, Option-cases, length, get_elem?, take, drop, replicate, select, length-append,
  length-replicate, length-drop, drop-append, select-append, All, All-append, Bytes, codes, Lacks,
  same, same_iff, same_refl, has_prefix, cut_prefix, cut_prefix-append, trim_prefix, cut,
  cut-append, split, cons_head, join, join_rest, split_view, split-append, split-Lacks,
  split-ne-nil, join-split, split-join, split-All-Lacks, Map, Fields, or_else, find, put, remove,
  copy, find-put, find-remove, find-copy, find-copy_nil, map_laws, max_uint64, format_uint,
  parse_uint, parse_uint-format_uint, format_uint-Lacks,
}
use swash.Journal.{emit_started, emit_exited, Entry, ExitCode}
use swash.Host.Session.{
  Signal, sigterm, sigkill, Waiter, absent, watching, recorded, closed, Task, Host, HostStatus,
  Error, no_process, no_task, not_supported, in_progress, Answer, ok, err, new_host, gist,
  send_input, send_signal, kill, graceful_kill, forced, close_pipes, restart, start_task_process,
  record_exit, merge_fields, RunResult, finished, canceled, start_failed, started_failed,
  notify_failed, persist_failed, Completed, exit_with, failed, without_status,
  completed_task_result, failed_start_result,
}

-- Where the goroutine of `RunTask` is: at the top of the loop; before the started event; before the
-- readiness notification; at the `select`; in `terminateTask`, before and after the grace period;
-- waiting for the task that a restart has killed; out of `RunTask`.
pub data Control : Type 0 where
  ready starting notifying waiting restarting : Control
  terminating killed returned : RunResult → Control

pub record System : Type 0 where
  pub host : Host
  pub task : Task
  pub control : Control
  pub log : List Entry
  -- The number of processes started so far.
  pub starts : ℕ

-- `RunTask` makes the restart channel before the loop.
unfoldable pub new_system : Host → System
new_system h = record {
  host = record h { restart_ch = some false };
  task = record {
    pid = 0;
    exited = none;
    stdout_done = false;
    stderr_done = false;
    stdout_eof = false;
    stderr_eof = false;
    waiter = absent;
    event_error = false;
    signals = [];
  };
  control = ready;
  log = [];
  starts = 0;
}

-- `startTaskProcess` without an error.
unfoldable pub start_task : System → System
unfolding start_task_process
start_task s =
    let (h, t) = start_task_process (s.starts + 1) s.host in
    record s { host = h; task = t; control = starting; starts = s.starts + 1 }

-- The beginning of `terminateTask`, on the way out with `r`.
unfoldable pub terminate : RunResult → System → System
unfolding graceful_kill
terminate r s = record s { task = graceful_kill s.host s.task; control = terminating r }

-- `terminateTask` when the grace period is over.
unfoldable pub force : RunResult → System → System
unfolding close_pipes
force r s = record s { task = forced s.host s.task; host = close_pipes s.host; control = killed r }

-- The branch of the `select` for a restart request.
unfoldable pub begin_restart : System → System
unfolding close_pipes
begin_restart s = record s {
  task = forced s.host s.task;
  host = close_pipes (record s.host { restart_ch = some false });
  control = restarting;
}

-- The branch of the `select` for `doneChan`: an error that was reported wins.
unfoldable pub select_done : System → System
select_done s =
    let e = s.task.event_error in
    record s {
      control = returned (if e then persist_failed else finished);
      task = record s.task { event_error = false };
    }

-- The log after a write.
unfoldable pub written : Bool → Entry → List Entry → List Entry
written true e log = log ++ e ∷ []
written false e log = log

-- The waiting goroutine under its lock.
unfoldable pub record_task_exit : ExitCode → System → System
unfolding record_exit
record_task_exit code s = record s {
  host = record_exit code s.host;
  task = record s.task { waiter = recorded };
}

-- The waiting goroutine's last part, with the usage fields of the sampler: an error is reported, and
-- the channel is closed.
unfoldable pub finish_task : Bool → ExitCode → Fields → System → System
unfolding written merge_fields
finish_task written_ok code usage s = record s {
  log =
      written written_ok
        (emit_exited s.host.session_id code s.host.command (merge_fields s.host.tags usage)) s.log;
  task = record s.task { waiter = closed; event_error = not written_ok || s.task.event_error };
}

unfoldable pub started_event : System → Entry
unfolding merge_fields
started_event s =
    emit_started s.host.session_id s.host.command (merge_fields s.host.tags s.host.started)

pub data Step : System → System → Type 0 where
  -- `RunTask`
  start : {s : System} → s.control ≡ ready → Step s (start_task s)
  start_error :
      {s : System} → s.control ≡ ready → Step s (record s { control = returned start_failed })
  emit_started_ok :
      {s : System}
      → s.control ≡ starting
      → Step s (record s { log = s.log ++ started_event s ∷ []; control = notifying })
  emit_started_error : {s : System} → s.control ≡ starting → Step s (terminate started_failed s)
  notify_ok : {s : System} → s.control ≡ notifying → Step s (record s { control = waiting })
  notify_error : {s : System} → s.control ≡ notifying → Step s (terminate notify_failed s)
  task_done : {s : System} → s.control ≡ waiting → s.task.waiter ≡ closed → Step s (select_done s)
  event_failed :
      {s : System}
      → s.control ≡ waiting
      → s.task.event_error ≡ true
      → Step s
          (terminate persist_failed (record s { task = record s.task { event_error = false } }))
  restart_requested :
      {s : System} → s.control ≡ waiting → s.host.restart_ch ≡ some true → Step s (begin_restart s)
  cancelled : {s : System} → s.control ≡ waiting → Step s (terminate canceled s)
  terminated :
      {s : System} {r : RunResult}
      → s.control ≡ terminating r
      → s.task.waiter ≡ closed
      → Step s (record s { control = returned r })
  timed_out : {s : System} {r : RunResult} → s.control ≡ terminating r → Step s (force r s)
  killed_done :
      {s : System} {r : RunResult}
      → s.control ≡ killed r
      → s.task.waiter ≡ closed
      → Step s (record s { control = returned r })
  restarted :
      {s : System}
      → s.control ≡ restarting
      → s.task.waiter ≡ closed
      → Step s (record s { control = ready })
  -- the process, the readers and the waiting goroutine
  process_exits :
      {s : System} {code : ExitCode}
      → s.task.waiter ≡ watching
      → s.task.exited ≡ none
      → Step s (record s { task = record s.task { exited = some code } })
  -- A reader ends at the end of its stream, when nobody holds the other end any more, or when its pipe is
  -- closed under it.
  stdout_ends :
      {s : System}
      → s.task.waiter ≡ watching
      → Step s (record s { task = record s.task { stdout_done = true; stdout_eof = true } })
  stderr_ends :
      {s : System}
      → s.task.waiter ≡ watching
      → Step s (record s { task = record s.task { stderr_done = true; stderr_eof = true } })
  stdout_cut :
      {s : System}
      → s.task.waiter ≡ watching
      → s.host.stdout_read ≡ false
      → Step s (record s { task = record s.task { stdout_done = true } })
  stderr_cut :
      {s : System}
      → s.task.waiter ≡ watching
      → s.host.stderr_read ≡ false
      → Step s (record s { task = record s.task { stderr_done = true } })
  output_written :
      {s : System} (e : Entry)
      → s.task.waiter ≡ watching
      → Step s (record s { log = s.log ++ e ∷ [] })
  output_failed :
      {s : System}
      → s.task.waiter ≡ watching
      → Step s (record s { task = record s.task { event_error = true } })
  exit_recorded :
      {s : System} {code : ExitCode}
      → s.task.waiter ≡ watching
      → s.task.exited ≡ some code
      → s.task.stdout_done ≡ true
      → s.task.stderr_done ≡ true
      → Step s (record_task_exit code s)
  exit_emitted :
      {s : System} {code : ExitCode} (usage : Fields) (written_ok : Bool)
      → s.task.waiter ≡ recorded
      → s.task.exited ≡ some code
      → Step s (finish_task written_ok code usage s)
  -- calls of clients
  client_restarts : {s : System} {h : Host} → restart s.host ≡ ok h → Step s (record s { host = h })
  client_kills :
      {s : System} {t : Task} → kill s.host s.task ≡ ok t → Step s (record s { task = t })

pub data Reach (s : System) : System → Type 0 where
  here : Reach s s
  next : {t u : System} → Reach s t → Step t u → Reach s u
