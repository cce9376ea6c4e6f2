-- ===== src/Host/Run/Invariant.antt =====
-- What holds in every state that `RunTask` of internal/host/host.go can reach.
use swash.Prelude.{
  ◌≡◌, ◌≢◌, ◌⊎◌, inl, inr, Bool, true, false, none, some, List, ◌∷◌, arith, Option-cases, Bytes,
  cut, Fields,
}
use swash.Host.Session.{
  sigkill, Waiter, absent, watching, recorded, closed, Task, Host, ok, new_host, send_signal, kill,
  graceful_kill, forced, restart, RunResult, finished, canceled, persist_failed,
}
use swash.Host.Run.{
  Control, ready, terminating, killed, restarting, returned, System, new_system, start_task,
  terminate, force, begin_restart, select_done, record_task_exit, finish_task, Step, start,
  start_error, emit_started_ok, emit_started_error, notify_ok, notify_error, task_done,
  event_failed, restart_requested, cancelled, terminated, timed_out, killed_done, restarted,
  process_exits, stdout_ends, stderr_ends, output_written, output_failed, exit_recorded,
  exit_emitted, client_restarts, client_kills, Reach, here, next, stdout_cut, stderr_cut,
}

-- Whether the goroutines of the latest task are all gone, or there has been no task.
abbrev pub IsGone : Waiter → Type 0
IsGone absent = Unit
IsGone closed = Unit
IsGone other = ⊥

-- What the place in `RunTask` says of the task.
abbrev pub ControlInv : Control → Waiter → Type 0
ControlInv ready w = IsGone w
ControlInv (returned r) w = IsGone w
ControlInv _ w = w ≢ absent

-- What the waiting goroutine says of the fields of the host.
abbrev pub WaiterInv : Waiter → Host → Task → Type 0
WaiterInv watching h t = (h.running ≡ true) × (h.proc ≡ some t.pid) × (h.stdin ≡ some t.pid)
WaiterInv absent h t =
    (h.running ≡ false) × (h.proc ≡ none) × (h.stdin ≡ none) × (h.exit_code ≡ none)
WaiterInv other h t =
    (h.running ≡ false)
    × (h.proc ≡ none)
    × (h.stdin ≡ none)
    × (t.exited ≢ none)
    × (h.exit_code ≡ t.exited)
    × (t.stdout_done ≡ true)
    × (t.stderr_done ≡ true)

-- `RunTask` can return that a task finished only after a task.
abbrev pub ReturnInv : Control → Waiter → Type 0
ReturnInv (returned finished) w = w ≡ closed
ReturnInv (returned canceled) w = w ≡ closed
ReturnInv (returned persist_failed) w = w ≡ closed
ReturnInv _ w = Unit

-- As long as the host has not closed the pipes, a reader that is done has read to the end.
abbrev pub ReadersInv : Host → Task → Type 0
ReadersInv h t =
    (h.stdout_read ≡ true)
    × (h.stderr_read ≡ true)
    × (t.stdout_done ≡ true → t.stdout_eof ≡ true)
    × (t.stderr_done ≡ true → t.stderr_eof ≡ true)

-- The places in `RunTask` with a task whose pipes are open; a task that finished is not terminated.
abbrev pub PipesInv : Control → Host → Task → Type 0
PipesInv (terminating finished) h t = ⊥
PipesInv (killed finished) h t = ⊥
PipesInv ready h t = Unit
PipesInv restarting h t = Unit
PipesInv (killed r) h t = Unit
PipesInv (returned finished) h t = ReadersInv h t
PipesInv (returned r) h t = Unit
PipesInv _ h t = ReadersInv h t

pub record Inv (s : System) : Type 0 where
  pub control : ControlInv s.control s.task.waiter
  pub waiter : WaiterInv s.task.waiter s.host s.task
  pub result : ReturnInv s.control s.task.waiter
  pub pipes : PipesInv s.control s.host s.task
  pub channel : s.host.restart_ch ≢ none

pub new_system-Inv :
    (session_id : Bytes) (command : List Bytes) (tags started : Fields)
    → Inv (new_system (new_host session_id command tags started))
unfolding new_system new_host
new_system-Inv session_id command tags started = ground arith

-- The invariant says nothing of errors that wait to be read, nor of the signals.
event_error-Inv :
    (s : System) (e : Bool) → Inv s → Inv (record s { task = record s.task { event_error = e } })
event_error-Inv s e v = record {
  control = v.control;
  waiter = waiter_of s.task.waiter v.waiter;
  result = v.result;
  pipes = pipes_of s.control v.pipes;
  channel = v.channel;
}
  where
    waiter_of :
        (w : Waiter)
        → WaiterInv w s.host s.task
        → WaiterInv w s.host (record s.task { event_error = e })
    waiter_of absent h = h
    waiter_of watching h = h
    waiter_of recorded h = h
    waiter_of closed h = h

    pipes_of :
        (c : Control)
        → PipesInv c s.host s.task
        → PipesInv c s.host (record s.task { event_error = e })
    pipes_of c h = ground (arith, h)

-- A kill changes the signals at most.
forced_cases :
    (h : Host) (t : Task)
    → (forced h t ≡ t) ⊎ (forced h t ≡ record t { signals = sigkill ∷ t.signals })
unfolding forced
forced_cases h t = elim (Option-cases h.proc) [
  | inl e ↦ inl (rw (e, forced, kill))
  | inr (pid, e) ↦ inr (rw (e, forced, kill))
]

terminate-Inv :
    (r : RunResult) (s : System)
    → s.task.waiter ≢ absent
    → PipesInv (terminating r) s.host s.task
    → Inv s
    → Inv (terminate r s)
unfolding terminate graceful_kill send_signal
terminate-Inv r s live pipes v = ground arith

restart-Inv : (s : System) (h : Host) → restart s.host ≡ ok h → Inv s → Inv (record s { host = h })
unfolding restart
restart-Inv s h e v = ground arith

kill-Inv : (s : System) (t : Task) → kill s.host s.task ≡ ok t → Inv s → Inv (record s { task = t })
unfolding kill send_signal
kill-Inv s t e v = ground arith

pub Step-Inv : {s t : System} → Step s t → Inv s → Inv t
unfolding start_task terminate force begin_restart select_done record_task_exit finish_task
Step-Inv (start e) v = ground arith
Step-Inv (start_error e) v = ground arith
Step-Inv (emit_started_ok e) v = ground arith
Step-Inv (emit_started_error e) v = ground arith
Step-Inv (notify_ok e) v = ground arith
Step-Inv (notify_error e) v = ground arith
Step-Inv (task_done e d) v = ground arith
Step-Inv {s} (event_failed e d) v =
    terminate-Inv persist_failed (record s { task = record s.task { event_error = false } })
      (ground arith) (ground arith) (event_error-Inv s false v)
Step-Inv {s} (restart_requested e d) v = ground (arith, forced_cases s.host s.task)
Step-Inv (cancelled e) v = ground arith
Step-Inv (terminated e d) v = ground arith
Step-Inv {s} (timed_out e) v = ground (arith, forced_cases s.host s.task)
Step-Inv (killed_done e d) v = ground arith
Step-Inv (restarted e d) v = ground arith
Step-Inv (process_exits w e) v = ground arith
Step-Inv (stdout_ends w) v = ground arith
Step-Inv (stderr_ends w) v = ground arith
Step-Inv (stdout_cut w cut) v = ground arith
Step-Inv (stderr_cut w cut) v = ground arith
Step-Inv (output_written e w) v = ground arith
Step-Inv (output_failed w) v = ground arith
Step-Inv (exit_recorded w e o r) v = ground arith
Step-Inv (exit_emitted usage written_ok w e) v = ground arith
Step-Inv {s} (client_restarts {h} e) v = restart-Inv s h e v
Step-Inv {s} (client_kills {t = task} e) v = kill-Inv s task e v

-- Every state that `RunTask` can reach from the new host.
pub Reach-Inv : {s t : System} → Inv s → Reach s t → Inv t
Reach-Inv v here = v
Reach-Inv v (next r st) = Step-Inv st (Reach-Inv v r)
