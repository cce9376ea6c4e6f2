-- ===== src/Host/Run/Progress.antt =====
-- Runs that `RunTask` of internal/host/host.go can always make, and one that it should not make.
use swash.Prelude.{
  ◌≡◌, refl, ap, ◌∙◌, inl, inr, Bool, true, false, some, List, [], ◌∷◌, ◌++◌, arith, Option-cases,
  Bytes, Fields,
}
use swash.Journal.{ExitCode, emit_started, emit_exited}
use swash.Host.Session.{
  Signal, sigterm, sigkill, watching, Host, new_host, send_signal, kill, graceful_kill, forced,
  close_pipes, start_task_process, merge_fields, finished, canceled,
}
use swash.Host.Run.{
  notifying, waiting, killed, returned, System, new_system, start_task, terminate, force,
  select_done, record_task_exit, finish_task, started_event, Step, start, emit_started_ok,
  notify_ok, task_done, cancelled, timed_out, killed_done, process_exits, stdout_ends, stderr_ends,
  output_written, output_failed, exit_recorded, exit_emitted, client_restarts, client_kills, Reach,
  here, next, stdout_cut, stderr_cut,
}
use swash.Host.Run.Invariant.{new_system-Inv, Reach-Inv}

unfoldable pub has_sigkill : List Signal → Bool
has_sigkill [] = false
has_sigkill (sigkill ∷ signals) = true
has_sigkill (sigterm ∷ signals) = has_sigkill signals

-- The steps that do not hang on the task's good will: those of the host, the exit of a process that was
-- sent SIGKILL, and the end of a reader whose pipe was closed. A process that exits otherwise, a stream
-- that comes to its end, output, and the calls of clients are none.
abbrev pub Forced : {s t : System} → Step s t → Type 0
Forced (process_exits {s} w e) = has_sigkill s.task.signals ≡ true
Forced (stdout_ends w) = ⊥
Forced (stderr_ends w) = ⊥
Forced (output_written e w) = ⊥
Forced (output_failed w) = ⊥
Forced (client_restarts e) = ⊥
Forced (client_kills e) = ⊥
Forced st = Unit

pub data Driven (s : System) : System → Type 0 where
  driven_here : Driven s s
  driven_next : {t u : System} → Driven s t → (st : Step t u) → Forced st → Driven s u

-- The task after the grace period: killed, with its pipes closed.
killed_state : System → System
killed_state s = force canceled (terminate canceled s)

Driven-killed : (s : System) → s.control ≡ waiting → Driven s (killed_state s)
unfolding killed_state terminate
Driven-killed s at = driven_next (driven_next driven_here (cancelled at) tt) (timed_out refl) tt

-- With the process gone and the pipes closed the readers are cut off and the goroutines end.
Driven-close :
    (s t : System) (code : ExitCode)
    → Driven s t
    → t.control ≡ killed canceled
    → t.task.waiter ≡ watching
    → t.task.exited ≡ some code
    → t.host.stdout_read ≡ false
    → t.host.stderr_read ≡ false
    → (u : System) × Driven s u
      × (u.control ≡ returned canceled)
      × (u.task.signals ≡ t.task.signals)
unfolding record_task_exit finish_task
Driven-close s t code run at w e out no_err =
    let a = record t { task = record t.task { stdout_done = true } } in
    let b = record a { task = record a.task { stderr_done = true } } in
    let c = record_task_exit code b in
    let d = finish_task true code [] c in
    let to_b : Driven s b =
      driven_next (driven_next run (stdout_cut w out) tt) (stderr_cut w no_err) tt in
    let to_c : Driven s c = driven_next to_b (exit_recorded w e refl refl) tt in
    let to_d : Driven s d = driven_next to_c (exit_emitted [] true refl e) tt in
    (
      record d { control = returned canceled },
      driven_next to_d (killed_done at refl) tt,
      refl,
      refl,
    )

-- When the host is asked to stop while a task runs, then without any good will of the task, which may
-- ignore SIGTERM and leave its streams open with others for ever, there are steps on which `RunTask`
-- returns; on them the task is sent SIGTERM first and SIGKILL then, and nothing else.
pub cancelled-returns :
    {s : System} (session_id : Bytes) (command : List Bytes) (tags started : Fields)
    → Reach (new_system (new_host session_id command tags started)) s
    → s.control ≡ waiting
    → s.host.running ≡ true
    → (t : System) × Driven s t
      × (t.control ≡ returned canceled)
      × (t.task.signals ≡ sigkill ∷ sigterm ∷ s.task.signals)
unfolding has_sigkill killed_state force terminate graceful_kill send_signal forced kill close_pipes
cancelled-returns {s} session_id command tags started reach at running =
    let v = Reach-Inv (new_system-Inv session_id command tags started) reach in
    let w : s.task.waiter ≡ watching = ground arith in
    let proc : s.host.proc ≡ some s.task.pid = ground arith in
    let k = killed_state s in
    let signals : k.task.signals ≡ sigkill ∷ sigterm ∷ s.task.signals = rw proc refl in
    let waits : k.task.waiter ≡ watching = rw proc w in
    elim (Option-cases k.task.exited) [
      | inr (code, e) ↦
          let (t, run, r, sent) =
            Driven-close s k code (Driven-killed s at) refl waits e refl refl in
          (t, run, r, sent ∙ signals)
      | inl e ↦
          let gone = record k { task = record k.task { exited = some (ExitCode.neg 0) } } in
          let dies : Driven s gone =
            driven_next (Driven-killed s at) (process_exits waits e) (ap has_sigkill signals) in
          let (t, run, r, sent) =
            Driven-close s gone (ExitCode.neg 0) dies refl waits refl refl refl in
          (t, run, r, sent ∙ signals)
    ]

-- For every host there is a run in which the log holds the exited event of the task in front of its
-- started event, and `RunTask` returns that the task finished.
pub exited_before_started :
    (h : Host) (usage : Fields)
    → (s : System) × Reach (new_system h) s
      × (s.control ≡ returned finished)
      × (s.log
          ≡ emit_exited h.session_id (ExitCode.pos 0) h.command (merge_fields h.tags usage)
            ∷ emit_started h.session_id h.command (merge_fields h.tags h.started)
            ∷ [])
unfolding start_task start_task_process record_task_exit finish_task started_event select_done
    new_system
exited_before_started h usage =
    let s1 = start_task (new_system h) in
    let s2 = record s1 { task = record s1.task { exited = some (ExitCode.pos 0) } } in
    let s3 = record s2 { task = record s2.task { stdout_done = true; stdout_eof = true } } in
    let s4 = record s3 { task = record s3.task { stderr_done = true; stderr_eof = true } } in
    let s5 = record_task_exit (ExitCode.pos 0) s4 in
    let s6 = finish_task true (ExitCode.pos 0) usage s5 in
    let s7 = record s6 { log = s6.log ++ started_event s6 ∷ []; control = notifying } in
    let s8 = record s7 { control = waiting } in
    let to_s4 : Reach (new_system h) s4 =
      next (next (next (next here (start refl)) (process_exits refl refl)) (stdout_ends refl))
        (stderr_ends refl) in
    let to_s6 : Reach (new_system h) s6 =
      next (next to_s4 (exit_recorded refl refl refl refl)) (exit_emitted usage true refl refl) in
    let to_s8 : Reach (new_system h) s8 =
      next (next to_s6 (emit_started_ok refl)) (notify_ok refl) in
    (select_done s8, next to_s8 (task_done refl refl), refl, refl)
