-- ===== src/Host/Run/Safety.antt =====
-- What a client and the service manager can rely on: internal/host/host.go.
use swash.Prelude.{
  ◌≡◌, refl, ap, ◌∙◌, ◌≢◌, ◌⊎◌, inl, inr, true, false, none, some, List, arith, Option-cases, Bytes,
  Fields,
}
use swash.Journal.{ExitCode}
use swash.Host.Session.{
  new_host, gist, RunResult, finished, canceled, persist_failed, exit_with, completed_task_result,
}
use swash.Host.Run.{
  returned, System, new_system, terminate, force, begin_restart, select_done, record_task_exit,
  finish_task, Step, start, Reach,
}
use swash.Host.Run.Invariant.{IsGone, Inv, new_system-Inv, Reach-Inv}

-- The task's process has exited, its readers have ended, and nothing of it is left in the host.
abbrev pub IsOver : System → Type 0
IsOver s =
    (s.host.running ≡ false)
    × (s.host.proc ≡ none)
    × (s.host.stdin ≡ none)
    × (s.task.exited ≢ none)
    × (s.host.exit_code ≡ s.task.exited)
    × (s.task.stdout_done ≡ true)
    × (s.task.stderr_done ≡ true)

-- A step that starts a process finds no other one.
Step-starts :
    {s t : System}
    → Step s t
    → Inv s
    → s.starts ≢ t.starts
    → IsGone s.task.waiter × (s.host.running ≡ false) × (s.host.proc ≡ none)
unfolding terminate force begin_restart select_done record_task_exit finish_task
Step-starts (start e) v ne = ground arith
Step-starts _ v ne = absurd (ne refl)

IsOver-returned :
    {s : System} (r : RunResult)
    → Inv s
    → s.control ≡ returned r
    → (r ≡ finished) ⊎ (r ≡ canceled) ⊎ (r ≡ persist_failed)
    → IsOver s
IsOver-returned r v e which = ground arith

-- Both readers have read to the end of their streams.
abbrev pub ReadToEnd : System → Type 0
ReadToEnd s = (s.task.stdout_eof ≡ true) × (s.task.stderr_eof ≡ true)

ReadToEnd-finished : {s : System} → Inv s → s.control ≡ returned finished → ReadToEnd s
ReadToEnd-finished v e = ground arith

module _ (session_id : Bytes) (command : List Bytes) (tags started : Fields) where
  abbrev pub first_state : System
  first_state = new_system (new_host session_id command tags started)

  first_state-Inv : {s : System} → Reach first_state s → Inv s
  first_state-Inv r = Reach-Inv (new_system-Inv session_id command tags started) r

  -- However the steps interleave: when `RunTask` has returned because a task finished, the host was
  -- asked to stop, or an event could not be kept, the task's process has exited, the goroutines that read
  -- its output have ended, the host has no process and no stdin, and its exit code is that of the task;
  -- and if it was because the task finished, both its output streams were read to the end.
  pub returned-IsOver :
      {s : System} (r : RunResult)
      → Reach first_state s
      → s.control ≡ returned r
      → (r ≡ finished) ⊎ (r ≡ canceled) ⊎ (r ≡ persist_failed)
      → IsOver s × (r ≡ finished → ReadToEnd s)
  returned-IsOver r reach e which =
      let v = first_state-Inv reach in
      (IsOver-returned r v e which, (λ done. ReadToEnd-finished v (e ∙ ap returned done)))

  -- However the steps interleave: a process is started only when the goroutines of the task before it
  -- are gone and the host runs nothing, so two tasks never run at once.
  pub starts_alone :
      {s t : System}
      → Reach first_state s
      → Step s t
      → s.starts ≢ t.starts
      → IsGone s.task.waiter × (s.host.running ≡ false) × (s.host.proc ≡ none)
  starts_alone reach st ne = Step-starts st (first_state-Inv reach) ne

  -- However the steps interleave: when `RunTask` has returned because a task finished, the task has
  -- an exit code, and `completedTaskResult` makes it the exit code of the host; the error "task exited
  -- without a status" is never given.
  pub completed_task_result-finished :
      {s : System}
      → Reach first_state s
      → s.control ≡ returned finished
      → (code : ExitCode) × (s.task.exited ≡ some code)
        × (completed_task_result s.host finished ≡ exit_with code)
  unfolding completed_task_result gist
  completed_task_result-finished {s} reach e =
      let (over, read) = returned-IsOver finished reach e (inl refl) in
      elim (Option-cases s.task.exited) [
        | inl missing ↦ absurd (over.3 missing)
        | inr (code, exited) ↦ (code, exited, ground arith)
      ]
