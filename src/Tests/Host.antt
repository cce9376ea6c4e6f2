-- ===== src/Tests/Host.antt =====
-- internal/host/host.go at concrete runs.
use swash.Prelude.{
  ◌≡◌, refl, inl, true, false, none, some, List, [], ◌∷◌, arith, Bytes, codes, same, Fields, find,
}
use swash.Journal.{ExitCode, emit_started, emit_exited}
use swash.Host.Session.{
  sigterm, sigkill, Host, new_host, kill, forced, start_task_process, merge_fields, finished,
  canceled, failed_start_result,
}
use swash.Host.Run.{
  notifying, waiting, returned, System, new_system, start_task, terminate, force, select_done,
  record_task_exit, finish_task, started_event, start, emit_started_ok, notify_ok, task_done,
  cancelled, process_exits, stdout_ends, stderr_ends, exit_recorded, exit_emitted, Reach, here,
  next,
}
use swash.Host.Run.Safety.{IsOver, ReadToEnd, returned-IsOver, starts_alone, first_state}
use swash.Host.Run.Progress.{Driven, cancelled-returns, exited_before_started}
use swash.Host.FailedStart.{is_started, is_line, is_exited, AllShow, failed_start_result-events}

abbrev command : List Bytes
command = codes "make" ∷ []

abbrev tags : Fields
tags = (codes "CI", codes "1") ∷ []

abbrev host : Host
host = new_host (codes "KXO284") command tags []

abbrev first : System
first = first_state (codes "KXO284") command tags []

abbrev running : System
running = start_task first

abbrev begun : System
begun = record running { log = started_event running ∷ []; control = notifying }

abbrev at_select : System
at_select = record begun { control = waiting }

to_select : Reach first at_select
unfolding start_task start_task_process new_system
to_select = next (next (next here (start refl)) (emit_started_ok refl)) (notify_ok refl)

-- The task exits with the code 3 by itself.
abbrev exited : System
exited = record at_select {
  task = record at_select.task {
    exited = some (ExitCode.pos 3);
    stdout_done = true;
    stderr_done = true;
    stdout_eof = true;
    stderr_eof = true;
  };
}

abbrev ended : System
ended = finish_task true (ExitCode.pos 3) [] (record_task_exit (ExitCode.pos 3) exited)

abbrev over : System
over = select_done ended

to_over : Reach first over
unfolding start_task start_task_process new_system record_task_exit finish_task select_done
to_over =
    let a = record at_select { task = record at_select.task { exited = some (ExitCode.pos 3) } } in
    let b = record a { task = record a.task { stdout_done = true; stdout_eof = true } } in
    let to_exited : Reach first exited =
      next
        (next (next to_select (process_exits {code = ExitCode.pos 3} refl refl))
          (stdout_ends {s = a} refl))
        (stderr_ends {s = b} refl) in
    next
      (next (next to_exited (exit_recorded refl refl refl refl)) (exit_emitted [] true refl refl))
      (task_done refl refl)

-- The host is asked to stop.
abbrev stopping : System
stopping = terminate canceled at_select

to_stopping : Reach first stopping
to_stopping = next to_select (cancelled refl)

sends_sigterm : stopping.task.signals ≡ sigterm ∷ []
unfolding terminate start_task
sends_sigterm = refl

kills_after_grace : (force canceled stopping).task.signals ≡ sigkill ∷ sigterm ∷ []
unfolding force forced kill terminate start_task
kills_after_grace = refl

returned-IsOver_example : IsOver over × (finished ≡ finished → ReadToEnd over)
unfolding select_done finish_task record_task_exit start_task
returned-IsOver_example =
    returned-IsOver (codes "KXO284") command tags [] finished to_over refl (inl refl)

starts_alone_example : (first.host.running ≡ false) × (first.host.proc ≡ none)
unfolding start_task new_system
starts_alone_example =
    let alone =
      starts_alone (codes "KXO284") command tags [] here (start refl) (λ e. ground arith) in
    (alone.1, alone.2)

cancelled-returns_example :
    (t : System) × Driven at_select t
    × (t.control ≡ returned canceled)
    × (t.task.signals ≡ sigkill ∷ sigterm ∷ at_select.task.signals)
unfolding start_task start_task_process
cancelled-returns_example = cancelled-returns (codes "KXO284") command tags [] to_select refl refl

exited_before_started_example :
    (s : System) × Reach (new_system host) s
    × (s.control ≡ returned finished)
    × (s.log
        ≡ emit_exited host.session_id (ExitCode.pos 0) host.command (merge_fields host.tags [])
          ∷ emit_started host.session_id host.command (merge_fields host.tags host.started)
          ∷ [])
exited_before_started_example = exited_before_started host []

failed_start_result-events_example :
    let (events, code) = failed_start_result (codes "KXO284") command tags [] (codes "not found") in
    (code ≡ ExitCode.pos 127)
    × AllShow
        (codes "KXO284")
        (is_started ∷ is_line (codes "2") (codes "swash: not found") ∷ is_exited (codes "127") ∷ [])
        events
unfolding find same
failed_start_result-events_example =
    failed_start_result-events (codes "KXO284") command tags [] (codes "not found") refl refl
