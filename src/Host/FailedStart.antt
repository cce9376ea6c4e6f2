-- ===== src/Host/FailedStart.antt =====
-- What internal/host/host.go records of a command that cannot be started.
use swash.Prelude.{
  ℕ, ◌≡◌, refl, ◌∙◌, none, some, List, [], ◌∷◌, ◌++◌, Bytes, codes, same, Fields, find, put,
  find-put, find-copy, format_uint,
}
use swash.Journal.{
  Entry, ExitCode, event_started, event_exited, field_event, field_session, field_exit_code, itoa,
  emit_started, emit_exited, write_output,
}
use swash.Journal.Ownership.{find-emit_started, find-emit_exited}
use swash.Host.Session.{merge_fields, failed_start_result}

find-write_output :
    (fd : ℕ) (text : Bytes) (fields : Fields) (session_id : Bytes)
    → find field_session fields ≡ some session_id
    → find field_session (write_output fd text fields).fields ≡ some session_id
unfolding write_output
find-write_output fd text fields session_id h = rw (find-copy, h)

session_of_started :
    (session_id : Bytes) (command : List Bytes) (tags : Fields)
    → find field_session (emit_started session_id command tags).fields ≡ some session_id
unfolding same
session_of_started session_id command tags = find-emit_started session_id command tags field_session

session_of_exited :
    (session_id : Bytes) (code : ExitCode) (command : List Bytes) (tags : Fields)
    → find field_session (emit_exited session_id code command tags).fields ≡ some session_id
unfolding same
session_of_exited session_id code command tags =
    find-emit_exited session_id code command tags field_session

code_of_exited :
    (session_id : Bytes) (command : List Bytes) (tags : Fields)
    → find field_exit_code (emit_exited session_id (ExitCode.pos 127) command tags).fields
      ≡ some (codes "127")
unfolding same itoa format_uint
code_of_exited session_id command tags =
    find-emit_exited session_id (ExitCode.pos 127) command tags field_exit_code

-- What `failed_start_result` writes: a started event, a line with the stream of the line, and an exited
-- event with its code.
pub data Kind : Type 0 where
  is_started : Kind
  is_line : Bytes → Bytes → Kind
  is_exited : Bytes → Kind

-- The entry is of that kind and session.
abbrev pub Shows : Bytes → Kind → Entry → Type 0
Shows session_id is_started e =
    (find field_session e.fields ≡ some session_id)
    × (find field_event e.fields ≡ some event_started)
Shows session_id (is_line fd text) e =
    (find field_session e.fields ≡ some session_id)
    × (find (codes "FD") e.fields ≡ some fd)
    × (find field_event e.fields ≡ none)
    × (e.message ≡ text)
Shows session_id (is_exited code) e =
    (find field_session e.fields ≡ some session_id)
    × (find field_event e.fields ≡ some event_exited)
    × (find field_exit_code e.fields ≡ some code)

abbrev pub AllShow : Bytes → List Kind → List Entry → Type 0
AllShow session_id [] [] = Unit
AllShow session_id (k ∷ ks) (e ∷ es) = Shows session_id k e × AllShow session_id ks es
AllShow session_id ks es = ⊥

event_of_started :
    (session_id : Bytes) (command : List Bytes) (tags : Fields)
    → find field_event (emit_started session_id command tags).fields ≡ some event_started
unfolding same
event_of_started session_id command tags = find-emit_started session_id command tags field_event

event_of_exited :
    (session_id : Bytes) (code : ExitCode) (command : List Bytes) (tags : Fields)
    → find field_event (emit_exited session_id code command tags).fields ≡ some event_exited
unfolding same
event_of_exited session_id code command tags =
    find-emit_exited session_id code command tags field_event

find_key-write_output :
    (key : Bytes) (fd : ℕ) (text : Bytes) (fields : Fields)
    → find key fields ≡ none
    → find key (write_output fd text fields).fields ≡ find key ((codes "FD", format_uint fd) ∷ [])
unfolding write_output
find_key-write_output key fd text fields h = rw (find-copy, h) refl

-- If no tag has the name FD or that of the event field, a command that could not be started leaves three
-- events, all of them under its own session: a started event, the message on standard error, and an
-- exited event with the code 127, which is also the result of the host.
pub failed_start_result-events :
    (session_id : Bytes) (command : List Bytes) (tags started : Fields) (start_err : Bytes)
    → find (codes "FD") tags ≡ none
    → find field_event tags ≡ none
    → let (events, code) = failed_start_result session_id command tags started start_err in
      (code ≡ ExitCode.pos 127)
      × AllShow session_id
          (is_started
            ∷ is_line (codes "2") (codes "swash: " ++ start_err)
            ∷ is_exited (codes "127")
            ∷ [])
          events
unfolding failed_start_result same format_uint find
failed_start_result-events session_id command tags started start_err no_fd no_event =
    let fields = put tags field_session session_id in
    let text = codes "swash: " ++ start_err in
    (
      refl,
      (
        (
          session_of_started session_id command (merge_fields tags started),
          event_of_started session_id command (merge_fields tags started),
        ),
        (
          (
            find-write_output 2 text fields session_id
                (find-put tags field_session field_session session_id),
            find_key-write_output (codes "FD") 2 text fields
                (find-put tags field_session (codes "FD") session_id ∙ no_fd),
            find_key-write_output field_event 2 text fields
                (find-put tags field_session field_event session_id ∙ no_event),
            unfold write_output in refl,
          ),
          (
            (
              session_of_exited session_id (ExitCode.pos 127) command tags,
              event_of_exited session_id (ExitCode.pos 127) command tags,
              code_of_exited session_id command tags,
            ),
            tt,
          ),
        ),
      ),
    )
