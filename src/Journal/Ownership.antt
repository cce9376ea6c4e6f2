-- ===== src/Journal/Ownership.antt =====
-- Swash decides the identity fields of the events that internal/journal/types.go writes, whatever
-- tags and extra fields come with them.
use swash.Prelude.{
  ◌≡◌, refl, ◌∙◌, ◌&&◌, some, List, [], ◌∷◌, arith, if◌then◌else◌, Bytes, codes, same, join, Fields,
  find, map_laws,
}
use swash.Journal.{
  EventRecord, Entry, ExitCode, event_started, event_exited, field_event, field_session,
  field_command, field_exit_code, filter_by_session, filter_by_event, itoa, emit_started,
  emit_exited, emit_session_event, matches_filters,
}

-- For all tags, a started event has the kind, the session and the joined command that the host gave,
-- and every other field as the tags have it.
pub find-emit_started :
    (session_id : Bytes) (command : List Bytes) (tags : Fields) (k : Bytes)
    → find k (emit_started session_id command tags).fields ≡ (
        if same field_command k
        then some (join (codes " ") command)
        else if same field_session k
        then some session_id
        else if same field_event k
        then some event_started
        else find k tags)
unfolding emit_started
find-emit_started session_id command tags k = simp map_laws

-- For all tags, an exited event has the kind, the session, the exit code and the joined command that
-- the host gave, and every other field as the tags have it.
pub find-emit_exited :
    (session_id : Bytes) (code : ExitCode) (command : List Bytes) (tags : Fields) (k : Bytes)
    → find k (emit_exited session_id code command tags).fields ≡ (
        if same field_command k
        then some (join (codes " ") command)
        else if same field_exit_code k
        then some (itoa code)
        else if same field_session k
        then some session_id
        else if same field_event k
        then some event_exited
        else find k tags)
unfolding emit_exited
find-emit_exited session_id code command tags k = simp map_laws

-- For all extra fields, an event of the application has the session and the event name that it was
-- emitted under, and every other field as the extra fields have it.
pub find-emit_session_event :
    (session_id event message : Bytes) (extra : Fields) (k : Bytes)
    → find k (emit_session_event session_id event message extra).fields ≡ (
        if same field_session k
        then some session_id
        else if same field_event k
        then some event
        else find k extra)
unfolding emit_session_event
find-emit_session_event session_id event message extra k = simp map_laws

abbrev pub record_of : Entry → EventRecord
record_of e = record { cursor = []; timestamp = 0; message = e.message; fields = e.fields }

matches_filters_pair :
    (r : EventRecord) (s kind s' kind' : Bytes)
    → find field_session r.fields ≡ some s
    → find field_event r.fields ≡ some kind
    → matches_filters r (filter_by_session s' ∷ filter_by_event kind' ∷ [])
      ≡ (same s s' && same kind kind')
unfolding matches_filters filter_by_session filter_by_event
matches_filters_pair r s kind s' kind' hs hk = ground arith

-- The query by session and kind that the clients make (`FilterBySession`, `FilterByEvent`) finds a
-- session event exactly when both are the event's own, whatever its extra fields are.
pub matches_filters-emit_session_event :
    (session_id event message : Bytes) (extra : Fields) (s kind : Bytes)
    → matches_filters
        (record_of (emit_session_event session_id event message extra))
        (filter_by_session s ∷ filter_by_event kind ∷ [])
      ≡ (same session_id s && same event kind)
matches_filters-emit_session_event session_id event message extra s kind =
    matches_filters_pair _ session_id event s kind
      (find-emit_session_event session_id event message extra field_session ∙ unfold same in refl)
      (find-emit_session_event session_id event message extra field_event ∙ unfold same in refl)
