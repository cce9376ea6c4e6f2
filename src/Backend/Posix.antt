-- ===== src/Backend/Posix.antt =====
-- internal/backend/posix/stub.go: what a client learns of a session from the shared event log. A time
-- is a number of seconds.
pub mod Written
pub mod Output
pub mod Exit
use swash.Prelude.{
  ℕ, zero, suc, ◌+◌, ◌-◌, ◌*◌, ◌/◌, ◌%◌, ◌^◌, ◌≤◌, ◌<◌, min, max, ◌≡◌, refl, sym, ap, ◌∙◌, fun_ext,
  subst, ◌≢◌, ◌↔◌, ◌⊎◌, inl, inr, Bool, true, false, not, ◌&&◌, ◌||◌, Option, none, some, List, [],
  ◌∷◌, ◌++◌, map, append_assoc, append-nil, arith, ltb, leb, ◌==◌, if◌then◌else◌, ltb→lt, lt→ltb,
  ==_iff, Bool-cases, Option-cases, length, get_elem?, take, drop, replicate, select, length-append,
  length-replicate, length-drop, drop-append, take-append, select-append, All, All-append, Bytes,
  codes, Lacks, same, same_iff, same_refl, has_prefix, cut_prefix, cut_prefix-append, trim_prefix,
  cut, cut-append, split, cons_head, join, join_rest, split_view, split-append, split-Lacks,
  split-ne-nil, join-split, split-join, split-All-Lacks, Map, Fields, or_else, find, put, remove,
  copy, find-put, find-remove, find-copy, find-copy_nil, map_laws, ◌>>=◌, max_uint64, format_uint,
  parse_uint, parse_uint-format_uint, format_uint-Lacks, format_uint-injective, format_uint-ne-nil,
  format_uint-All, is_blank, split_spaces, not_empty, words, IsWord, words-word, words-last,
  words-join, parse_uint_value, parse_uint_value-format_uint,
}
use swash.Journal.{
  EventRecord, EventFilter, Entry, ExitCode, pos, neg, event_started, event_exited, event_screen,
  event_stats, field_event, field_session, field_command, field_exit_code, field_stats,
  filter_by_session, filter_by_event, itoa, emit_started, emit_exited, emit_screen,
  emit_session_event, write_output, matches_filters,
}

-- `backend.Event`.
pub record OutputEvent : Type 0 where
  pub cursor : Bytes
  pub timestamp : ℕ
  pub text : Bytes
  pub fd : ℕ

-- `e.Fields[name]`, which is empty for a missing name.
unfoldable pub field : Bytes → EventRecord → Bytes
unfolding find
field name e = elim (find name e.fields) [ none ↦ [] | some v ↦ v ]

unfoldable pub is_output : EventRecord → Bool
unfolding field same
is_output e = not (same e.message [] || same (field (codes "FD") e) [])

unfoldable pub output_of : EventRecord → OutputEvent
unfolding field same
output_of e = record {
  cursor = e.cursor;
  timestamp = e.timestamp;
  text = e.message;
  fd = if same (field (codes "FD") e) (codes "2") then 2 else 1;
}

-- The loop of `PollSessionOutput`.
unfoldable pub output_events : List EventRecord → List OutputEvent
unfolding is_output output_of
output_events [] = []
output_events (e ∷ es) =
    let rest = output_events es in if is_output e then output_of e ∷ rest else rest

-- `Poll` of the shared log: the entries that pass some filters from behind a cursor on, and the cursor of
-- the last; `none` is an error.
abbrev pub PollLog : Type 0
PollLog = List EventFilter → Bytes → Option (List EventRecord × Bytes)

-- `PollSessionOutput` on the shared log; `none` is its error.
unfoldable pub poll_session_output : PollLog → Bytes → Bytes → Option (List OutputEvent × Bytes)
unfolding filter_by_session output_events
poll_session_output poll_log session_id cursor =
    elim (poll_log (filter_by_session session_id ∷ []) cursor) [
      | none ↦ none
      | some (entries, new_cursor) ↦
          some (output_events entries, if same new_cursor [] then cursor else new_cursor)
    ]

abbrev pub max_int64 : ℕ
max_int64 = 9223372036854775807

-- `-n` for the absolute value n of a negative number, which is cut to the smallest one.
unfoldable pub negated : ℕ → ExitCode
negated zero = pos 0
negated (suc n) = neg (min n max_int64)

-- The value of `strconv.Atoi`, beside an error too.
unfoldable pub atoi : Bytes → ExitCode
unfolding negated parse_uint_value
atoi [] = pos 0
atoi (c ∷ s) =
    if c == b'-'
    then negated (parse_uint_value s)
    else if c == b'+'
    then pos (min (parse_uint_value s) max_int64)
    else pos (min (parse_uint_value (c ∷ s)) max_int64)

pub data FollowResult : Type 0 where
  follow_completed follow_timed_out follow_cancelled follow_output_limit follow_killed :
      FollowResult

unfoldable pub recorded_exit_code : EventRecord → ExitCode
unfolding field atoi
recorded_exit_code e = atoi (field field_exit_code e)

unfoldable pub is_exited : EventRecord → Bool
unfolding field same
is_exited e = same (field field_event e) event_exited

-- `FollowSession` over what `Follow` yields until its context ends, by its deadline or not: the lines
-- that are printed, and what is returned. The limit 0 is none.
unfoldable pub follow_session :
    ℕ → ℕ → Bool → List EventRecord → List Bytes × ExitCode × FollowResult
unfolding is_exited is_output recorded_exit_code
follow_session limit output_bytes deadline [] =
    ([], pos 0, if deadline then follow_timed_out else follow_cancelled)
follow_session limit output_bytes deadline (e ∷ es) =
    let total = output_bytes + (length e.message + 1) in
    let (printed, code, result) = follow_session limit total deadline es in
    let quiet = follow_session limit output_bytes deadline es in
    if is_exited e
    then ([], recorded_exit_code e, follow_completed)
    else if not (is_output e)
    then quiet
    else if ltb 0 limit && ltb limit total
    then (e.message ∷ [], pos 0, follow_output_limit)
    else (e.message ∷ printed, code, result)
