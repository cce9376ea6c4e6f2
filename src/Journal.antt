-- ===== src/Journal.antt =====
-- internal/journal: events and their fields (types.go).
pub mod Socket
pub mod Fake
pub mod Combined
pub mod Ownership
use swash.Prelude.{
  ℕ, zero, suc, ◌+◌, ◌-◌, ◌*◌, ◌/◌, ◌%◌, ◌^◌, ◌≤◌, ◌<◌, min, max, ◌≡◌, refl, sym, ap, ◌∙◌, fun_ext,
  subst, ◌≢◌, ◌↔◌, ◌⊎◌, inl, inr, Bool, true, false, not, ◌&&◌, ◌||◌, Option, none, some, List, [],
  ◌∷◌, ◌++◌, map, append_assoc, append-nil, arith, ltb, leb, ◌==◌, if◌then◌else◌, ltb→lt, lt→ltb,
  ==_iff, Bool-cases, Option-cases, length, get_elem?, take, drop, replicate, select, length-append,
  length-replicate, length-drop, drop-append, select-append, All, All-append, Bytes, codes, Lacks,
  same, same_iff, same_refl, has_prefix, cut_prefix, cut_prefix-append, trim_prefix, cut,
  cut-append, split, cons_head, join, join_rest, split_view, split-append, split-Lacks,
  split-ne-nil, join-split, split-join, split-All-Lacks, Map, Fields, or_else, find, put, remove,
  copy, find-put, find-remove, find-copy, map_laws, max_uint64, format_uint, parse_uint,
  parse_uint-format_uint, format_uint-Lacks,
}

pub record EventRecord : Type 0 where
  pub cursor : Bytes
  pub timestamp : ℕ
  pub message : Bytes
  pub fields : Fields

pub record EventFilter : Type 0 where
  pub field : Bytes
  pub value : Bytes

abbrev pub event_started : Bytes
event_started = codes "started"

abbrev pub event_exited : Bytes
event_exited = codes "exited"

abbrev pub event_screen : Bytes
event_screen = codes "screen"

abbrev pub event_stats : Bytes
event_stats = codes "stats"

abbrev pub field_event : Bytes
field_event = codes "SWASH_EVENT"

abbrev pub field_session : Bytes
field_session = codes "SWASH_SESSION"

abbrev pub field_command : Bytes
field_command = codes "SWASH_COMMAND"

abbrev pub field_exit_code : Bytes
field_exit_code = codes "SWASH_EXIT_CODE"

abbrev pub field_stats : Bytes
field_stats = codes "SWASH_STATS"

unfoldable pub filter_by_session : Bytes → EventFilter
filter_by_session session_id = record { field = field_session; value = session_id }

unfoldable pub filter_by_event : Bytes → EventFilter
filter_by_event kind = record { field = field_event; value = kind }

-- What a helper hands to `log.Write` or `log.WriteSync`.
pub record Entry : Type 0 where
  pub message : Bytes
  pub fields : Fields

-- `EmitStarted`.
unfoldable pub emit_started : Bytes → List Bytes → Fields → Entry
emit_started session_id command tags =
    let fields = copy [] tags in
    let fields = put fields field_event event_started in
    let fields = put fields field_session session_id in
    record {
      message = codes "Session started";
      fields = put fields field_command (join (codes " ") command);
    }

-- `strconv.Itoa`: an exit code may be negative, -1 for a process that was killed by a signal.
pub data ExitCode : Type 0 where
  pos : ℕ → ExitCode
  neg : ℕ → ExitCode

unfoldable pub itoa : ExitCode → Bytes
itoa (pos n) = format_uint n
itoa (neg n) = b'-' ∷ format_uint (n + 1)

-- `EmitExited`.
unfoldable pub emit_exited : Bytes → ExitCode → List Bytes → Fields → Entry
unfolding itoa
emit_exited session_id exit_code command tags =
    let fields = copy [] tags in
    let fields = put fields field_event event_exited in
    let fields = put fields field_session session_id in
    let fields = put fields field_exit_code (itoa exit_code) in
    record {
      message = codes "Session exited";
      fields = put fields field_command (join (codes " ") command);
    }

-- `WriteOutput`.
unfoldable pub write_output : ℕ → Bytes → Fields → Entry
write_output fd text extra_fields = record {
  message = text;
  fields = copy ((codes "FD", format_uint fd) ∷ []) extra_fields;
}

-- `EmitScreen`.
unfoldable pub emit_screen : Bytes → Bytes → ℕ → ℕ → Entry
emit_screen session_id screen_text rows cols = record {
  message = screen_text;
  fields =
      (field_event, event_screen)
      ∷ (field_session, session_id)
      ∷ (codes "ROWS", format_uint rows)
      ∷ (codes "COLS", format_uint cols)
      ∷ [];
}

-- `EmitSessionEvent`.
unfoldable pub emit_session_event : Bytes → Bytes → Bytes → Fields → Entry
emit_session_event session_id event message extra_fields =
    let fields = copy [] extra_fields in
    let fields = put fields field_event event in
    record { message = message; fields = put fields field_session session_id }

-- `matchesFilters` of fake.go: every filter's field is there with the filter's value.
unfoldable pub matches_filters : EventRecord → List EventFilter → Bool
matches_filters entry [] = true
matches_filters entry (m ∷ ms) = elim (find m.field entry.fields) [
  | none ↦ false
  | some value ↦ same value m.value && matches_filters entry ms
]
