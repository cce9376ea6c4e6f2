-- ===== src/Tests/Journal.antt =====
-- internal/journal at concrete events.
use swash.Prelude.{
  ℕ, ◌≡◌, refl, true, false, some, List, [], ◌∷◌, ◌++◌, arith, length, drop, select, Bytes, codes,
  same, join, Fields, find, put, copy, format_uint,
}
use swash.Journal.{
  EventRecord, EventFilter, Entry, field_session, filter_by_session, filter_by_event, emit_started,
  emit_session_event, write_output, matches_filters,
}
use swash.Journal.Fake.{FakeJournal, last_cursor, poll, Follower, follow_run}
use swash.Journal.Fake.Resume.{IsNumbered, poll_resume}
use swash.Journal.Fake.Following.{follow_run-select}
use swash.Journal.Ownership.{find-emit_session_event, matches_filters-emit_session_event}

abbrev command : List Bytes
command = codes "make" ∷ codes "-j8" ∷ []

-- Tags that try to pass for another session's event.
abbrev tags : Fields
tags = (field_session, codes "OTHER1") ∷ (codes "CI", codes "1") ∷ []

abbrev output : Bytes → Entry
output text = record { message = text; fields = (field_session, codes "KXO284") ∷ [] }

abbrev noise : Entry
noise = record { message = codes "noise"; fields = [] }

abbrev numbered : ℕ → Bytes → Entry → EventRecord
numbered n at e = record { cursor = at; timestamp = n; message = e.message; fields = e.fields }

abbrev journal : List EventRecord → FakeJournal
journal es = record { entries = es; cursor = length es; closed = false }

abbrev old_entries : List EventRecord
old_entries = numbered 7 (codes "1") (output (codes "a")) ∷ numbered 8 (codes "2") noise ∷ []

abbrev new_entries : List EventRecord
new_entries = numbered 9 (codes "3") noise ∷ numbered 10 (codes "4") (output (codes "b")) ∷ []

abbrev filters : List EventFilter
filters = record { field = field_session; value = codes "KXO284" } ∷ []

new-IsNumbered : IsNumbered (journal (old_entries ++ new_entries))
unfolding format_uint
new-IsNumbered = record {
  numbered = (refl, (refl, (refl, (refl, tt))));
  counted = refl;
  bounded = omega arith;
}

started_session :
    find field_session (emit_started (codes "KXO284") command tags).fields ≡ some (codes "KXO284")
unfolding emit_started find put copy same join
started_session = refl

-- An extra field named FD replaces the number of the descriptor.
output_fd :
    find (codes "FD") (write_output 2 (codes "x") ((codes "FD", codes "9") ∷ [])).fields
    ≡ some (codes "9")
unfolding write_output find put copy same
output_fd = refl

poll_all :
    poll filters [] (journal (old_entries ++ new_entries))
    ≡ some (
      numbered 7 (codes "1") (output (codes "a"))
          ∷ numbered 10 (codes "4") (output (codes "b"))
          ∷ [],
      codes "4",
    )
unfolding poll find same matches_filters
poll_all = refl

find-emit_session_event_example :
    find field_session (emit_session_event (codes "KXO284") (codes "done") [] tags).fields
    ≡ some (codes "KXO284")
unfolding same
find-emit_session_event_example =
    find-emit_session_event (codes "KXO284") (codes "done") [] tags field_session

matches_filters-emit_session_event_example :
    matches_filters
      (record {
        cursor = [];
        timestamp = 0;
        message = (emit_session_event (codes "KXO284") (codes "done") [] tags).message;
        fields = (emit_session_event (codes "KXO284") (codes "done") [] tags).fields;
      })
      (filter_by_session (codes "OTHER1") ∷ filter_by_event (codes "done") ∷ [])
    ≡ false
unfolding same
matches_filters-emit_session_event_example =
    matches_filters-emit_session_event (codes "KXO284") (codes "done") [] tags (codes "OTHER1")
      (codes "done")

poll_resume_example :
    poll filters (codes "1") (journal (old_entries ++ new_entries))
    ≡ some (numbered 10 (codes "4") (output (codes "b")) ∷ [], codes "4")
unfolding matches_filters find same last_cursor poll
poll_resume_example =
    poll_resume filters [] (codes "1") (journal old_entries) (journal (old_entries ++ new_entries))
      (numbered 7 (codes "1") (output (codes "a")) ∷ []) new_entries new-IsNumbered refl refl
      (λ e. ground arith) refl

abbrev looks : List FakeJournal
looks =
    journal old_entries
    ∷ journal old_entries
    ∷ journal old_entries
    ∷ journal old_entries
    ∷ journal (old_entries ++ new_entries)
    ∷ journal (old_entries ++ new_entries)
    ∷ []

abbrev fresh : Follower
fresh = record { idx = 0; at_top = true; returned = false }

follow_run-select_example :
    let (w, yielded) = follow_run filters looks fresh in
    yielded ++ select (λ e. matches_filters e filters) (drop w.idx (old_entries ++ new_entries))
    ≡ select (λ e. matches_filters e filters) (old_entries ++ new_entries)
follow_run-select_example =
    follow_run-select filters (journal old_entries) looks fresh (
      ([], refl),
      (([], refl), (([], refl), (([], refl), ((new_entries, refl), (([], refl), tt))))),
    )
