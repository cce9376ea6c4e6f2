-- ===== src/Tests/Posix.antt =====
-- internal/backend/posix/stub.go at a session with two lines of output that ends with a code.
use swash.Prelude.{
  ◌≡◌, refl, inl, inr, false, some, List, [], ◌∷◌, map, arith, Bytes, codes, same, join, Fields,
  find, put, copy, format_uint,
}
use swash.Journal.{
  EventRecord, neg, field_session, filter_by_session, itoa, emit_exited, matches_filters,
}
use swash.Journal.Fake.{FakeJournal, new_fake_journal}
use swash.Journal.Fake.Resume.{IsNumbered}
use swash.Journal.Fake.Following.{Growing}
use swash.Backend.Posix.{OutputEvent, field, is_output, output_of, output_events}
use swash.Backend.Posix.Written.{Written, line, no_line, AllWrote, shown, line_of}
use swash.Backend.Posix.Output.{polls, entries_of, polls-shown}

abbrev tags : Fields
tags = (field_session, codes "KXO284") ∷ []

abbrev line_at : Bytes → Bytes → Bytes → EventRecord
line_at at fd text = record {
  cursor = at;
  timestamp = 7;
  message = text;
  fields = (codes "FD", fd) ∷ tags;
}

abbrev exited : EventRecord
exited = record {
  cursor = codes "3";
  timestamp = 9;
  message = codes "Session exited";
  fields = (emit_exited (codes "KXO284") (neg 0) (codes "make" ∷ []) tags).fields;
}

abbrev one_line : FakeJournal
one_line = record {
  entries = line_at (codes "1") (codes "1") (codes "a") ∷ [];
  cursor = 1;
  closed = false;
}

abbrev all_lines : FakeJournal
all_lines = record {
  entries =
      line_at (codes "1") (codes "1") (codes "a")
      ∷ line_at (codes "2") (codes "2") (codes "b")
      ∷ exited
      ∷ [];
  cursor = 3;
  closed = false;
}

one_line-IsNumbered : IsNumbered one_line
unfolding format_uint
one_line-IsNumbered = record { numbered = (refl, tt); counted = refl; bounded = omega arith }

all_lines-IsNumbered : IsNumbered all_lines
unfolding format_uint
all_lines-IsNumbered = record {
  numbered = (refl, (refl, (refl, tt)));
  counted = refl;
  bounded = omega arith;
}

growing : Growing new_fake_journal (one_line ∷ all_lines ∷ [])
unfolding new_fake_journal
growing = ((_, refl), ((_, refl), tt))

abbrev writes : List Written
writes = line 1 (codes "a") ∷ line 2 (codes "b") ∷ no_line ∷ []

writes-AllWrote : AllWrote writes (entries_of (codes "KXO284") all_lines.entries)
unfolding same matches_filters filter_by_session emit_exited put copy itoa join find format_uint
writes-AllWrote = ((inl refl, refl, refl), ((inr refl, refl, refl), (refl, tt)))

polls-shown_example :
    (events : List OutputEvent) × (polls (codes "KXO284") [] (one_line ∷ all_lines ∷ [])
      ≡ some events)
    × (map line_of events ≡ shown writes)
polls-shown_example =
    polls-shown (codes "KXO284") (one_line ∷ all_lines ∷ []) writes growing
      ((one_line-IsNumbered, refl), ((all_lines-IsNumbered, refl), tt)) writes-AllWrote

length-output_events :
    map (λ e. e.text) (output_events (entries_of (codes "KXO284") all_lines.entries))
    ≡ codes "a" ∷ codes "b" ∷ []
unfolding output_events output_of is_output field find same matches_filters filter_by_session
    emit_exited put copy itoa join
length-output_events = refl
