-- ===== src/Journal/Fake.antt =====
-- internal/journal/fake.go: the event log in memory. The lock makes every method one step; the time
-- of a write is an argument, and a copy of an entry is the entry.
use swash.Prelude.{
  ℕ, ◌+◌, ◌-◌, Bool, true, false, Option, none, some, List, [], ◌∷◌, ◌++◌, ◌==◌, if◌then◌else◌,
  length, get_elem?, select, Bytes, same, format_uint,
}
pub mod Resume
pub mod Following
use swash.Journal.{EventRecord, EventFilter, Entry, matches_filters}

pub record FakeJournal : Type 0 where
  pub entries : List EventRecord
  pub cursor : ℕ
  pub closed : Bool

unfoldable pub new_fake_journal : FakeJournal
new_fake_journal = record { entries = []; cursor = 0; closed = false }

-- `writeEntry`; `none` is the error "journal closed".
unfoldable pub write_entry : ℕ → Entry → FakeJournal → Option FakeJournal
write_entry now e f =
    if f.closed
    then none
    else some (record f {
      cursor = f.cursor + 1;
      entries =
          f.entries
          ++ record {
            cursor = format_uint (f.cursor + 1);
            timestamp = now;
            message = e.message;
            fields = e.fields;
          }
            ∷ [];
    })

-- `AddEntry`; the time 0 is Go's zero time.
unfoldable pub add_entry : ℕ → EventRecord → FakeJournal → FakeJournal
unfolding same
add_entry now e f =
    let c = if same e.cursor [] then format_uint (f.cursor + 1) else e.cursor in
    let t = if e.timestamp == 0 then now else e.timestamp in
    record f {
      cursor = f.cursor + 1;
      entries = f.entries ++ record e { cursor = c; timestamp = t } ∷ [];
    }

-- The entries behind the first one with the cursor.
unfoldable pub after_cursor : Bytes → List EventRecord → Option (List EventRecord)
unfolding same
after_cursor c [] = none
after_cursor c (e ∷ es) = if same e.cursor c then some es else after_cursor c es

-- `f.entries[startIdx:]`: everything for the empty cursor and for one that is not found.
unfoldable pub from_cursor : Bytes → List EventRecord → List EventRecord
unfolding after_cursor
from_cursor [] es = es
from_cursor (c ∷ cs) es = elim (after_cursor (c ∷ cs) es) [ none ↦ es | some rest ↦ rest ]

-- `lastCursor` after the loop of `Poll` over the entries that it returns.
unfoldable pub last_cursor : Bytes → List EventRecord → Bytes
last_cursor c [] = c
last_cursor c (e ∷ es) = last_cursor e.cursor es

-- `Poll`: the matching entries and the cursor of the last one; `none` for a closed journal.
unfoldable pub poll : List EventFilter → Bytes → FakeJournal → Option (List EventRecord × Bytes)
unfolding from_cursor last_cursor
poll filters c f =
    let result = select (λ e. matches_filters e filters) (from_cursor c f.entries) in
    if f.closed then none else some (result, last_cursor [] result)

unfoldable pub close : FakeJournal → FakeJournal
close f = record f { closed = true }

unfoldable pub clear : FakeJournal → FakeJournal
clear f = record f { entries = []; cursor = 0 }

-- An iterator of `Follow`: the next index, whether it is at the top of the outer loop, and whether it
-- has returned.
pub record Follower : Type 0 where
  pub idx : ℕ
  pub at_top : Bool
  pub returned : Bool

-- The index behind the cursor, 0 if there is none.
unfoldable pub index_after : Bytes → List EventRecord → ℕ
index_after c es = length es - length (from_cursor c es)

unfoldable pub follow : Bytes → FakeJournal → Follower
unfolding index_after from_cursor
follow c f = record { idx = index_after c f.entries; at_top = true; returned = false }

-- One test of a loop of `Follow`, on the journal as it is then, and the entries that it yields: the
-- outer loop looks whether the journal is closed, the inner one takes the next entry or goes back
-- to sleep.
unfoldable pub follow_step : List EventFilter → FakeJournal → Follower → Follower × List EventRecord
follow_step filters f w =
    if w.returned
    then (w, [])
    else if w.at_top
    then (if f.closed then record w { returned = true } else record w { at_top = false }, [])
    else elim (get_elem? f.entries w.idx) [
      | none ↦ (record w { at_top = true }, [])
      | some e ↦ (record w { idx = w.idx + 1 }, if matches_filters e filters then e ∷ [] else [])
    ]

-- The tests of the loops see one journal after another.
unfoldable pub follow_run :
    List EventFilter → List FakeJournal → Follower → Follower × List EventRecord
unfolding follow_step
follow_run filters [] w = (w, [])
follow_run filters (f ∷ fs) w =
    let (w', now) = follow_step filters f w in
    let (w'', later) = follow_run filters fs w' in (w'', now ++ later)
