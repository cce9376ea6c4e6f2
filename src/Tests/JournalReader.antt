-- ===== src/Tests/JournalReader.antt =====
-- pkg/journalfile: a file written and read at concrete entries.
use swash.Prelude.{
  ℕ, ◌+◌, ◌*◌, ◌≡◌, refl, sym, ◌∙◌, Option, none, some, List, [], ◌∷◌, ◌++◌, arith, length, drop,
  All, Bytes, codes, same, Fields,
}
use swash.JournalFile.Writer.{File, create_file, sync_file}
use swash.JournalFile.Writer.Arrays.Kept.{create_entry_array-Grown, append_to_entry_array-Grown}
use swash.JournalFile.Writer.Arrays.{create_entry_array, append_to_entry_array}
use swash.JournalFile.RoundTrip.{read_all-append_entries}
use swash.JournalFile.Reader.Entry.{Fresh}
use swash.JournalFile.Reader.Drain.{read_all}
use swash.JournalFile.Writer.Invariant.{NoClash, FileOk, Grown}
use swash.JournalFile.Writer.Entry.Kept.{FieldOk}
use swash.JournalFile.Writer.Entry.Appended.{logged_from, Holds}
use swash.JournalFile.Writer.Entry.Many.{StaysSmall, append_entries-Holds, create_file-Holds}
use swash.JournalFile.Writer.Entry.{NewEntry, field_data, append_entries}
use swash.JournalFile.Reader.{
  JournalEntry, Reader, open_read, Answer, got, end_of_file, failed, next_entry,
}
use swash.JournalFile.Reader.Cursor.{format_cursor, get_cursor, seek_cursor}

-- A hash that tells the texts of the tests apart.
abbrev sum_hash : Bytes → Bytes → ℕ
sum_hash [] id = 0
sum_hash (c ∷ s) id = c + 3 * sum_hash s id

abbrev boot : Bytes
boot = 1 ∷ 171 ∷ []

abbrev first_fields : Fields
first_fields = (codes "A", codes "1") ∷ (codes "B", codes "2") ∷ []

abbrev entries : List NewEntry
entries =
    record { fields = first_fields; realtime = 10; monotonic = 1 }
    ∷ record { fields = (codes "A", codes "1") ∷ []; realtime = 20; monotonic = 2 }
    ∷ record { fields = (codes "A", codes "1") ∷ []; realtime = 30; monotonic = 3 }
    ∷ []

abbrev written : Option File
written = append_entries sum_hash entries (create_file [] boot)

abbrev read_one : Option (Answer × Reader) → List ℕ
read_one (some (got e, r)) = e.seqnum ∷ e.realtime ∷ length e.fields ∷ []
read_one (some (end_of_file, r)) = 0 ∷ []
read_one (some (failed, r)) = 1 ∷ []
read_one none = 2 ∷ []

abbrev read_after : ℕ → Option File → List ℕ
read_after seqnum none = []
read_after seqnum (some f) =
    let d = (sync_file f).disk in
    read_one (next_entry 10 d (record (open_read d) { current_seqnum = seqnum }))

read_first : read_after 0 written ≡ 1 ∷ 10 ∷ 2 ∷ []
unfolding append_entries create_file next_entry open_read sync_file same
read_first = refl

read_last : read_after 2 written ≡ 3 ∷ 30 ∷ 1 ∷ []
unfolding append_entries create_file next_entry open_read sync_file same
read_last = refl

read_end : read_after 3 written ≡ 0 ∷ []
unfolding append_entries create_file next_entry open_read sync_file same
read_end = refl

abbrev some_entry : JournalEntry
some_entry = record {
  seqnum = 42;
  realtime = 7;
  monotonic = 3;
  boot_id = boot;
  fields = first_fields;
}

format_cursor_example : get_cursor some_entry ≡ codes "s=42;b=01ab"
unfolding get_cursor
format_cursor_example = refl

abbrev some_reader : Reader
some_reader = open_read (create_file [] boot).disk

-- One text alone is used.
abbrev Only : Bytes → Type 0
Only p = p ≡ codes "A=1"

abbrev one_field : NewEntry
one_field = record { fields = (codes "A", codes "1") ∷ []; realtime = 10; monotonic = 1 }

abbrev twice : List NewEntry
twice = one_field ∷ one_field ∷ []

abbrev new_file : File
new_file = create_file [] boot

Only-NoClash : NoClash sum_hash Only []
unfolding NoClash
Only-NoClash p q a b e = a ∙ sym b

twice_allowed : All (λ e. All (FieldOk sum_hash Only) e.fields) twice
unfolding FieldOk field_data
twice_allowed = (((refl, (omega arith, tt)), tt), (((refl, (omega arith, tt)), tt), tt))

twice_small : StaysSmall sum_hash twice new_file
unfolding StaysSmall create_file
twice_small = (omega arith, (omega arith, tt))

append_entries-Holds_example :
    (g : File) × (append_entries sum_hash twice new_file ≡ some g)
    × Holds sum_hash Only g ([] ++ logged_from 1 boot twice)
unfolding create_file
append_entries-Holds_example =
    append_entries-Holds sum_hash Only twice new_file [] Only-NoClash twice_allowed twice_small
      (create_file-Holds sum_hash Only [] boot)

-- A file with an array of a data object.
abbrev with_array : ℕ × File
with_array = create_entry_array 8 new_file

new_file_ok : FileOk sum_hash Only new_file
unfolding Holds
new_file_ok = (create_file-Holds sum_hash Only [] boot).0

append_to_entry_array-Grown_example :
    (g : File) × (append_to_entry_array with_array.1.disk.size with_array.0 16 with_array.1
      ≡ some g)
    × Grown sum_hash Only with_array.1 g
unfolding Grown
append_to_entry_array-Grown_example =
    append_to_entry_array-Grown sum_hash Only with_array.1.disk.size with_array.0 16 with_array.1
      (omega arith) (create_entry_array-Grown sum_hash Only 8 new_file new_file_ok).1
      (create_entry_array-Grown sum_hash Only 8 new_file new_file_ok).0.2

twice-Fresh : All (λ e. Fresh [] e.fields) twice
unfolding Fresh
twice-Fresh = ((refl, (omega arith, tt), tt), ((refl, (omega arith, tt), tt), tt))

read_all-append_entries_example :
    (f : File) × (r : Reader) × (append_entries sum_hash twice new_file ≡ some f)
    × (seek_cursor (format_cursor 1 boot) (open_read (sync_file f).disk) ≡ some r)
    × (read_all 3 5 (sync_file f).disk r ≡ some (drop 1 (logged_from 1 boot twice)))
read_all-append_entries_example =
    read_all-append_entries sum_hash Only twice [] boot boot 1 3 5 Only-NoClash twice_allowed
      twice-Fresh twice_small (omega arith) (omega arith) (omega arith)
