-- ===== src/JournalFile/Reader.antt =====
-- pkg/journalfile/reader.go: the reader of a journal file. Its header is a copy, taken when it opens or
-- refreshes; the objects it reads from the file as that is now, which the writer may have changed.
pub mod Advance
pub mod Cursor
pub mod Drain
pub mod Entry
use swash.Prelude.{
  ℕ, zero, suc, ◌+◌, ◌-◌, ◌*◌, ◌/◌, ◌%◌, ◌^◌, ◌≤◌, ◌<◌, min, max, ◌≡◌, refl, sym, ap, ◌∙◌, fun_ext,
  subst, ◌≢◌, ◌↔◌, ◌⊎◌, inl, inr, Bool, true, false, not, ◌&&◌, ◌||◌, Option, none, some, List, [],
  ◌∷◌, ◌++◌, map, append_assoc, append-nil, arith, ltb, leb, ◌==◌, if◌then◌else◌, ltb→lt, lt→ltb,
  ==_iff, Bool-cases, Option-cases, length, get_elem?, take, drop, replicate, select, length-append,
  length-replicate, length-drop, drop-append, take-append, select-append, All, All-append, Bytes,
  codes, Lacks, same, same_iff, same_refl, has_prefix, cut_prefix, cut_prefix-append, trim_prefix,
  cut, cut-append, split, cons_head, join, join_rest, split_view, split-append, split-Lacks,
  split-ne-nil, join-split, split-join, split-All-Lacks, Map, Fields, or_else, find, put, remove,
  copy, find-put, find-remove, find-copy, find-copy_nil, map_laws, ◌>>=◌, max_uint64, format_uint,
  parse_uint, parse_uint-format_uint, format_uint-Lacks, format_uint-injective, format_uint-ne-nil,
  parse_uint_value, parse_uint_value-format_uint,
}
use swash.JournalFile.Objects.{
  DataObject, FieldObject, EntryItem, EntryObject, EntryArrayObject, Object, data_object,
  field_object, entry_object, entry_array_object, object_size, HashItem, State, state_offline,
  state_online, Header, Disk, set_at, align64, next_offset, add_object, put_object, read_data,
  read_field, read_entry_object, read_entry_array,
}

-- `Entry` of interface.go, with the time in microseconds.
pub record JournalEntry : Type 0 where
  pub seqnum : ℕ
  pub realtime : ℕ
  pub monotonic : ℕ
  pub boot_id : Bytes
  pub fields : Fields

-- `match`.
pub record Match : Type 0 where
  pub field : Bytes
  pub value : Bytes

pub record Reader : Type 0 where
  pub header : Header
  pub current_seqnum : ℕ
  pub entry_array_offset : ℕ
  pub entry_array_entries : List ℕ
  pub entry_array_index : ℕ
  pub next_entry_array_offset : ℕ
  pub iteration_initialized : Bool
  pub decoded_entries : ℕ
  pub matches : List Match

-- `OpenRead`, behind the test of the signature.
unfoldable pub open_read : Disk → Reader
open_read d = record {
  header = d.header;
  current_seqnum = 0;
  entry_array_offset = 0;
  entry_array_entries = [];
  entry_array_index = 0;
  next_entry_array_offset = 0;
  iteration_initialized = false;
  decoded_entries = 0;
  matches = [];
}

-- `Refresh`.
unfoldable pub refresh : Disk → Reader → Reader
refresh d r = record r { header = d.header }

unfoldable pub add_match : Bytes → Bytes → Reader → Reader
add_match field value r = record r {
  matches = r.matches ++ (record { field = field; value = value } ∷ []);
}

unfoldable pub flush_matches : Reader → Reader
flush_matches r = record r { matches = [] }

unfoldable pub reset_iteration : Reader → Reader
reset_iteration r = record r {
  entry_array_offset = 0;
  entry_array_entries = [];
  entry_array_index = 0;
  next_entry_array_offset = 0;
  iteration_initialized = false;
}

unfoldable pub seek_head : Reader → Reader
unfolding reset_iteration
seek_head r = reset_iteration (record r { current_seqnum = 0 })

-- `loadEntryArray`.
unfoldable pub load_entry_array : Disk → ℕ → Reader → Option Reader
unfolding read_entry_array
load_entry_array d offset r = read_entry_array offset d >>= λ a. some (record r {
  entry_array_offset = offset;
  entry_array_entries = a.items;
  entry_array_index = 0;
  next_entry_array_offset = a.next_entry_array_offset;
})

-- `readDataObject`: the text around the first `=`.
unfoldable pub read_data_object : Disk → ℕ → Option (Bytes × Bytes)
unfolding read_data cut
read_data_object d offset = read_data offset d >>= λ x. cut b'=' x.payload

-- The loop over the items in `readEntry`.
unfoldable pub read_items : Disk → List EntryItem → Fields → Option Fields
unfolding read_data_object put
read_items d [] fields = some fields
read_items d (item ∷ items) fields = read_data_object d item.object_offset >>= λ (key, value).
    read_items d items (put fields key value)

-- `readEntry`.
unfoldable pub read_entry : Disk → ℕ → Option JournalEntry
unfolding read_entry_object read_items
read_entry d offset = read_entry_object offset d >>= λ e.
    (read_items d e.items [] >>= λ fields. some (record {
      seqnum = e.seqnum;
      realtime = e.realtime;
      monotonic = e.monotonic;
      boot_id = e.boot_id;
      fields = fields;
    }))

-- What `Next` returns: an entry, `io.EOF` or another error.
pub data Answer : Type 0 where
  got : JournalEntry → Answer
  end_of_file failed : Answer

-- The slot at the reader's index, while there is one and it is taken.
unfoldable pub current_slot : Reader → ℕ
current_slot r = elim (get_elem? r.entry_array_entries r.entry_array_index) [
  | none ↦ 0
  | some offset ↦ offset
]

-- The inner loop of `nextEntry` at a taken slot: an entry, or on with the loop at one that was seen
-- before.
unfoldable pub read_slot : Disk → ℕ → Reader → Option Answer × Reader
unfolding read_entry
read_slot d offset r =
    let next = record r { entry_array_index = r.entry_array_index + 1 } in
    elim (read_entry d offset) [
      | none ↦ (some failed, next)
      | some e ↦
          let decoded = record next { decoded_entries = next.decoded_entries + 1 } in
          if leb e.seqnum r.current_seqnum
          then (none, decoded)
          else (some (got e), record decoded { current_seqnum = e.seqnum })
    ]

-- The next array of the chain.
unfoldable pub next_array : Disk → Reader → Option Answer × Reader
unfolding load_entry_array
next_array d r = elim (load_entry_array d r.next_entry_array_offset r) [
  | none ↦ (some failed, r)
  | some loaded ↦ (none, loaded)
]

-- The last array of the chain once more, at the slot where the reader was.
unfoldable pub reload_array : Disk → Reader → Option Answer × Reader
unfolding load_entry_array current_slot
reload_array d r = elim (load_entry_array d r.entry_array_offset r) [
  | none ↦ (some failed, r)
  | some loaded ↦
      let back = record loaded { entry_array_index = r.entry_array_index } in
      if current_slot back == 0 && (back.next_entry_array_offset == 0)
      then (some end_of_file, back)
      else (none, back)
]

-- One round of the loops of `nextEntry`: an answer, or on with the loop.
unfoldable pub advance : Disk → Reader → Option Answer × Reader
unfolding current_slot read_slot next_array reload_array
advance d r =
    if r.entry_array_offset == 0
    then (some end_of_file, r)
    else if not (current_slot r == 0)
    then read_slot d (current_slot r) r
    else if not (r.next_entry_array_offset == 0)
    then next_array d r
    else if ltb r.current_seqnum r.header.tail_entry_seqnum
    then reload_array d r
    else (some end_of_file, r)

-- The first array, before the first round.
unfoldable pub start_iteration : Disk → Reader → Option Answer × Reader
unfolding load_entry_array
start_iteration d r =
    let started = record r { iteration_initialized = true } in
    if r.iteration_initialized
    then (none, r)
    else if r.header.entry_array_offset == 0
    then (some end_of_file, started)
    else elim (load_entry_array d r.header.entry_array_offset started) [
      | none ↦ (some failed, started)
      | some loaded ↦ (none, loaded)
    ]

-- An answer ends the loop. Without one at the end of the fuel there is no result.
unfoldable pub answer_or :
    Option Answer × Reader → (Reader → Option (Answer × Reader)) → Option (Answer × Reader)
answer_or (some answer, r) more = some (answer, r)
answer_or (none, r) more = more r

unfoldable pub advance_all : ℕ → Disk → Reader → Option (Answer × Reader)
unfolding answer_or advance
advance_all zero d r = none
advance_all (suc fuel) d r = answer_or (advance d r) (advance_all fuel d)

-- `nextEntry`.
unfoldable pub next_entry : ℕ → Disk → Reader → Option (Answer × Reader)
unfolding answer_or start_iteration advance_all
next_entry fuel d r = answer_or (start_iteration d r) (advance_all fuel d)

-- `matchesEntry`: a field that is not there reads as the empty text.
unfoldable pub matches_entry : JournalEntry → List Match → Bool
unfolding find same
matches_entry e [] = true
matches_entry e (m ∷ matches) = elim (or_else (find m.field e.fields) (some [])) [
  | none ↦ false
  | some value ↦ same value m.value && matches_entry e matches
]

-- The loop of `Next`. Each round ends it or reads an entry, so as many rounds as the file has entries,
-- and one more, are enough.
unfoldable pub next_match :
    (Reader → Option (Answer × Reader)) → ℕ → Reader → Option (Answer × Reader)
unfolding matches_entry
next_match next_one zero r = none
next_match next_one (suc rounds) r = elim (next_one r) [
  | some (got e, after) ↦
      let rest = next_match next_one rounds after in
      if matches_entry e after.matches then some (got e, after) else rest
  | answer ↦ answer
]

-- `Next`.
unfoldable pub next : ℕ → ℕ → Disk → Reader → Option (Answer × Reader)
unfolding next_entry next_match
next rounds fuel d r = next_match (next_entry fuel d) rounds r
