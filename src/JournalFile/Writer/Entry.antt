-- ===== src/JournalFile/Writer/Entry.antt =====
-- pkg/journalfile/journal.go: an entry, its objects and its place in the chain of all entries. The
-- fields come in the order in which the map gives them.
pub mod Appended
pub mod Many
pub mod Kept
pub mod Placed
use swash.Prelude.{
  ℕ, ◌+◌, ◌-◌, ◌%◌, true, Option, some, List, [], ◌∷◌, ◌++◌, ◌==◌, if◌then◌else◌, Bytes, Fields,
  ◌>>=◌,
}
use swash.JournalFile.Objects.{
  EntryItem, EntryObject, entry_object, entry_array_object, Header, Disk, next_offset, add_object,
  put_object, read_entry_array,
}
use swash.JournalFile.Lookup3.{jenkins_hash64}
use swash.JournalFile.Writer.{File, begin_write}
use swash.JournalFile.Writer.Data.{data_offset}
use swash.JournalFile.Writer.Arrays.{link_items}
use Prim.Native.Nat.{bit_xor}

-- An entry to append, with the times that the clock gives.
pub record NewEntry : Type 0 where
  pub fields : Fields
  pub realtime : ℕ
  pub monotonic : ℕ

-- `[]byte(k + "=" + v)`.
unfoldable pub field_data : Bytes × Bytes → Bytes
field_data (k, v) = k ++ b'=' ∷ v

unfoldable pub set_next_array : ℕ → ℕ → Disk → Option Disk
unfolding read_entry_array put_object
set_next_array tail offset d =
    if tail == 0
    then some d
    else (read_entry_array tail d >>= λ a.
        some
          (put_object tail (entry_array_object (record a { next_entry_array_offset = offset })) d))

-- `appendEntryArray`.
unfoldable pub append_entry_array : ℕ → ℕ → File → Option (ℕ × File)
unfolding next_offset add_object set_next_array
append_entry_array prev_tail entry_offset f =
    let offset = next_offset f.disk in
    let added =
      add_object
        (entry_array_object (record { next_entry_array_offset = 0; items = entry_offset ∷ [] }))
        f.disk in
    set_next_array prev_tail offset added >>= λ d. some (offset, record f { disk = d })

-- What `appendEntryObject` changes in the header behind the writes.
unfoldable pub count_entry : EntryObject → ℕ → ℕ → ℕ → Header → Header
count_entry e entry_offset array_offset size h = record h {
  n_objects = h.n_objects + 2;
  n_entry_arrays = h.n_entry_arrays + 1;
  entry_array_offset = if h.entry_array_offset == 0 then array_offset else h.entry_array_offset;
  tail_entry_array_offset = array_offset % 4294967296;
  tail_entry_array_n_entries = 1;
  tail_object_offset = array_offset;
  n_entries = h.n_entries + 1;
  tail_entry_offset = entry_offset;
  tail_entry_boot_id = e.boot_id;
  tail_entry_realtime = e.realtime;
  tail_entry_monotonic = e.monotonic;
  head_entry_seqnum = if h.head_entry_seqnum == 0 then e.seqnum else h.head_entry_seqnum;
  head_entry_realtime = if h.head_entry_seqnum == 0 then e.realtime else h.head_entry_realtime;
  arena_size = size - 272;
}

-- `appendEntryObject`.
unfoldable pub append_entry_object : ℕ → ℕ → ℕ → List EntryItem → File → Option File
unfolding next_offset add_object link_items append_entry_array count_entry
append_entry_object realtime monotonic xor_hash items f =
    let offset = next_offset f.disk in
    let seqnum = f.header.tail_entry_seqnum + 1 in
    let e : EntryObject = record {
      seqnum = seqnum;
      realtime = realtime;
      monotonic = monotonic;
      boot_id = f.boot_id;
      xor_hash = xor_hash;
      items = items;
    } in
    let written = record f {
      header = record f.header { tail_entry_seqnum = seqnum };
      disk = add_object (entry_object e) f.disk;
    } in
    link_items items offset written >>= λ linked.
    (append_entry_array linked.header.tail_entry_array_offset offset linked >>= λ (array, g).
    some (record g { header = count_entry e offset array g.disk.size g.header; dirty = true }))

module _ (sip_hash24 : Bytes → Bytes → ℕ) where
  -- The loop over the fields in `AppendEntry`: the items and the XOR of the Jenkins hashes.
  unfoldable pub entry_items : Fields → File → Option (List EntryItem × ℕ × File)
  unfolding field_data data_offset jenkins_hash64
  entry_items [] f = some ([], 0, f)
  entry_items (field ∷ fields) f =
      let payload = field_data field in
      let hash = sip_hash24 payload f.header.file_id in
      data_offset sip_hash24 payload hash f >>= λ (offset, g).
      (entry_items fields g >>= λ (items, xor_hash, h). some (
        record { object_offset = offset; hash = hash } ∷ items,
        bit_xor (jenkins_hash64 payload) xor_hash,
        h,
      ))

  -- `AppendEntry`.
  unfoldable pub append_entry : NewEntry → File → Option File
  unfolding begin_write entry_items append_entry_object
  append_entry e f =
      entry_items e.fields (record (begin_write f) { dirty = true }) >>= λ (items, xor_hash, g).
      append_entry_object e.realtime e.monotonic xor_hash items g

  -- One append after another.
  unfoldable pub append_entries : List NewEntry → File → Option File
  unfolding append_entry
  append_entries [] f = some f
  append_entries (e ∷ es) f = append_entry e f >>= λ g. append_entries es g
