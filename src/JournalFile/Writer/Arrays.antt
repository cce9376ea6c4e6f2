-- ===== src/JournalFile/Writer/Arrays.antt =====
-- pkg/journalfile/journal.go: the entries of a data object, the first in the object and the others in
-- a chain of entry arrays.
pub mod Kept
use swash.Prelude.{
  ℕ, zero, suc, ◌+◌, Option, none, some, List, [], ◌∷◌, ◌==◌, if◌then◌else◌, replicate, ◌>>=◌,
}
use swash.JournalFile.Objects.{
  DataObject, EntryItem, EntryArrayObject, data_object, entry_array_object, next_offset, add_object,
  put_object, read_data, read_entry_array,
}
use swash.JournalFile.Writer.{File}

-- `createEntryArray`: sixteen slots with the first one taken.
unfoldable pub create_entry_array : ℕ → File → ℕ × File
unfolding next_offset add_object
create_entry_array entry_offset f =
    let offset = next_offset f.disk in
    (
      offset,
      record f {
        disk =
            add_object
              (entry_array_object
                (record { next_entry_array_offset = 0; items = entry_offset ∷ replicate 15 0 }))
              f.disk;
        header = record f.header {
          n_objects = f.header.n_objects + 1;
          n_entry_arrays = f.header.n_entry_arrays + 1;
          tail_object_offset = offset;
        };
      },
    )

-- The items with the entry in the first free slot, if there is one.
unfoldable pub fill_slot : ℕ → List ℕ → Option (List ℕ)
fill_slot entry_offset [] = none
fill_slot entry_offset (i ∷ items) =
    if i == 0
    then some (entry_offset ∷ items)
    else (fill_slot entry_offset items >>= λ rest. some (i ∷ rest))

-- The last array of a chain: the entry in a free slot, or in a new array behind it.
unfoldable pub extend_array : ℕ → ℕ → EntryArrayObject → File → File
unfolding fill_slot put_object create_entry_array
extend_array offset entry_offset a f = elim (fill_slot entry_offset a.items) [
  | some items ↦ record f {
    disk = put_object offset (entry_array_object (record a { items = items })) f.disk;
  }
  | none ↦
      let (new_offset, g) = create_entry_array entry_offset f in
      record g {
        disk =
            put_object offset
              (entry_array_object (record a { next_entry_array_offset = new_offset })) g.disk;
      }
]

-- The loop of `appendToEntryArray`. Arrays link forward, so the length of the file is enough fuel.
unfoldable pub append_to_entry_array : ℕ → ℕ → ℕ → File → Option File
unfolding read_entry_array extend_array
append_to_entry_array zero offset entry_offset f = none
append_to_entry_array (suc fuel) offset entry_offset f = read_entry_array offset f.disk >>= λ a.
    (let next = append_to_entry_array fuel a.next_entry_array_offset entry_offset f in
      if a.next_entry_array_offset == 0 then some (extend_array offset entry_offset a f) else next)

-- `linkDataToEntry`: what becomes of the entry fields of a data object.
unfoldable pub entry_info : DataObject → ℕ → File → Option (DataObject × File)
unfolding create_entry_array append_to_entry_array
entry_info x entry_offset f =
    if x.entry_offset == 0
    then some (record x { entry_offset = entry_offset; n_entries = x.n_entries + 1 }, f)
    else if x.entry_array_offset == 0
    then (let (array, g) = create_entry_array entry_offset f in
        some (record x { entry_array_offset = array; n_entries = x.n_entries + 1 }, g))
    else (append_to_entry_array f.disk.size x.entry_array_offset entry_offset f >>= λ g.
        some (record x { n_entries = x.n_entries + 1 }, g))

unfoldable pub link_data_to_entry : ℕ → ℕ → File → Option File
unfolding read_data entry_info put_object
link_data_to_entry data_offset entry_offset f = read_data data_offset f.disk >>= λ x.
    (entry_info x entry_offset f >>= λ (y, g).
    some (record g { disk = put_object data_offset (data_object y) g.disk }))

-- The loop over the items in `appendEntryObject`.
unfoldable pub link_items : List EntryItem → ℕ → File → Option File
unfolding link_data_to_entry
link_items [] entry_offset f = some f
link_items (item ∷ items) entry_offset f =
    link_data_to_entry item.object_offset entry_offset f >>= λ g. link_items items entry_offset g
