-- ===== src/JournalFile/Writer.antt =====
-- pkg/journalfile/journal.go: the writer of a journal file. The mutex and the lock on the file make
-- each method one step; `none` is an error.
pub mod Data
pub mod Arrays
pub mod Entry
pub mod Invariant
use swash.Prelude.{
  ℕ, zero, suc, ◌+◌, ◌-◌, ◌*◌, ◌/◌, ◌%◌, ◌^◌, ◌≤◌, ◌<◌, min, max, ◌≡◌, refl, sym, ap, ◌∙◌, fun_ext,
  subst, ◌≢◌, ◌↔◌, ◌⊎◌, inl, inr, Bool, true, false, not, ◌&&◌, ◌||◌, Option, none, some, List, [],
  ◌∷◌, ◌++◌, map, append_assoc, append-nil, arith, ltb, leb, ◌==◌, if◌then◌else◌, ltb→lt, lt→ltb,
  ==_iff, Bool-cases, Option-cases, length, get_elem?, take, drop, replicate, select, length-append,
  length-replicate, length-drop, drop-append, take-append, select-append, All, All-append, Bytes,
  codes, Lacks, same, same_iff, same_refl, has_prefix, cut_prefix, cut_prefix-append, trim_prefix,
  cut, cut-append, split, cons_head, join, join_rest, split_view, split-append, split-Lacks,
  split-ne-nil, join-split, split-join, split-All-Lacks, Map, Fields, or_else, find, put, remove,
  copy, find-put, find-remove, find-copy, find-copy_nil, map_laws, ◌>>=◌, max_uint64, format_uint,
  parse_uint, parse_uint-format_uint, format_uint-Lacks, format_uint-injective, format_uint-ne-nil,
  parse_uint_value, parse_uint_value-format_uint,
}
use swash.JournalFile.Objects.{
  DataObject, FieldObject, EntryItem, EntryObject, EntryArrayObject, Object, data_object,
  field_object, entry_object, entry_array_object, object_size, HashItem, State, state_offline,
  state_online, Header, Disk, set_at, align64, next_offset, add_object, put_object, read_data,
  read_field, read_entry_object, read_entry_array,
}

-- `File`.
pub record File : Type 0 where
  pub header : Header
  pub disk : Disk
  pub boot_id : Bytes
  pub data_hash_table : ℕ → HashItem
  pub field_hash_table : ℕ → HashItem
  pub data_cache : ℕ → Option ℕ
  pub field_cache : ℕ → Option ℕ
  pub dirty : Bool

abbrev empty_item : HashItem
empty_item = record { head_hash_offset = 0; tail_hash_offset = 0 }

-- The header that `initialize` writes, for hash tables of `DefaultDataHashTableSize` and
-- `DefaultFieldHashTableSize` items.
unfoldable pub initial_header : Bytes → Header
initial_header file_id = record {
  state = state_offline;
  file_id = file_id;
  arena_size = 16 + 2047 * 16 + (16 + 333 * 16);
  data_hash_table_items = 2047;
  field_hash_table_items = 333;
  tail_object_offset = 272 + (16 + 2047 * 16);
  n_objects = 2;
  n_entries = 0;
  tail_entry_seqnum = 0;
  head_entry_seqnum = 0;
  entry_array_offset = 0;
  head_entry_realtime = 0;
  tail_entry_realtime = 0;
  tail_entry_monotonic = 0;
  tail_entry_boot_id = [];
  n_data = 0;
  n_fields = 0;
  n_entry_arrays = 0;
  tail_entry_array_offset = 0;
  tail_entry_array_n_entries = 0;
  tail_entry_offset = 0;
}

-- `Create` and `initialize`.
unfoldable pub create_file : Bytes → Bytes → File
unfolding initial_header
create_file file_id boot_id = record {
  header = initial_header file_id;
  disk = record {
    objects = λ offset. none;
    size = 272 + (16 + 2047 * 16) + (16 + 333 * 16);
    header = initial_header file_id;
    data_hash_table = λ i. empty_item;
    field_hash_table = λ i. empty_item;
  };
  boot_id = boot_id;
  data_hash_table = λ i. empty_item;
  field_hash_table = λ i. empty_item;
  data_cache = λ hash. none;
  field_cache = λ hash. none;
  dirty = false;
}

-- `OpenAppend`, with the boot id that it makes up.
unfoldable pub open_append : Bytes → Disk → File
open_append boot_id disk = record {
  header = disk.header;
  disk = disk;
  boot_id = boot_id;
  data_hash_table = disk.data_hash_table;
  field_hash_table = disk.field_hash_table;
  data_cache = λ hash. none;
  field_cache = λ hash. none;
  dirty = false;
}

-- `beginWrite`: the state byte alone goes to the disk.
unfoldable pub begin_write : File → File
begin_write f = elim f.header.state [
  | state_online ↦ f
  | state_offline ↦ record f {
    header = record f.header { state = state_online };
    disk = record f.disk { header = record f.disk.header { state = state_online } };
  }
]

-- `syncHeader`.
unfoldable pub sync_header : File → File
sync_header f = record f { disk = record f.disk { header = f.header } }

-- `syncLocked`, which `Sync` and `Close` call; the flag of `beginWrite` goes back off before anyone
-- could read it.
unfoldable pub sync_file : File → File
unfolding begin_write sync_header
sync_file f =
    if not f.dirty
    then f
    else let g = begin_write f in
      let done = sync_header (record g {
        header = record g.header { arena_size = g.disk.size - 272; state = state_offline };
      }) in
      record done { dirty = false }
