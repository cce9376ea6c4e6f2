-- ===== src/JournalFile/Writer/Data.antt =====
-- pkg/journalfile/journal.go: data and field objects, and the hash tables that hold them.
pub mod Kept
use swash.Prelude.{ℕ, ◌+◌, ◌%◌, Option, none, some, ◌==◌, if◌then◌else◌, Bytes, cut, ◌>>=◌}
use swash.JournalFile.Objects.{
  DataObject, FieldObject, data_object, field_object, HashItem, Disk, set_at, next_offset,
  add_object, put_object, read_data, read_field,
}
use swash.JournalFile.Writer.{File}

-- The item of a hash table with one more object at its end.
unfoldable pub link_item : ℕ → HashItem → HashItem
link_item offset item = record {
  head_hash_offset = if item.head_hash_offset == 0 then offset else item.head_hash_offset;
  tail_hash_offset = offset;
}

-- `linkFieldHash`, which leaves the previous object of the chain alone.
unfoldable pub link_field_hash : ℕ → ℕ → File → File
unfolding link_item set_at
link_field_hash offset i f =
    let item = link_item offset (f.field_hash_table i) in
    record f {
      field_hash_table = set_at f.field_hash_table i item;
      disk = record f.disk { field_hash_table = set_at f.disk.field_hash_table i item };
    }

unfoldable pub set_next_hash : ℕ → ℕ → Disk → Option Disk
unfolding read_data put_object
set_next_hash tail offset d =
    if tail == 0
    then some d
    else (read_data tail d >>= λ x.
        some (put_object tail (data_object (record x { next_hash_offset = offset })) d))

-- `linkDataHash`.
unfoldable pub link_data_hash : ℕ → ℕ → File → Option File
unfolding link_item set_at set_next_hash
link_data_hash offset i f =
    let item = link_item offset (f.data_hash_table i) in
    set_next_hash (f.data_hash_table i).tail_hash_offset offset f.disk >>= λ d. some (record f {
      data_hash_table = set_at f.data_hash_table i item;
      disk = record d { data_hash_table = set_at d.data_hash_table i item };
    })

-- `ensureField` for a name that is not in the cache.
unfoldable pub add_field : Bytes → ℕ → File → ℕ × File
unfolding add_object next_offset link_field_hash set_at
add_field name hash f =
    let offset = next_offset f.disk in
    let o : FieldObject = record {
      hash = hash;
      next_hash_offset = 0;
      head_data_offset = 0;
      name = name;
    } in
    let linked =
      link_field_hash offset (hash % f.header.field_hash_table_items)
        (record f { disk = add_object (field_object o) f.disk }) in
    (
      offset,
      record linked {
        field_cache = set_at linked.field_cache hash (some offset);
        header = record linked.header {
          n_objects = linked.header.n_objects + 1;
          n_fields = linked.header.n_fields + 1;
          tail_object_offset = offset;
        };
      },
    )

-- `ensureField`.
unfoldable pub ensure_field : Bytes → ℕ → File → ℕ × File
unfolding add_field
ensure_field name hash f = elim (f.field_cache hash) [
  | some offset ↦ (offset, f)
  | none ↦ add_field name hash f
]

-- `appendData` behind `ensureField`: the object, its place at the head of the field's list, its place
-- in the hash table and the header.
unfoldable pub add_data : Bytes → ℕ → ℕ → File → Option (ℕ × File)
unfolding read_field next_offset add_object put_object link_data_hash
add_data payload hash field_offset f =
    let offset = next_offset f.disk in
    read_field field_offset f.disk >>= λ field.
    (let o : DataObject = record {
      hash = hash;
      next_hash_offset = 0;
      next_field_offset = field.head_data_offset;
      entry_offset = 0;
      entry_array_offset = 0;
      n_entries = 0;
      payload = payload;
    } in
      let headed =
        put_object field_offset (field_object (record field { head_data_offset = offset }))
          (add_object (data_object o) f.disk) in
      link_data_hash offset (hash % f.header.data_hash_table_items) (record f { disk = headed })
      >>= λ g. some (
        offset,
        record g {
          header = record g.header {
            n_objects = g.header.n_objects + 1;
            n_data = g.header.n_data + 1;
            tail_object_offset = offset;
          };
        },
      ))

-- `appendData`.
module _ (sip_hash24 : Bytes → Bytes → ℕ) where
  unfoldable pub append_data : Bytes → ℕ → File → Option (ℕ × File)
  unfolding cut ensure_field add_data
  append_data payload hash f = elim (cut b'=' payload) [
    | none ↦ none
    | some (name, value) ↦
        let (field_offset, g) = ensure_field name (sip_hash24 name f.header.file_id) f in
        add_data payload hash field_offset g
  ]

  -- What `AppendEntry` does for one field: the object that the cache knows, or a new one.
  unfoldable pub data_offset : Bytes → ℕ → File → Option (ℕ × File)
  unfolding append_data set_at
  data_offset payload hash f = elim (f.data_cache hash) [
    | some offset ↦ some (offset, f)
    | none ↦
        (append_data payload hash f >>= λ (offset, g).
        some (offset, record g { data_cache = set_at g.data_cache hash (some offset) }))
  ]
