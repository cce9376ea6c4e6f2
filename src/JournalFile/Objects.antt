-- ===== src/JournalFile/Objects.antt =====
-- pkg/journalfile/types.go: the objects of a journal file, and the file as a store of objects at their
-- offsets. `encoding/binary` lays a structure out at its offset, so a write or a read of some of its
-- fields is an update or a look at the object there; one that meets no object, or another kind, would
-- damage or misread the file, and is a fault.
pub mod Views
use swash.Prelude.{ℕ, ◌+◌, ◌*◌, ◌/◌, Option, none, some, List, ◌==◌, if◌then◌else◌, length, Bytes}

pub record DataObject : Type 0 where
  pub hash : ℕ
  pub next_hash_offset : ℕ
  pub next_field_offset : ℕ
  pub entry_offset : ℕ
  pub entry_array_offset : ℕ
  pub n_entries : ℕ
  pub payload : Bytes

pub record FieldObject : Type 0 where
  pub hash : ℕ
  pub next_hash_offset : ℕ
  pub head_data_offset : ℕ
  pub name : Bytes

pub record EntryItem : Type 0 where
  pub object_offset : ℕ
  pub hash : ℕ

pub record EntryObject : Type 0 where
  pub seqnum : ℕ
  pub realtime : ℕ
  pub monotonic : ℕ
  pub boot_id : Bytes
  pub xor_hash : ℕ
  pub items : List EntryItem

pub record EntryArrayObject : Type 0 where
  pub next_entry_array_offset : ℕ
  pub items : List ℕ

pub data Object : Type 0 where
  data_object : DataObject → Object
  field_object : FieldObject → Object
  entry_object : EntryObject → Object
  entry_array_object : EntryArrayObject → Object

-- The `Size` in the object's header: the structure and what follows it.
unfoldable pub object_size : Object → ℕ
object_size (data_object x) = 64 + length x.payload
object_size (field_object x) = 40 + length x.name
object_size (entry_object x) = 64 + length x.items * 16
object_size (entry_array_object x) = 24 + length x.items * 8

pub record HashItem : Type 0 where
  pub head_hash_offset : ℕ
  pub tail_hash_offset : ℕ

pub data State : Type 0 where
  state_offline state_online : State

-- `Header`, with the sizes of the hash tables as numbers of items.
pub record Header : Type 0 where
  pub state : State
  pub file_id : Bytes
  pub arena_size : ℕ
  pub data_hash_table_items : ℕ
  pub field_hash_table_items : ℕ
  pub tail_object_offset : ℕ
  pub n_objects : ℕ
  pub n_entries : ℕ
  pub tail_entry_seqnum : ℕ
  pub head_entry_seqnum : ℕ
  pub entry_array_offset : ℕ
  pub head_entry_realtime : ℕ
  pub tail_entry_realtime : ℕ
  pub tail_entry_monotonic : ℕ
  pub tail_entry_boot_id : Bytes
  pub n_data : ℕ
  pub n_fields : ℕ
  pub n_entry_arrays : ℕ
  pub tail_entry_array_offset : ℕ
  pub tail_entry_array_n_entries : ℕ
  pub tail_entry_offset : ℕ

-- The file: its objects, its length, and the parts at fixed places.
pub record Disk : Type 0 where
  pub objects : ℕ → Option Object
  pub size : ℕ
  pub header : Header
  pub data_hash_table : ℕ → HashItem
  pub field_hash_table : ℕ → HashItem

-- A map with one more entry.
unfoldable pub set_at {ℓ} : {A : Type ℓ} → (ℕ → A) → ℕ → A → ℕ → A
set_at f i a j = if j == i then a else f j

-- `(n + 7) &^ 7`.
unfoldable pub align64 : ℕ → ℕ
align64 n = (n + 7) / 8 * 8

-- The end of the file with the padding in front of the next object.
unfoldable pub next_offset : Disk → ℕ
unfolding align64
next_offset d = align64 d.size

-- An object at the aligned end of the file.
unfoldable pub add_object : Object → Disk → Disk
unfolding set_at next_offset object_size
add_object o d = record d {
  objects = set_at d.objects (next_offset d) (some o);
  size = next_offset d + object_size o;
}

-- An object in place of the one at its offset.
unfoldable pub put_object : ℕ → Object → Disk → Disk
unfolding set_at
put_object offset o d = record d { objects = set_at d.objects offset (some o) }

unfoldable pub read_data : ℕ → Disk → Option DataObject
read_data offset d = elim (d.objects offset) [ some (data_object x) ↦ some x | _ ↦ none ]

unfoldable pub read_field : ℕ → Disk → Option FieldObject
read_field offset d = elim (d.objects offset) [ some (field_object x) ↦ some x | _ ↦ none ]

unfoldable pub read_entry_object : ℕ → Disk → Option EntryObject
read_entry_object offset d = elim (d.objects offset) [ some (entry_object x) ↦ some x | _ ↦ none ]

unfoldable pub read_entry_array : ℕ → Disk → Option EntryArrayObject
read_entry_array offset d = elim (d.objects offset) [
  | some (entry_array_object x) ↦ some x
  | _ ↦ none
]
