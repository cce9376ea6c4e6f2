-- ===== src/JournalFile/Reader/Entry.antt =====
-- pkg/journalfile/reader.go: the reader at one entry of the chain.
use swash.Prelude.{
  ℕ, ◌≡◌, refl, sym, ap, ◌∙◌, none, some, List, [], ◌∷◌, ◌++◌, append_assoc, append-nil, arith,
  Bytes, Lacks, cut-append, Fields, find, put,
}
use swash.JournalFile.Objects.{EntryItem, Disk}
use swash.JournalFile.Objects.Views.{data_view, view_at}
use swash.JournalFile.Objects.Views.Found.{data_at, entry_at, read_data_at, read_entry_object_at}
use swash.JournalFile.Writer.Entry.{field_data}
use swash.JournalFile.Reader.{JournalEntry, read_data_object, read_items, read_entry}
use swash.JournalFile.Chain.{Items, EntryAt}

-- Keys without `=` that are different from each other and from those before.
unfoldable pub Fresh : Fields → Fields → Type 0
unfolding find
Fresh before [] = Unit
Fresh before ((k, v) ∷ fields) =
    (find k before ≡ none) × Lacks b'=' k × Fresh (before ++ ((k, v) ∷ [])) fields

put-new : (m : Fields) (k v : Bytes) → find k m ≡ none → put m k v ≡ m ++ ((k, v) ∷ [])
unfolding find put
put-new [] k v e = refl
put-new ((j, w) ∷ m) k v e = ground (arith, put-new m k v)

read_data_object-text :
    (d : Disk) (offset : ℕ) (k v : Bytes)
    → view_at offset d ≡ some (data_view (field_data (k, v)))
    → Lacks b'=' k
    → read_data_object d offset ≡ some (k, v)
unfolding read_data_object field_data
read_data_object-text d offset k v at lacks =
    let (x, found, text) = data_at d offset (k ++ b'=' ∷ v) at in
    rw (read_data_at d offset x found, text) (cut-append b'=' k v lacks)

read_items-Items :
    (d : Disk) (items : List EntryItem) (before fields : Fields)
    → Items d items fields
    → Fresh before fields
    → read_items d items before ≡ some (before ++ fields)
unfolding read_items Items Fresh
read_items-Items d [] before [] shown fresh = ap some (sym (append-nil before))
read_items-Items d [] before (field ∷ fields) shown fresh = absurd shown
read_items-Items d (item ∷ items) before [] shown fresh = absurd shown
read_items-Items d (item ∷ items) before ((k, v) ∷ fields) (at, shown) (new, lacks, fresh) =
    rw (read_data_object-text d item.object_offset k v at lacks, put-new before k v new)
      (read_items-Items d items (before ++ ((k, v) ∷ [])) fields shown fresh
        ∙ ap some (append_assoc before ((k, v) ∷ []) fields))

pub read_entry-EntryAt :
    (d : Disk) (offset : ℕ) (e : JournalEntry)
    → EntryAt d offset e
    → Fresh [] e.fields
    → read_entry d offset ≡ some e
unfolding read_entry EntryAt
read_entry-EntryAt d offset e (xor_hash, items, at, shown) fresh =
    rw
      (
        read_entry_object_at d offset _ (entry_at d offset _ at),
        read_items-Items d items [] e.fields shown fresh,
      )
      refl
