-- ===== src/JournalFile/Objects/Views/Found.antt =====
-- pkg/journalfile: the object that is found where a view is known.
use swash.Prelude.{ℕ, ◌≡◌, refl, ◌⊎◌, inl, inr, Option, none, some, List, [], ◌∷◌, arith, Bytes}
use swash.JournalFile.Objects.{
  DataObject, FieldObject, EntryObject, EntryArrayObject, Object, data_object, field_object,
  entry_object, entry_array_object, Disk, read_data, read_field, read_entry_object,
  read_entry_array,
}
use swash.JournalFile.Objects.Views.{
  data_view, field_view, entry_view, main_view, side_view, array_view, seen, view_at,
}

array_view-cases :
    (next : ℕ) (items : List ℕ)
    → (array_view next items ≡ side_view)
      ⊎ ((i : ℕ) × (items ≡ i ∷ []) × (array_view next items ≡ main_view next i))
array_view-cases next [] = inl refl
array_view-cases next (i ∷ []) = inr (i, refl, refl)
array_view-cases next (i ∷ j ∷ items) = inl refl

seen_data :
    (o : Option Object) (p : Bytes)
    → seen o ≡ some (data_view p)
    → (x : DataObject) × (o ≡ some (data_object x)) × (x.payload ≡ p)
seen_data none p e = absurd (ground arith)
seen_data (some (data_object x)) p e = (x, refl, ground arith)
seen_data (some (field_object x)) p e = absurd (ground arith)
seen_data (some (entry_object x)) p e = absurd (ground arith)
seen_data (some (entry_array_object a)) p e =
    absurd (ground (arith, array_view-cases a.next_entry_array_offset a.items))

seen_field :
    (o : Option Object) → seen o ≡ some field_view → (x : FieldObject) × o ≡ some (field_object x)
seen_field none e = absurd (ground arith)
seen_field (some (data_object x)) e = absurd (ground arith)
seen_field (some (field_object x)) e = (x, refl)
seen_field (some (entry_object x)) e = absurd (ground arith)
seen_field (some (entry_array_object a)) e =
    absurd (ground (arith, array_view-cases a.next_entry_array_offset a.items))

seen_entry :
    (o : Option Object) (x : EntryObject) → seen o ≡ some (entry_view x) → o ≡ some (entry_object x)
seen_entry none x e = absurd (ground arith)
seen_entry (some (data_object y)) x e = absurd (ground arith)
seen_entry (some (field_object y)) x e = absurd (ground arith)
seen_entry (some (entry_object y)) x e = ground arith
seen_entry (some (entry_array_object a)) x e =
    absurd (ground (arith, array_view-cases a.next_entry_array_offset a.items))

seen_side :
    (o : Option Object)
    → seen o ≡ some side_view
    → (a : EntryArrayObject) × (o ≡ some (entry_array_object a))
      × (array_view a.next_entry_array_offset a.items ≡ side_view)
seen_side none e = absurd (ground arith)
seen_side (some (data_object y)) e = absurd (ground arith)
seen_side (some (field_object y)) e = absurd (ground arith)
seen_side (some (entry_object y)) e = absurd (ground arith)
seen_side (some (entry_array_object a)) e = (a, refl, ground arith)

seen_main :
    (o : Option Object) (next i : ℕ)
    → seen o ≡ some (main_view next i)
    → (a : EntryArrayObject) × (o ≡ some (entry_array_object a))
      × (a.next_entry_array_offset ≡ next)
      × (a.items ≡ i ∷ [])
seen_main none next i e = absurd (ground arith)
seen_main (some (data_object y)) next i e = absurd (ground arith)
seen_main (some (field_object y)) next i e = absurd (ground arith)
seen_main (some (entry_object y)) next i e = absurd (ground arith)
seen_main (some (entry_array_object a)) next i e =
    elim (array_view-cases a.next_entry_array_offset a.items) [
      | inl side ↦ absurd (ground arith)
      | inr (j, items, main) ↦ (a, refl, ground arith, ground arith)
    ]

pub data_at :
    (d : Disk) (offset : ℕ) (p : Bytes)
    → view_at offset d ≡ some (data_view p)
    → (x : DataObject) × (d.objects offset ≡ some (data_object x)) × (x.payload ≡ p)
unfolding view_at
data_at d offset p e = seen_data (d.objects offset) p e

pub field_at :
    (d : Disk) (offset : ℕ)
    → view_at offset d ≡ some field_view
    → (x : FieldObject) × d.objects offset ≡ some (field_object x)
unfolding view_at
field_at d offset e = seen_field (d.objects offset) e

pub entry_at :
    (d : Disk) (offset : ℕ) (x : EntryObject)
    → view_at offset d ≡ some (entry_view x)
    → d.objects offset ≡ some (entry_object x)
unfolding view_at
entry_at d offset x e = seen_entry (d.objects offset) x e

pub side_at :
    (d : Disk) (offset : ℕ)
    → view_at offset d ≡ some side_view
    → (a : EntryArrayObject) × (d.objects offset ≡ some (entry_array_object a))
      × (array_view a.next_entry_array_offset a.items ≡ side_view)
unfolding view_at
side_at d offset e = seen_side (d.objects offset) e

pub main_at :
    (d : Disk) (offset next i : ℕ)
    → view_at offset d ≡ some (main_view next i)
    → (a : EntryArrayObject) × (d.objects offset ≡ some (entry_array_object a))
      × (a.next_entry_array_offset ≡ next)
      × (a.items ≡ i ∷ [])
unfolding view_at
main_at d offset next i e = seen_main (d.objects offset) next i e

pub read_data_at :
    (d : Disk) (offset : ℕ) (x : DataObject)
    → d.objects offset ≡ some (data_object x)
    → read_data offset d ≡ some x
unfolding read_data
read_data_at d offset x e = rw (read_data, e) refl

pub read_field_at :
    (d : Disk) (offset : ℕ) (x : FieldObject)
    → d.objects offset ≡ some (field_object x)
    → read_field offset d ≡ some x
unfolding read_field
read_field_at d offset x e = rw (read_field, e) refl

pub read_entry_object_at :
    (d : Disk) (offset : ℕ) (x : EntryObject)
    → d.objects offset ≡ some (entry_object x)
    → read_entry_object offset d ≡ some x
unfolding read_entry_object
read_entry_object_at d offset x e = rw (read_entry_object, e) refl

pub read_entry_array_at :
    (d : Disk) (offset : ℕ) (x : EntryArrayObject)
    → d.objects offset ≡ some (entry_array_object x)
    → read_entry_array offset d ≡ some x
unfolding read_entry_array
read_entry_array_at d offset x e = rw (read_entry_array, e) refl
