-- ===== src/JournalFile/Writer/Arrays/Kept.antt =====
-- pkg/journalfile/journal.go: the link from a data object to an entry, and what its writes leave alone.
use swash.Prelude.{
  ℕ, zero, suc, ◌+◌, ◌≤◌, ◌<◌, ◌≡◌, refl, sym, ap, ◌∙◌, inl, inr, some, List, [], ◌∷◌, arith, ◌==◌,
  ==_iff, Bool-cases, Option-cases, length, replicate, Bytes, same,
}
use swash.JournalFile.Objects.{
  DataObject, EntryArrayObject, Object, data_object, entry_array_object, next_offset, add_object,
  put_object,
}
use swash.JournalFile.Objects.Views.{
  data_view, side_view, array_view, view, seen, view_at, Keeps, PtrOk, DiskOk, below_size,
  size_next, add_object-view, add_object-Keeps, add_object-DiskOk, update_object,
}
use swash.JournalFile.Objects.Views.Found.{data_at, side_at, read_data_at, read_entry_array_at}
use swash.JournalFile.Writer.{File}
use swash.JournalFile.Writer.Invariant.{
  Known-Keeps, FileOk, chain_part, Grown, Grown-refl, Grown-trans,
}
use swash.JournalFile.Writer.Arrays.{
  create_entry_array, fill_slot, extend_array, append_to_entry_array, entry_info,
  link_data_to_entry,
}

array_view-next :
    (m n : ℕ) (items : List ℕ) → array_view m items ≡ side_view → array_view n items ≡ side_view
array_view-next m n [] e = refl
array_view-next m n (i ∷ []) e = absurd (ground arith)
array_view-next m n (i ∷ j ∷ items) e = refl

fill_slot-length :
    (entry_offset : ℕ) (xs ys : List ℕ)
    → fill_slot entry_offset xs ≡ some ys
    → length ys ≡ length xs
unfolding fill_slot
fill_slot-length entry_offset [] ys e = absurd (ground arith)
fill_slot-length entry_offset (x ∷ xs) ys e = elim (Bool-cases (x == 0)) [
  | inl free ↦ ground arith
  | inr taken ↦ elim (Option-cases (fill_slot entry_offset xs)) [
    | inl full ↦ ground arith
    | inr (zs, filled) ↦ ground (arith, fill_slot-length entry_offset xs zs filled)
  ]
]

side-length :
    (n : ℕ) (xs ys : List ℕ)
    → length ys ≡ length xs
    → array_view n xs ≡ side_view
    → array_view n ys ≡ side_view
side-length n [] [] e s = refl
side-length n [] (y ∷ ys) e s = absurd (omega arith)
side-length n (x ∷ []) ys e s = absurd (ground arith)
side-length n (x ∷ w ∷ xs) [] e s = refl
side-length n (x ∷ w ∷ xs) (y ∷ []) e s = absurd (omega arith)
side-length n (x ∷ w ∷ xs) (y ∷ z ∷ ys) e s = refl

module _ (sip_hash24 : Bytes → Bytes → ℕ) (Used : Bytes → Type 0) where
  pub create_entry_array-Grown :
      (entry_offset : ℕ) (f : File)
      → FileOk sip_hash24 Used f
      → Grown sip_hash24 Used f (create_entry_array entry_offset f).1
        × (view_at (create_entry_array entry_offset f).0 (create_entry_array entry_offset f).1.disk
            ≡ some side_view)
  unfolding create_entry_array FileOk Grown chain_part PtrOk
  create_entry_array-Grown entry_offset f (ok, known) =
      let o =
        entry_array_object
          (record { next_entry_array_offset = 0; items = entry_offset ∷ replicate 15 0 }) in
      let keeps = add_object-Keeps o f.disk ok in
      (
        (
          keeps,
          refl,
          (
            add_object-DiskOk o f.disk ok (λ side. inl refl),
            Known-Keeps sip_hash24 Used f.disk (add_object o f.disk) f.header.file_id f.data_cache
                f.field_cache f.data_hash_table keeps known,
          ),
        ),
        add_object-view o f.disk,
      )

  -- A write over an object keeps the rest of the invariant.
  update-Grown :
      (offset : ℕ) (o p : Object) (f : File)
      → f.disk.objects offset ≡ some o
      → view p ≡ view o
      → PtrOk f.disk offset p
      → FileOk sip_hash24 Used f
      → Grown sip_hash24 Used f (record f { disk = put_object offset p f.disk })
  unfolding FileOk Grown chain_part
  update-Grown offset o p f at same links (ok, known) =
      let (keeps, still_ok) = update_object offset o p f.disk at same links ok in
      (
        keeps,
        refl,
        (
          still_ok,
          Known-Keeps sip_hash24 Used f.disk (put_object offset p f.disk) f.header.file_id
              f.data_cache f.field_cache f.data_hash_table keeps known,
        ),
      )

  extend_array-Grown :
      (offset entry_offset : ℕ) (a : EntryArrayObject) (f : File)
      → f.disk.objects offset ≡ some (entry_array_object a)
      → array_view a.next_entry_array_offset a.items ≡ side_view
      → a.next_entry_array_offset ≡ 0
      → FileOk sip_hash24 Used f
      → Grown sip_hash24 Used f (extend_array offset entry_offset a f)
  unfolding extend_array create_entry_array FileOk Grown PtrOk view_at Keeps
  extend_array-Grown offset entry_offset a f at side last ok =
      elim (Option-cases (fill_slot entry_offset a.items)) [
        | inr (items, filled) ↦
            let still_side =
              side-length a.next_entry_array_offset a.items items
                (fill_slot-length entry_offset a.items items filled) side in
            rw (extend_array, filled)
              (update-Grown offset (entry_array_object a)
                (entry_array_object (record a { items = items })) f at (still_side ∙ sym side)
                (λ s. inl last) ok)
        | inl full ↦
            let (grown, new_side) = create_entry_array-Grown entry_offset f ok in
            let (new_offset, g) = create_entry_array entry_offset f in
            let at_offset = ap seen at ∙ ap some side in
            let (b, found, b_side) = side_at g.disk offset (grown.0 offset side_view at_offset) in
            let new_view = array_view-next a.next_entry_array_offset new_offset a.items side in
            let before : offset < next_offset f.disk =
              ground (arith, below_size f.disk ok.0 offset side_view at_offset, size_next f.disk) in
            rw (extend_array, full)
              (Grown-trans sip_hash24 Used f g
                (record g {
                  disk =
                      put_object offset
                        (entry_array_object (record a { next_entry_array_offset = new_offset }))
                        g.disk;
                })
                grown
                (update-Grown offset (entry_array_object b)
                  (entry_array_object (record a { next_entry_array_offset = new_offset })) g found
                  (new_view ∙ sym b_side) (λ s. inr (before, new_side)) grown.2))
      ]

  -- From an array of a data object in an open file that meets its invariant, with as much fuel as the
  -- file has behind the array, the walk to the last array ends and the write succeeds; the file then
  -- has all that others rely on as it was, the same chain of all entries, and the invariant.
  pub append_to_entry_array-Grown :
      (fuel offset entry_offset : ℕ) (f : File)
      → f.disk.size ≤ offset + fuel
      → view_at offset f.disk ≡ some side_view
      → FileOk sip_hash24 Used f
      → (g : File) × (append_to_entry_array fuel offset entry_offset f ≡ some g)
        × Grown sip_hash24 Used f g
  unfolding append_to_entry_array FileOk DiskOk PtrOk
  append_to_entry_array-Grown zero offset entry_offset f enough at ok =
      absurd (ground (arith, below_size f.disk ok.0 offset side_view at))
  append_to_entry_array-Grown (suc fuel) offset entry_offset f enough at ok =
      let (a, found, side) = side_at f.disk offset at in
      let reads = read_entry_array_at f.disk offset a found in
      elim (Bool-cases (a.next_entry_array_offset == 0)) [
        | inl last ↦ (
          extend_array offset entry_offset a f,
          rw (reads, last) refl,
          extend_array-Grown offset entry_offset a f found side
              (ground (arith, ==_iff a.next_entry_array_offset 0)) ok,
        )
        | inr linked ↦ elim (ok.0.2 offset (entry_array_object a) found side) [
          | inl last ↦ absurd (ground (arith, ==_iff a.next_entry_array_offset 0))
          | inr (forward, next_side) ↦
              let (g, appended, grown) =
                append_to_entry_array-Grown fuel a.next_entry_array_offset entry_offset f
                  (omega arith) next_side ok in
              (g, rw (reads, linked) appended, grown)
        ]
      ]

  -- What becomes of a data object's fields on entries keeps its text, and its links are right.
  entry_info-Grown :
      (data_offset entry_offset : ℕ) (x : DataObject) (f : File)
      → f.disk.objects data_offset ≡ some (data_object x)
      → FileOk sip_hash24 Used f
      → (y : DataObject) × (g : File) × (entry_info x entry_offset f ≡ some (y, g))
        × Grown sip_hash24 Used f g
        × (y.payload ≡ x.payload)
        × PtrOk g.disk data_offset (data_object y)
  unfolding entry_info FileOk DiskOk PtrOk Grown Keeps
  entry_info-Grown data_offset entry_offset x f at ok =
      let links = ok.0.2 data_offset (data_object x) at in
      elim (Bool-cases (x.entry_offset == 0)) [
        | inl first ↦ (
          record x { entry_offset = entry_offset; n_entries = x.n_entries + 1 },
          f,
          rw first refl,
          Grown-refl sip_hash24 Used f ok,
          refl,
          links,
        )
        | inr later ↦ elim (Bool-cases (x.entry_array_offset == 0)) [
          | inl second ↦
              let (grown, side) = create_entry_array-Grown entry_offset f ok in
              let (array, g) = create_entry_array entry_offset f in
              (
                record x { entry_array_offset = array; n_entries = x.n_entries + 1 },
                g,
                rw (later, second) refl,
                grown,
                refl,
                inr side,
              )
          | inr more ↦ elim links [
            | inl no_array ↦ absurd (ground (arith, ==_iff x.entry_array_offset 0))
            | inr side ↦
                let (g, appended, grown) =
                  append_to_entry_array-Grown f.disk.size x.entry_array_offset entry_offset f
                    (omega arith) side ok in
                (
                  record x { n_entries = x.n_entries + 1 },
                  g,
                  rw (later, more, appended) refl,
                  grown,
                  refl,
                  inr (grown.0 x.entry_array_offset side_view side),
                )
          ]
        ]
      ]

  pub link_data_to_entry-Grown :
      (data_offset entry_offset : ℕ) (p : Bytes) (f : File)
      → view_at data_offset f.disk ≡ some (data_view p)
      → FileOk sip_hash24 Used f
      → (g : File) × (link_data_to_entry data_offset entry_offset f ≡ some g)
        × Grown sip_hash24 Used f g
  unfolding link_data_to_entry Grown Keeps
  link_data_to_entry-Grown data_offset entry_offset p f at ok =
      let (x, found, text) = data_at f.disk data_offset p at in
      let (y, g, changed, grown, same, links) =
        entry_info-Grown data_offset entry_offset x f found ok in
      let (z, found_z, text_z) =
        data_at g.disk data_offset p (grown.0 data_offset (data_view p) at) in
      (
        record g { disk = put_object data_offset (data_object y) g.disk },
        rw (read_data_at f.disk data_offset x found, changed) refl,
        Grown-trans sip_hash24 Used f g
            (record g { disk = put_object data_offset (data_object y) g.disk }) grown
            (update-Grown data_offset (data_object z) (data_object y) g found_z
              (ap data_view (same ∙ text ∙ sym text_z)) links grown.2),
      )
