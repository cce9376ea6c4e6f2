-- ===== src/JournalFile/Writer/Data/Kept.antt =====
-- pkg/journalfile/journal.go: the data object of a field of an entry, and what its writes leave alone.
use swash.Prelude.{
  ℕ, ◌+◌, ◌%◌, ◌≡◌, refl, sym, ap, ◌∙◌, subst, ◌≢◌, ◌⊎◌, inl, inr, Option, some, arith, ◌==◌,
  ==_iff, Bool-cases, Option-cases, Bytes, cut,
}
use swash.JournalFile.Objects.{
  DataObject, FieldObject, data_object, field_object, Disk, set_at, next_offset, add_object,
  put_object,
}
use swash.JournalFile.Objects.Views.{
  data_view, field_view, view_at, Keeps, Keeps-refl, Keeps-trans, PtrOk, DiskOk, add_object-view,
  add_object-Keeps, add_object-DiskOk, update_object, same_objects, set_at_here, set_at_other,
  set_at-all,
}
use swash.JournalFile.Objects.Views.Found.{data_at, field_at, read_data_at, read_field_at}
use swash.JournalFile.Writer.{File}
use swash.JournalFile.Writer.Invariant.{
  Known, Known-Keeps, NoClash, FileOk, chain_part, Grown, Grown-refl, Grown-trans,
}
use swash.JournalFile.Writer.Data.{
  link_item, link_field_hash, set_next_hash, link_data_hash, add_field, ensure_field, add_data,
  append_data, data_offset,
}

set_at-some :
    (cache : ℕ → Option ℕ) (i offset j k : ℕ)
    → set_at cache i (some offset) j ≡ some k
    → ((j ≡ i) × (offset ≡ k)) ⊎ (cache j ≡ some k)
set_at-some cache i offset j k e = elim (Bool-cases (j == i)) [
  | inl here ↦
      let at : j ≡ i = ground (arith, ==_iff j i) in
      let found : set_at cache i (some offset) j ≡ some offset =
        ap (set_at cache i (some offset)) at ∙ set_at_here cache i (some offset) in
      inl (at, ground arith)
  | inr other ↦
      let ne : j ≢ i = λ at. ground (arith, ==_iff j i) in
      inr (sym (set_at_other cache i (some offset) j ne) ∙ e)
]

-- The write of a link between data objects.
set_next_hash-Keeps :
    (tail offset : ℕ) (d : Disk)
    → DiskOk d
    → (tail ≡ 0) ⊎ ((p : Bytes) × (view_at tail d ≡ some (data_view p)))
    → (g : Disk) × (set_next_hash tail offset d ≡ some g) × Keeps d g × DiskOk g
unfolding set_next_hash DiskOk PtrOk
set_next_hash-Keeps tail offset d ok before = elim (Bool-cases (tail == 0)) [
  | inl no_tail ↦ (d, rw no_tail refl, Keeps-refl d, ok)
  | inr tailed ↦ elim before [
    | inl no_tail ↦ absurd (ground (arith, ==_iff tail 0))
    | inr (p, at) ↦
        let (x, found, payload) = data_at d tail p at in
        let y : DataObject = record x { next_hash_offset = offset } in
        let (keeps, still_ok) =
          update_object tail (data_object x) (data_object y) d found refl
            (ok.2 tail (data_object x) found) ok in
        (
          put_object tail (data_object y) d,
          rw (tailed, read_data_at d tail x found) refl,
          keeps,
          still_ok,
        )
  ]
]

module _ (sip_hash24 : Bytes → Bytes → ℕ) (Used : Bytes → Type 0) where
  add_field-Grown :
      (name : Bytes) (hash : ℕ) (f : File)
      → FileOk sip_hash24 Used f
      → Grown sip_hash24 Used f (add_field name hash f).1
        × (view_at (add_field name hash f).0 (add_field name hash f).1.disk ≡ some field_view)
  unfolding add_field Grown FileOk Known Keeps view_at link_field_hash add_object next_offset
      chain_part PtrOk
  add_field-Grown name hash f (ok, known) =
      let o : FieldObject = record {
        hash = hash;
        next_hash_offset = 0;
        head_data_offset = 0;
        name = name;
      } in
      let g = (add_field name hash f).1 in
      let offset = next_offset f.disk in
      let same =
        same_objects (add_object (field_object o) f.disk) g.disk refl refl
          (add_object-DiskOk (field_object o) f.disk ok tt) in
      let keeps =
        Keeps-trans f.disk (add_object (field_object o) f.disk) g.disk
          (add_object-Keeps (field_object o) f.disk ok) same.0 in
      let here = same.0 offset field_view (add_object-view (field_object o) f.disk) in
      let known_there =
        Known-Keeps sip_hash24 Used f.disk g.disk f.header.file_id f.data_cache f.field_cache
          f.data_hash_table keeps known in
      let known_cache : (h k : ℕ) → g.field_cache h ≡ some k → view_at k g.disk ≡ some field_view =
        λ h k e. elim (set_at-some f.field_cache hash offset h k e) [
          | inl (at, same_offset) ↦ subst (λ n. view_at n g.disk ≡ some field_view) same_offset here
          | inr old ↦ known_there.1 h k old
        ] in
      ((keeps, refl, (same.1, (known_there.0, known_cache, known_there.2))), here)

  ensure_field-Grown :
      (name : Bytes) (hash : ℕ) (f : File)
      → FileOk sip_hash24 Used f
      → Grown sip_hash24 Used f (ensure_field name hash f).1
        × (view_at (ensure_field name hash f).0 (ensure_field name hash f).1.disk ≡ some field_view)
  unfolding ensure_field FileOk Known
  ensure_field-Grown name hash f ok = elim (Option-cases (f.field_cache hash)) [
    | inl new ↦ rw (ensure_field, new) (add_field-Grown name hash f ok)
    | inr (offset, old) ↦
        rw (ensure_field, old) (Grown-refl sip_hash24 Used f ok, ok.1.1 hash offset old)
  ]

  -- `linkDataHash` of an object that is there.
  link_data_hash-Grown :
      (offset i : ℕ) (p : Bytes) (f : File)
      → view_at offset f.disk ≡ some (data_view p)
      → FileOk sip_hash24 Used f
      → (g : File) × (link_data_hash offset i f ≡ some g) × Grown sip_hash24 Used f g
  unfolding link_data_hash FileOk Known Grown chain_part link_item Keeps
  link_data_hash-Grown offset i p f at (ok, known) =
      let (d, written, keeps, still_ok) =
        set_next_hash-Keeps (f.data_hash_table i).tail_hash_offset offset f.disk ok (known.2 i) in
      let item = link_item offset (f.data_hash_table i) in
      let g : File = record f {
        data_hash_table = set_at f.data_hash_table i item;
        disk = record d { data_hash_table = set_at d.data_hash_table i item };
      } in
      let same = same_objects d g.disk refl refl still_ok in
      let keeps_all = Keeps-trans f.disk d g.disk keeps same.0 in
      let there =
        Known-Keeps sip_hash24 Used f.disk g.disk f.header.file_id f.data_cache f.field_cache
          f.data_hash_table keeps_all known in
      let table =
        set_at-all
          (λ j entry.
            (entry.tail_hash_offset ≡ 0)
            ⊎ ((q : Bytes) × (view_at entry.tail_hash_offset g.disk ≡ some (data_view q))))
          f.data_hash_table i item (inr (p, keeps_all offset (data_view p) at)) there.2 in
      (g, rw written refl, (keeps_all, refl, (same.1, (there.0, there.1, table))))

  add_data-Grown :
      (payload : Bytes) (hash field_offset : ℕ) (f : File)
      → view_at field_offset f.disk ≡ some field_view
      → FileOk sip_hash24 Used f
      → (offset : ℕ) × (g : File) × (add_data payload hash field_offset f ≡ some (offset, g))
        × Grown sip_hash24 Used f g
        × (view_at offset g.disk ≡ some (data_view payload))
  unfolding add_data FileOk Grown chain_part Keeps PtrOk
  add_data-Grown payload hash field_offset f at (ok, known) =
      let (field, found) = field_at f.disk field_offset at in
      let offset = next_offset f.disk in
      let o : DataObject = record {
        hash = hash;
        next_hash_offset = 0;
        next_field_offset = field.head_data_offset;
        entry_offset = 0;
        entry_array_offset = 0;
        n_entries = 0;
        payload = payload;
      } in
      let added = add_object (data_object o) f.disk in
      let kept = add_object-Keeps (data_object o) f.disk ok in
      let added_ok = add_object-DiskOk (data_object o) f.disk ok (inl refl) in
      let (there, found_there) = field_at added field_offset (kept field_offset field_view at) in
      let p = field_object (record field { head_data_offset = offset }) in
      let headed = put_object field_offset p added in
      let (kept_headed, headed_ok) =
        update_object field_offset (field_object there) p added found_there refl tt added_ok in
      let keeps = Keeps-trans f.disk added headed kept kept_headed in
      let h : File = record f { disk = headed } in
      let here = kept_headed offset (data_view payload) (add_object-view (data_object o) f.disk) in
      let (g, linked, grown) =
        link_data_hash-Grown offset (hash % f.header.data_hash_table_items) payload h here (
          headed_ok,
          Known-Keeps sip_hash24 Used f.disk headed f.header.file_id f.data_cache f.field_cache
              f.data_hash_table keeps known,
        ) in
      (
        offset,
        record g {
          header = record g.header {
            n_objects = g.header.n_objects + 1;
            n_data = g.header.n_data + 1;
            tail_object_offset = offset;
          };
        },
        rw (read_field_at f.disk field_offset field found, linked) refl,
        (Keeps-trans f.disk headed g.disk keeps grown.0, grown.1, grown.2),
        grown.0 offset (data_view payload) here,
      )

  append_data-Grown :
      (payload name value : Bytes) (hash : ℕ) (f : File)
      → cut b'=' payload ≡ some (name, value)
      → FileOk sip_hash24 Used f
      → (offset : ℕ) × (g : File) × (append_data sip_hash24 payload hash f ≡ some (offset, g))
        × Grown sip_hash24 Used f g
        × (view_at offset g.disk ≡ some (data_view payload))
  unfolding append_data Grown
  append_data-Grown payload name value hash f parts ok =
      let name_hash = sip_hash24 name f.header.file_id in
      let (grown, field) = ensure_field-Grown name name_hash f ok in
      let (field_offset, h) = ensure_field name name_hash f in
      let (offset, g, added, more, here) =
        add_data-Grown payload hash field_offset h field grown.2 in
      (offset, g, rw (append_data, parts) added, Grown-trans sip_hash24 Used f h g grown more, here)

  -- A field of an entry, whose text is used, gets the offset of a data object with that text, without
  -- an error.
  pub data_offset-Grown :
      (payload name value : Bytes) (f : File)
      → NoClash sip_hash24 Used f.header.file_id
      → Used payload
      → cut b'=' payload ≡ some (name, value)
      → FileOk sip_hash24 Used f
      → (offset : ℕ) × (g : File) × (data_offset sip_hash24 payload
            (sip_hash24 payload f.header.file_id)
            f
          ≡ some (offset, g))
        × Grown sip_hash24 Used f g
        × (view_at offset g.disk ≡ some (data_view payload))
  unfolding data_offset NoClash FileOk Known Grown chain_part Keeps
  data_offset-Grown payload name value f no_clash used parts ok =
      let hash = sip_hash24 payload f.header.file_id in
      elim (Option-cases (f.data_cache hash)) [
        | inr (offset, old) ↦
            let (p, at, p_used, same_hash) = ok.1.0 hash offset old in
            (
              offset,
              f,
              rw (data_offset, old) refl,
              Grown-refl sip_hash24 Used f ok,
              at ∙ ap (λ q. some (data_view q)) (no_clash p payload p_used used same_hash),
            )
        | inl new ↦
            let (offset, g, appended, grown, here) =
              append_data-Grown payload name value hash f parts ok in
            let id : g.header.file_id ≡ f.header.file_id = ap (λ c. c.3) grown.1 in
            let known = grown.2.1 in
            let cached =
              set_at-all
                (λ h o.
                  (k : ℕ)
                  → o ≡ some k
                  → (p : Bytes) × (view_at k g.disk ≡ some (data_view p))
                    × Used p
                    × (sip_hash24 p g.header.file_id ≡ h))
                g.data_cache hash (some offset)
                (λ k e. (
                  payload,
                  ap (λ n. view_at n g.disk) (ground arith) ∙ here,
                  used,
                  ap (sip_hash24 payload) id,
                ))
                known.0 in
            (
              offset,
              record g { data_cache = set_at g.data_cache hash (some offset) },
              rw (data_offset, new, appended) refl,
              (grown.0, grown.1, (grown.2.0, (cached, known.1, known.2))),
              here,
            )
      ]
