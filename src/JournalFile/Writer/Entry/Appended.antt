-- ===== src/JournalFile/Writer/Entry/Appended.antt =====
-- pkg/journalfile/journal.go: `AppendEntry` one time and many times.
use swash.Prelude.{
  ℕ, suc, ◌+◌, ◌%◌, ◌≤◌, ◌≡◌, refl, sym, ap, subst, ◌⊎◌, inl, true, some, List, [], ◌∷◌, ◌++◌,
  arith, ◌==◌, if◌then◌else◌, length, length-append, Bytes,
}
use swash.JournalFile.Objects.{EntryItem, EntryObject, entry_object, next_offset, add_object}
use swash.JournalFile.Objects.Views.{
  data_view, field_view, entry_view, Keeps, Keeps-trans, PtrOk, next_offset-pos, add_object-view,
  add_object-Keeps, add_object-DiskOk,
}
use swash.JournalFile.Writer.{File}
use swash.JournalFile.Writer.Invariant.{Known-Keeps, Known-transport, FileOk, chain_part, Grown}
use swash.JournalFile.Writer.Arrays.{link_items}
use swash.JournalFile.Writer.Entry.{NewEntry, count_entry, append_entry_object}
use swash.JournalFile.Writer.Entry.Kept.{link_items-Grown}
use swash.JournalFile.Writer.Entry.Placed.{append_entry_array-Chain}
use swash.JournalFile.Reader.{JournalEntry}
use swash.JournalFile.Chain.{Items, EntryAt, Chain, Items-Keeps, Chain-Keeps}

-- The entry of the journal for one that is appended.
unfoldable pub logged : ℕ → Bytes → NewEntry → JournalEntry
logged seqnum boot_id e = record {
  seqnum = seqnum;
  realtime = e.realtime;
  monotonic = e.monotonic;
  boot_id = boot_id;
  fields = e.fields;
}

-- The entries with their numbers, from this one on.
unfoldable pub logged_from : ℕ → Bytes → List NewEntry → List JournalEntry
unfolding logged
logged_from seqnum boot_id [] = []
logged_from seqnum boot_id (e ∷ es) = logged seqnum boot_id e ∷ logged_from (seqnum + 1) boot_id es

module _ (sip_hash24 : Bytes → Bytes → ℕ) (Used : Bytes → Type 0) where
  -- An open file with these entries. It is dirty, or its header on the disk is up to date.
  unfoldable pub Holds : File → List JournalEntry → Type 0
  unfolding FileOk Chain
  Holds f es =
      FileOk sip_hash24 Used f
      × Chain f.disk f.header.entry_array_offset f.header.tail_entry_array_offset es
      × (f.header.tail_entry_seqnum ≡ length es)
      × ((f.dirty ≡ true) ⊎ (f.disk.header ≡ f.header))

  -- The number of the next entry.
  abbrev pub next_seqnum : File → ℕ
  next_seqnum f = f.header.tail_entry_seqnum + 1

  -- The file behind the write of the entry object.
  abbrev written : NewEntry → ℕ → List EntryItem → File → File
  written e xor_hash items f = record f {
    header = record f.header { tail_entry_seqnum = f.header.tail_entry_seqnum + 1 };
    disk =
        add_object
          (entry_object (record {
            seqnum = f.header.tail_entry_seqnum + 1;
            realtime = e.realtime;
            monotonic = e.monotonic;
            boot_id = f.boot_id;
            xor_hash = xor_hash;
            items = items;
          }))
          f.disk;
  }

  written-links :
      (e : NewEntry) (xor_hash : ℕ) (items : List EntryItem) (f : File)
      → Items f.disk items e.fields
      → FileOk sip_hash24 Used f
      → (linked : File) × (link_items items (next_offset f.disk) (written e xor_hash items f)
          ≡ some linked)
        × Grown sip_hash24 Used (written e xor_hash items f) linked
        × Keeps f.disk linked.disk
        × EntryAt linked.disk (next_offset f.disk) (logged (next_seqnum f) f.boot_id e)
  unfolding FileOk Grown PtrOk Keeps EntryAt logged
  written-links e xor_hash items f shown (ok, known) =
      let w = written e xor_hash items f in
      let offset = next_offset f.disk in
      let x : EntryObject = record {
        seqnum = f.header.tail_entry_seqnum + 1;
        realtime = e.realtime;
        monotonic = e.monotonic;
        boot_id = f.boot_id;
        xor_hash = xor_hash;
        items = items;
      } in
      let keeps = add_object-Keeps (entry_object x) f.disk ok in
      let w_shown = Items-Keeps f.disk w.disk items e.fields keeps shown in
      let w_ok : FileOk sip_hash24 Used w = (
        add_object-DiskOk (entry_object x) f.disk ok tt,
        Known-Keeps sip_hash24 Used f.disk w.disk f.header.file_id f.data_cache f.field_cache
            f.data_hash_table keeps known,
      ) in
      let (linked, links, grown) =
        link_items-Grown sip_hash24 Used items e.fields offset w w_shown w_ok in
      (
        linked,
        links,
        grown,
        Keeps-trans f.disk w.disk linked.disk keeps grown.0,
        (
          xor_hash,
          items,
          grown.0 offset (entry_view x) (add_object-view (entry_object x) f.disk),
          Items-Keeps w.disk linked.disk items e.fields grown.0 w_shown,
        ),
      )

  pub append_entry_object-Holds :
      (e : NewEntry) (xor_hash : ℕ) (items : List EntryItem) (f : File) (es : List JournalEntry)
      → Items f.disk items e.fields
      → FileOk sip_hash24 Used f
      → Chain f.disk f.header.entry_array_offset f.header.tail_entry_array_offset es
      → f.header.tail_entry_seqnum ≡ length es
      → (g : File) × (append_entry_object e.realtime e.monotonic xor_hash items f ≡ some g)
        × (g.header.file_id ≡ f.header.file_id)
        × (g.boot_id ≡ f.boot_id)
        × (g.header.tail_entry_seqnum ≡ next_seqnum f)
        × (g.disk.size ≤ 4294967296 → Holds g (es ++ (logged (next_seqnum f) f.boot_id e ∷ [])))
  unfolding append_entry_object Holds FileOk Grown chain_part count_entry logged
  append_entry_object-Holds e xor_hash items f es shown ok chain number =
      let offset = next_offset f.disk in
      let e' = logged (next_seqnum f) f.boot_id e in
      let (linked, links, grown, keeps, entry) = written-links e xor_hash items f shown ok in
      let first_same : linked.header.entry_array_offset ≡ f.header.entry_array_offset =
        ap (λ c. c.0) grown.1 in
      let tail_same : linked.header.tail_entry_array_offset ≡ f.header.tail_entry_array_offset =
        ap (λ c. c.1) grown.1 in
      let seqnum_same : linked.header.tail_entry_seqnum ≡ next_seqnum f = ap (λ c. c.2) grown.1 in
      let linked_chain =
        subst (λ n. Chain linked.disk n linked.header.tail_entry_array_offset es) (sym first_same)
          (subst (λ n. Chain linked.disk f.header.entry_array_offset n es) (sym tail_same)
            (Chain-Keeps f.disk linked.disk f.header.entry_array_offset
              f.header.tail_entry_array_offset es keeps chain)) in
      let counted : e'.seqnum ≡ suc (length es) = omega arith in
      let (array, d, appended, plain, d_ok, fits, d_chain) =
        append_entry_array-Chain offset linked es e' grown.2.0 linked_chain
          (next_offset-pos f.disk ok.0) entry counted in
      let x : EntryObject = record {
        seqnum = f.header.tail_entry_seqnum + 1;
        realtime = e.realtime;
        monotonic = e.monotonic;
        boot_id = f.boot_id;
        xor_hash = xor_hash;
        items = items;
      } in
      let known =
        Known-transport sip_hash24 Used linked.disk d linked.header.file_id linked.data_cache
          linked.field_cache linked.data_hash_table
          (λ n p. plain (data_view p) (λ k i eq. ground arith) n)
          (plain field_view (λ k i eq. ground arith)) grown.2.1 in
      (
        record linked {
          disk = d;
          header = count_entry x offset array d.size linked.header;
          dirty = true;
        },
        rw (links, appended) refl,
        ap (λ c. c.3) grown.1,
        ap (λ c. c.4) grown.1,
        seqnum_same,
        (λ small.
            let whole : array ≡ array % 4294967296 = omega arith in
            (
              (d_ok, known),
              subst
                  (λ n.
                    Chain d
                      (if linked.header.entry_array_offset == 0
                        then array
                        else linked.header.entry_array_offset)
                      n (es ++ (e' ∷ [])))
                  whole d_chain,
              ground (arith, length-append es (e' ∷ [])),
              inl refl,
            )),
      )
