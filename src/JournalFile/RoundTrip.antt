-- ===== src/JournalFile/RoundTrip.antt =====
-- pkg/journalfile: the writer and the reader together.
use swash.Prelude.{
  ℕ, suc, ◌+◌, ◌≤◌, ◌<◌, ◌≡◌, refl, sym, ap, ◌∙◌, subst, inl, inr, true, some, List, [], ◌∷◌, arith,
  Bool-cases, length, drop, All, Bytes, max_uint64,
}
use swash.JournalFile.Objects.Views.{same_objects}
use swash.JournalFile.Writer.{
  File, initial_header, create_file, begin_write, sync_header, sync_file,
}
use swash.JournalFile.Writer.Invariant.{NoClash, FileOk}
use swash.JournalFile.Writer.Entry.{NewEntry, append_entries}
use swash.JournalFile.Writer.Entry.Kept.{FieldOk}
use swash.JournalFile.Writer.Entry.Appended.{logged, logged_from, Holds}
use swash.JournalFile.Writer.Entry.Many.{
  State-cases, StaysSmall, append_entries-Holds, create_file-Holds,
}
use swash.JournalFile.Reader.{JournalEntry, Reader, open_read, reset_iteration}
use swash.JournalFile.Reader.Cursor.{format_cursor, seek_cursor, parse_cursor-format_cursor}
use swash.JournalFile.Reader.Entry.{Fresh}
use swash.JournalFile.Reader.Drain.{read_all, Readable, opened_at, read_all-drop}
use swash.JournalFile.Chain.{Chain, Chain-Keeps}

length-logged_from :
    (seqnum : ℕ) (boot_id : Bytes) (es : List NewEntry)
    → length (logged_from seqnum boot_id es) ≡ length es
unfolding logged_from
length-logged_from seqnum boot_id [] = refl
length-logged_from seqnum boot_id (e ∷ es) = ap suc (length-logged_from (seqnum + 1) boot_id es)

logged_from-Fresh :
    (seqnum : ℕ) (boot_id : Bytes) (es : List NewEntry)
    → All (λ e. Fresh [] e.fields) es
    → All (λ e. Fresh [] e.fields) (logged_from seqnum boot_id es)
unfolding logged_from logged
logged_from-Fresh seqnum boot_id [] fresh = tt
logged_from-Fresh seqnum boot_id (e ∷ es) (fresh, more) =
    (fresh, logged_from-Fresh (seqnum + 1) boot_id es more)

-- A sync of a dirty file keeps its objects, and its header goes to the disk.
sync_file-dirty :
    (f : File)
    → f.dirty ≡ true
    → ((sync_file f).disk.objects ≡ f.disk.objects)
      × ((sync_file f).disk.size ≡ f.disk.size)
      × ((sync_file f).disk.header.entry_array_offset ≡ f.header.entry_array_offset)
      × ((sync_file f).disk.header.tail_entry_seqnum ≡ f.header.tail_entry_seqnum)
unfolding sync_file begin_write sync_header
sync_file-dirty f dirty = elim (State-cases f.header.state) [
  | inl online ↦ rw (sync_file, dirty, begin_write, online) (refl, refl, refl, refl)
  | inr offline ↦ rw (sync_file, dirty, begin_write, offline) (refl, refl, refl, refl)
]

module _ (sip_hash24 : Bytes → Bytes → ℕ) (Used : Bytes → Type 0) where
  sync_file-Readable :
      (f : File) (es : List JournalEntry)
      → Holds sip_hash24 Used f es
      → Readable (sync_file f).disk es
  unfolding Holds FileOk Readable sync_file begin_write sync_header
  sync_file-Readable f es (ok, chain, number, synced) = elim (Bool-cases f.dirty) [
    | inl dirty ↦
        let (objects, size, first, seqnum) = sync_file-dirty f dirty in
        let g = (sync_file f).disk in
        let keeps = (same_objects f.disk g objects size ok.0).0 in
        (
          f.header.tail_entry_array_offset,
          subst (λ n. Chain g n f.header.tail_entry_array_offset es) (sym first)
              (Chain-Keeps f.disk g f.header.entry_array_offset f.header.tail_entry_array_offset es
                keeps chain),
          seqnum ∙ number,
        )
    | inr clean ↦ elim synced [
      | inl dirty ↦ absurd (ground arith)
      | inr same_header ↦
          rw (sync_file, clean)
            (
              f.header.tail_entry_array_offset,
              subst (λ h. Chain f.disk h.entry_array_offset f.header.tail_entry_array_offset es)
                  (sym same_header) chain,
              ap (λ h. h.tail_entry_seqnum) same_header ∙ number,
            )
    ]
  ]

  -- Appends to a new file succeed, when the keys of an entry differ and have no `=`, no two texts have the
  -- same hash, and the file stays within 4 GiB. A reader that opens the file after a sync and seeks a
  -- cursor, with a number of 64 bits, gives the entries behind that number, in order and with the
  -- numbers, times, boot id and fields of the appends, and then the end of the file, where it is called
  -- once for each entry and once more, and each call has two rounds for an entry and one.
  pub read_all-append_entries :
      (es : List NewEntry) (file_id boot_id cursor_boot : Bytes) (seqnum rounds fuel : ℕ)
      → NoClash sip_hash24 Used file_id
      → All (λ e. All (FieldOk sip_hash24 Used) e.fields) es
      → All (λ e. Fresh [] e.fields) es
      → StaysSmall sip_hash24 es (create_file file_id boot_id)
      → seqnum ≤ max_uint64
      → length es < rounds
      → length es + length es < fuel
      → (f : File) × (r : Reader) × (append_entries sip_hash24 es (create_file file_id boot_id)
          ≡ some f)
        × (seek_cursor (format_cursor seqnum cursor_boot) (open_read (sync_file f).disk) ≡ some r)
        × (read_all rounds fuel (sync_file f).disk r
            ≡ some (drop seqnum (logged_from 1 boot_id es)))
  unfolding create_file initial_header seek_cursor open_read reset_iteration
  read_all-append_entries es file_id boot_id cursor_boot seqnum rounds fuel no_clash allowed fresh
        small cursor_small enough fuel_enough =
      let new = create_file file_id boot_id in
      let (f, appended, holds) =
        append_entries-Holds sip_hash24 Used es new [] no_clash allowed small
          (create_file-Holds sip_hash24 Used file_id boot_id) in
      let d = (sync_file f).disk in
      let count = length-logged_from 1 boot_id es in
      (
        f,
        opened_at d seqnum,
        appended,
        rw (seek_cursor, parse_cursor-format_cursor seqnum cursor_boot cursor_small) refl,
        read_all-drop d (logged_from 1 boot_id es) seqnum rounds fuel (sync_file-Readable f _ holds)
            (logged_from-Fresh 1 boot_id es fresh) (ground arith) (ground arith),
      )
