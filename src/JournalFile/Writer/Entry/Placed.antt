-- ===== src/JournalFile/Writer/Entry/Placed.antt =====
-- pkg/journalfile/journal.go: the new last array of the chain of all entries.
use swash.Prelude.{
  ℕ, suc, ◌<◌, ◌≡◌, refl, sym, subst, ◌≢◌, ◌⊎◌, inl, inr, some, List, [], ◌∷◌, ◌++◌, arith, ◌==◌,
  if◌then◌else◌, ==_iff, length,
}
use swash.JournalFile.Objects.{Object, entry_array_object, Disk, next_offset, add_object}
use swash.JournalFile.Objects.Views.{
  View, data_view, entry_view, main_view, view_at, Keeps, PtrOk, DiskOk, below_size, size_next,
  next_offset-pos, add_object-view, add_object-Keeps, add_object-DiskOk,
}
use swash.JournalFile.Writer.{File}
use swash.JournalFile.Writer.Entry.{set_next_array, append_entry_array}
use swash.JournalFile.Writer.Entry.Kept.{set_next_array-links}
use swash.JournalFile.Reader.{JournalEntry}
use swash.JournalFile.Chain.{
  EntryAt, ArrayAt, Linked, Chain, KeepsOthers, EntryAt-transport, Linked-tail, Linked-extend,
  Linked-first, elsewhere,
}

-- A file after the array: the array, its link from the last one, and all else.
abbrev Placed : ℕ → ℕ → ℕ → Disk → Disk → Type 0
Placed tail array entry_offset d g =
    (array ≢ 0)
    × (view_at array g ≡ some (main_view 0 entry_offset))
    × KeepsOthers tail d g
    × (tail ≢ 0
        → (i : ℕ) → view_at tail d ≡ some (main_view 0 i)
        → view_at tail g ≡ some (main_view array i))
    × ((v : View)
        → ((k i : ℕ) → v ≢ main_view k i)
        → (n : ℕ) → view_at n d ≡ some v
        → view_at n g ≡ some v)
    × DiskOk g

append_entry_array-Placed :
    (tail entry_offset : ℕ) (f : File)
    → DiskOk f.disk
    → (tail ≡ 0) ⊎ ((tail ≢ 0) × (i : ℕ) × (view_at tail f.disk ≡ some (main_view 0 i)))
    → (array : ℕ) × (g : Disk) × (append_entry_array tail entry_offset f
        ≡ some (array, record f { disk = g }))
      × Placed tail array entry_offset f.disk g
unfolding append_entry_array set_next_array Keeps PtrOk
append_entry_array-Placed tail entry_offset f ok before =
    let o : Object =
      entry_array_object (record { next_entry_array_offset = 0; items = entry_offset ∷ [] }) in
    let array = next_offset f.disk in
    let added = add_object o f.disk in
    let keeps = add_object-Keeps o f.disk ok in
    let added_ok = add_object-DiskOk o f.disk ok (λ side. absurd (ground arith)) in
    let here = add_object-view o f.disk in
    elim before [
      | inl first ↦ (
        array,
        added,
        rw first refl,
        (
          next_offset-pos f.disk ok,
          here,
          (λ n v ne. keeps n v),
          (λ ne. absurd (ne first)),
          (λ v plain n. keeps n v),
          added_ok,
        ),
      )
      | inr (ne, i, at) ↦
          let (g, linked, others, link, g_ok) =
            set_next_array-links tail array i added added_ok ne (keeps tail (main_view 0 i) at) in
          let new_place : array ≢ tail = λ same_place.
            ground (arith, below_size f.disk ok tail (main_view 0 i) at, size_next f.disk) in
          (
            array,
            g,
            rw linked refl,
            (
              next_offset-pos f.disk ok,
              others array (main_view 0 entry_offset) new_place here,
              (λ n v n_ne e. others n v n_ne (keeps n v e)),
              (λ tail_ne k e.
                  subst (λ m. view_at tail g ≡ some (main_view array m)) (ground arith) link),
              (λ v plain.
                  elsewhere f.disk g tail i v (λ n w n_ne e. others n w n_ne (keeps n w e)) at
                    (plain 0 i)),
              g_ok,
            ),
          )
    ]

-- The chain of a file with the array for one more entry.
pub append_entry_array-Chain :
    (entry_offset : ℕ) (f : File) (es : List JournalEntry) (e : JournalEntry)
    → DiskOk f.disk
    → Chain f.disk f.header.entry_array_offset f.header.tail_entry_array_offset es
    → entry_offset ≢ 0
    → EntryAt f.disk entry_offset e
    → e.seqnum ≡ suc (length es)
    → (array : ℕ) × (g : Disk) × (append_entry_array f.header.tail_entry_array_offset entry_offset f
        ≡ some (array, record f { disk = g }))
      × ((v : View)
          → ((k i : ℕ) → v ≢ main_view k i)
          → (n : ℕ) → view_at n f.disk ≡ some v
          → view_at n g ≡ some v)
      × DiskOk g
      × (array < g.size)
      × Chain g
          (if f.header.entry_array_offset == 0 then array else f.header.entry_array_offset)
          array
          (es ++ (e ∷ []))
unfolding Chain Linked ArrayAt
append_entry_array-Chain entry_offset f [] e ok (none_first, none_last) ne at number =
    let tail = f.header.tail_entry_array_offset in
    let (array, g, appended, (array_ne, here, others, link, plain, g_ok)) =
      append_entry_array-Placed tail entry_offset f ok (inl none_last) in
    let entry =
      EntryAt-transport f.disk g entry_offset e
        (λ n p. plain (data_view p) (λ k i eq. ground arith) n)
        (λ n x. plain (entry_view x) (λ k i eq. ground arith) n) at in
    let first = f.header.entry_array_offset in
    let first_is : (if first == 0 then array else first) ≡ array = ground (arith, ==_iff first 0) in
    (
      array,
      g,
      appended,
      plain,
      g_ok,
      below_size g g_ok array (main_view 0 entry_offset) here,
      subst (λ n. Linked g 1 n array e []) (sym first_is)
          ((entry_offset, array_ne, ne, here, entry, number), refl),
    )
append_entry_array-Chain entry_offset f (e0 ∷ es) e ok chain ne at number =
    let tail = f.header.tail_entry_array_offset in
    let first = f.header.entry_array_offset in
    let (i, tail_ne, at_tail) = Linked-tail f.disk 1 first tail e0 es chain in
    let (array, g, appended, (array_ne, here, others, link, plain, g_ok)) =
      append_entry_array-Placed tail entry_offset f ok (inr (tail_ne, i, at_tail)) in
    let entry =
      EntryAt-transport f.disk g entry_offset e
        (λ n p. plain (data_view p) (λ k i eq. ground arith) n)
        (λ n x. plain (entry_view x) (λ k i eq. ground arith) n) at in
    let first_ne = Linked-first f.disk 1 first tail e0 es chain in
    let first_is : (if first == 0 then array else first) ≡ first = ground (arith, ==_iff first 0) in
    (
      array,
      g,
      appended,
      plain,
      g_ok,
      below_size g g_ok array (main_view 0 entry_offset) here,
      subst (λ n. Linked g 1 n array e0 (es ++ (e ∷ []))) (sym first_is)
          (Linked-extend f.disk g 1 first tail array e0 es e others (link tail_ne) chain
            (entry_offset, array_ne, ne, here, entry, ground arith)),
    )
