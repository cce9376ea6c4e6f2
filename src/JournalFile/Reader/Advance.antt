-- ===== src/JournalFile/Reader/Advance.antt =====
-- pkg/journalfile/reader.go: the loop of `nextEntry` along the chain of all entries of a file.
use swash.Prelude.{
  ℕ, zero, suc, ◌+◌, ◌≤◌, ◌<◌, ◌≡◌, refl, sym, ap, ◌∙◌, subst, ◌≢◌, inl, inr, true, false, Option,
  none, some, List, [], ◌∷◌, arith, ltb, leb, ◌==◌, if◌then◌else◌, ==_iff, Bool-cases, length, All,
}
use swash.JournalFile.Objects.{Disk}
use swash.JournalFile.Objects.Views.{main_view, view_at}
use swash.JournalFile.Objects.Views.Found.{main_at, read_entry_array_at}
use swash.JournalFile.Reader.{
  JournalEntry, Reader, load_entry_array, Answer, got, end_of_file, current_slot, read_slot,
  next_array, advance, answer_or, advance_all, next,
}
use swash.JournalFile.Reader.Entry.{Fresh, read_entry-EntryAt}
use swash.JournalFile.Chain.{EntryAt, ArrayAt, Linked}

module _ (d : Disk) (total : ℕ) where
  -- The arrays from an offset on that the reader has not loaded.
  unfoldable pub Links : ℕ → ℕ → List JournalEntry → Type 0
  unfolding Linked
  Links n next [] = next ≡ 0
  Links n next (e ∷ es) = (tail : ℕ) × Linked d n next tail e es

  -- A reader at the end of its array, with these entries before it.
  unfoldable pub Pending : Reader → ℕ → List JournalEntry → Type 0
  unfolding Links
  Pending r n es =
      (r.iteration_initialized ≡ true)
      × (r.entry_array_offset ≢ 0)
      × (current_slot r ≡ 0)
      × (r.header.tail_entry_seqnum ≡ total)
      × (n + length es ≡ total + 1)
      × (n ≤ r.current_seqnum + 1)
      × Links n r.next_entry_array_offset es
      × All (λ e. Fresh [] e.fields) es

  -- What the loop answers: the first of the entries behind the reader's number, or the end.
  unfoldable pub Reads : Option (Answer × Reader) → ℕ → ℕ → List JournalEntry → Type 0
  unfolding Pending
  Reads o n seqnum [] = (r : Reader) × (o ≡ some (end_of_file, r))
  Reads o n seqnum (e ∷ es) =
      if leb n seqnum
      then Reads o (n + 1) seqnum es
      else ((r : Reader) × (o ≡ some (got e, r)) × Pending r (n + 1) es × (r.current_seqnum ≡ n))

  -- A reader at the slot of an array that it has loaded.
  abbrev pub loaded : ℕ → ℕ → ℕ → Reader → Reader
  loaded offset next entry_offset r = record r {
    entry_array_offset = offset;
    entry_array_entries = entry_offset ∷ [];
    entry_array_index = 0;
    next_entry_array_offset = next;
  }

  pub load_entry_array-loaded :
      (offset next entry_offset : ℕ) (r : Reader)
      → view_at offset d ≡ some (main_view next entry_offset)
      → load_entry_array d offset r ≡ some (loaded offset next entry_offset r)
  unfolding load_entry_array
  load_entry_array-loaded offset next entry_offset r at =
      let (a, found, link, one) = main_at d offset next entry_offset at in
      rw (read_entry_array_at d offset a found, link, one) refl

  advance-end :
      (r : Reader)
      → r.entry_array_offset ≢ 0
      → current_slot r ≡ 0
      → r.next_entry_array_offset ≡ 0
      → r.header.tail_entry_seqnum ≤ r.current_seqnum
      → advance d r ≡ (some end_of_file, r)
  unfolding advance
  advance-end r ne slot last behind_tail =
      let in_array : (r.entry_array_offset == 0) ≡ false =
        ground (arith, ==_iff r.entry_array_offset 0) in
      let no_slot : (current_slot r == 0) ≡ true = ground (arith, ==_iff (current_slot r) 0) in
      let no_next : (r.next_entry_array_offset == 0) ≡ true =
        ground (arith, ==_iff r.next_entry_array_offset 0) in
      let at_tail : ltb r.current_seqnum r.header.tail_entry_seqnum ≡ false = ground arith in
      rw (in_array, no_slot, no_next, at_tail) refl

  advance-next :
      (r : Reader)
      → r.entry_array_offset ≢ 0
      → current_slot r ≡ 0
      → r.next_entry_array_offset ≢ 0
      → advance d r ≡ next_array d r
  unfolding advance
  advance-next r ne slot next_ne =
      let in_array : (r.entry_array_offset == 0) ≡ false =
        ground (arith, ==_iff r.entry_array_offset 0) in
      let no_slot : (current_slot r == 0) ≡ true = ground (arith, ==_iff (current_slot r) 0) in
      let linked : (r.next_entry_array_offset == 0) ≡ false =
        ground (arith, ==_iff r.next_entry_array_offset 0) in
      rw (in_array, no_slot, linked) refl

  advance-slot :
      (r : Reader)
      → r.entry_array_offset ≢ 0
      → current_slot r ≢ 0
      → advance d r ≡ read_slot d (current_slot r) r
  unfolding advance
  advance-slot r ne slot_ne =
      let in_array : (r.entry_array_offset == 0) ≡ false =
        ground (arith, ==_iff r.entry_array_offset 0) in
      let taken : (current_slot r == 0) ≡ false = ground (arith, ==_iff (current_slot r) 0) in
      rw (in_array, taken) refl

  pub Linked-Links :
      (n offset tail : ℕ) (e : JournalEntry) (es : List JournalEntry)
      → Linked d n offset tail e es
      → (next : ℕ) × ArrayAt d n offset next e × Links (n + 1) next es
  unfolding Linked Links
  Linked-Links n offset tail e [] (at, last) = (0, at, refl)
  Linked-Links n offset tail e (e' ∷ es) (next, at, rest) = (next, at, (tail, rest))

  advance_all-again :
      (fuel : ℕ) (r s : Reader)
      → advance d r ≡ (none, s)
      → advance_all (suc fuel) d r ≡ advance_all fuel d s
  unfolding advance_all answer_or
  advance_all-again fuel r s e = rw e refl

  -- A reader behind the slot of its array, with a number.
  abbrev pub stepped : ℕ → ℕ → ℕ → ℕ → Reader → Reader
  stepped offset next entry_offset seqnum r = record (loaded offset next entry_offset r) {
    entry_array_index = 1;
    decoded_entries = r.decoded_entries + 1;
    current_seqnum = seqnum;
  }

  -- What does not depend on the array.
  abbrev pub Started : Reader → Type 0
  Started r = (r.iteration_initialized ≡ true) × (r.header.tail_entry_seqnum ≡ total)

  pub loaded-Reads :
      (fuel n offset next entry_offset : ℕ) (e : JournalEntry) (es : List JournalEntry) (r : Reader)
      → offset ≢ 0
      → entry_offset ≢ 0
      → EntryAt d entry_offset e
      → e.seqnum ≡ n
      → Links (n + 1) next es
      → All (λ e. Fresh [] e.fields) (e ∷ es)
      → Started r
      → n + suc (length es) ≡ total + 1
      → n ≤ r.current_seqnum + 1
      → ((s : Reader)
          → Pending s (n + 1) es
          → Reads (advance_all fuel d s) (n + 1) s.current_seqnum es)
      → Reads
          (advance_all (suc fuel) d (loaded offset next entry_offset r))
          n
          r.current_seqnum
          (e ∷ es)
  unfolding Reads Pending advance_all read_slot current_slot answer_or
  loaded-Reads fuel n offset next entry_offset e es r ne entry_ne at number links (fresh, more)
        (started, tail) count place rest =
      let l = loaded offset next entry_offset r in
      let steps : advance d l ≡ read_slot d entry_offset l = advance-slot l ne entry_ne in
      let reads = read_entry-EntryAt d entry_offset e at fresh in
      let pending : (k : ℕ) → n ≤ k → Pending (stepped offset next entry_offset k r) (n + 1) es =
        λ k le. (started, ne, refl, tail, omega arith, omega arith, links, more) in
      elim (Bool-cases (leb n r.current_seqnum)) [
        | inl old ↦
            let skips : advance d l ≡ (none, stepped offset next entry_offset r.current_seqnum r) =
              steps ∙ rw (read_slot, reads, ap (λ m. leb m r.current_seqnum) number ∙ old) refl in
            rw old (
              subst (λ o. Reads o (n + 1) r.current_seqnum es)
                (sym (
                  advance_all-again fuel l (stepped offset next entry_offset r.current_seqnum r)
                    skips))
                (rest (stepped offset next entry_offset r.current_seqnum r)
                  (pending r.current_seqnum (ground arith))))
        | inr new ↦
            let takes : advance d l ≡ (some (got e), stepped offset next entry_offset e.seqnum r) =
              steps ∙ rw (read_slot, reads, ap (λ m. leb m r.current_seqnum) number ∙ new) refl in
            rw (new, takes)
              (
                stepped offset next entry_offset e.seqnum r,
                refl,
                pending e.seqnum (omega arith),
                number,
              )
      ]

  pub Pending-Reads :
      (es : List JournalEntry) (fuel n : ℕ) (r : Reader)
      → length es + length es < fuel
      → Pending r n es
      → Reads (advance_all fuel d r) n r.current_seqnum es
  unfolding Pending Reads advance_all answer_or Links next_array ArrayAt
  Pending-Reads es zero n r enough pending = absurd (omega arith)
  Pending-Reads [] (suc fuel) n r enough (started, ne, slot, tail, count, place, last, fresh) =
      (r, rw (advance-end r ne slot last (omega arith)) refl)
  Pending-Reads (e ∷ es) (suc zero) n r enough pending = absurd (omega arith)
  Pending-Reads (e ∷ es) (suc (suc fuel)) n r enough
        (started, ne, slot, tail, count, place, (last, linked), fresh) =
      let (next, (entry_offset, array_ne, entry_ne, at, there, number), links) =
        Linked-Links n r.next_entry_array_offset last e es linked in
      let loads : advance d r ≡ (none, loaded r.next_entry_array_offset next entry_offset r) =
        advance-next r ne slot array_ne
        ∙ rw (next_array, load_entry_array-loaded r.next_entry_array_offset next entry_offset r at)
            refl in
      subst (λ o. Reads o n r.current_seqnum (e ∷ es))
        (sym (
          advance_all-again (suc fuel) r (loaded r.next_entry_array_offset next entry_offset r)
            loads))
        (loaded-Reads fuel n r.next_entry_array_offset next entry_offset e es r array_ne entry_ne
          there number links fresh (started, tail) count place
          (λ s. Pending-Reads es fuel (n + 1) s (omega arith)))
