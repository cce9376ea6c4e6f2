-- ===== src/JournalFile/Reader/Drain.antt =====
-- pkg/journalfile/reader.go: a reader that reads to the end of a file.
use swash.Prelude.{
  ℕ, zero, suc, ◌+◌, ◌<◌, ◌≡◌, refl, sym, ap, ◌∙◌, subst, inl, inr, true, false, Option, none, some,
  List, [], ◌∷◌, arith, leb, ◌==◌, if◌then◌else◌, ==_iff, Bool-cases, length, drop, All, ◌>>=◌,
}
use swash.JournalFile.Objects.{Disk}
use swash.JournalFile.Reader.{
  JournalEntry, Reader, open_read, got, end_of_file, failed, start_iteration, answer_or,
  advance_all, next_entry, next,
}
use swash.JournalFile.Reader.Entry.{Fresh}
use swash.JournalFile.Reader.Advance.{
  Pending, Reads, loaded, load_entry_array-loaded, Linked-Links, loaded-Reads, Pending-Reads,
}
use swash.JournalFile.Chain.{ArrayAt, Chain}

-- A client that calls `Next` without matches until the end of the file: the entries, and no result
-- when there is an error or a loop does not end.
unfoldable pub read_all : ℕ → ℕ → Disk → Reader → Option (List JournalEntry)
unfolding next_entry
read_all zero fuel d r = none
read_all (suc rounds) fuel d r = elim (next_entry fuel d r) [
  | some (got e, after) ↦ (read_all rounds fuel d after >>= λ es. some (e ∷ es))
  | some (end_of_file, after) ↦ some []
  | some (failed, after) ↦ none
  | none ↦ none
]

-- The entries with numbers from n on that lie behind a number.
unfoldable behind : ℕ → ℕ → List JournalEntry → List JournalEntry
behind n seqnum [] = []
behind n seqnum (e ∷ es) = if leb n seqnum then behind (n + 1) seqnum es else e ∷ es

behind-below : (n seqnum : ℕ) (es : List JournalEntry) → seqnum < n → behind n seqnum es ≡ es
unfolding behind
behind-below n seqnum [] lt = refl
behind-below n seqnum (e ∷ es) lt = ground arith

behind-drop :
    (m n seqnum : ℕ) (es : List JournalEntry) → seqnum + 1 ≡ n + m → behind n seqnum es ≡ drop m es
unfolding behind
behind-drop zero n seqnum es count = behind-below n seqnum es (omega arith)
behind-drop (suc m) n seqnum [] count = refl
behind-drop (suc m) n seqnum (e ∷ es) count =
    let seen_before : leb n seqnum ≡ true = ground arith in
    rw seen_before (behind-drop m (n + 1) seqnum es (omega arith))

-- A file with these entries, as its own header says.
unfoldable pub Readable : Disk → List JournalEntry → Type 0
unfolding Chain
Readable d es =
    (tail : ℕ) × Chain d d.header.entry_array_offset tail es
    × (d.header.tail_entry_seqnum ≡ length es)

-- A reader of a file that has just been opened and sought a number.
abbrev pub opened_at : Disk → ℕ → Reader
opened_at d seqnum = record (open_read d) { current_seqnum = seqnum }

opened-Reads :
    (d : Disk) (es : List JournalEntry) (seqnum fuel : ℕ)
    → Readable d es
    → All (λ e. Fresh [] e.fields) es
    → length es + length es < fuel
    → Reads d (length es) (next_entry fuel d (opened_at d seqnum)) 1 seqnum es
unfolding Readable Chain Reads next_entry start_iteration answer_or open_read ArrayAt
opened-Reads d [] seqnum fuel (tail, (no_first, no_last), count) fresh enough =
    let empty : (d.header.entry_array_offset == 0) ≡ true =
      ground (arith, ==_iff d.header.entry_array_offset 0) in
    (record (opened_at d seqnum) { iteration_initialized = true }, rw empty refl)
opened-Reads d (e ∷ es) seqnum zero readable fresh enough = absurd (omega arith)
opened-Reads d (e ∷ es) seqnum (suc fuel) (tail, chain, count) fresh enough =
    let first = d.header.entry_array_offset in
    let r : Reader = record (opened_at d seqnum) { iteration_initialized = true } in
    let (next, (entry_offset, ne, entry_ne, at, there, number), links) =
      Linked-Links d (suc (length es)) 1 first tail e es chain in
    let some_entries : (first == 0) ≡ false = ground (arith, ==_iff first 0) in
    let starts : start_iteration d (opened_at d seqnum)
        ≡ (none, loaded d (suc (length es)) first next entry_offset r) =
      rw
        (
          start_iteration,
          some_entries,
          load_entry_array-loaded d (suc (length es)) first next entry_offset r at,
        )
        refl in
    subst
      (λ o. Reads d (suc (length es)) (answer_or o (advance_all (suc fuel) d)) 1 seqnum (e ∷ es))
      (sym starts)
      (loaded-Reads d (suc (length es)) fuel 1 first next entry_offset e es r ne entry_ne there
        number links fresh (refl, count) (omega arith) (omega arith)
        (λ s. Pending-Reads d (suc (length es)) es fuel 2 s (omega arith)))

-- A reader that reads on has started, and goes on with the loop.
next_entry-Pending :
    (d : Disk) (total fuel n : ℕ) (r : Reader) (es : List JournalEntry)
    → Pending d total r n es
    → next_entry fuel d r ≡ advance_all fuel d r
unfolding Pending next_entry start_iteration answer_or
next_entry-Pending d total fuel n r es pending = rw (next_entry, start_iteration, pending.0) refl

read_all-behind :
    (d : Disk) (total : ℕ) (es : List JournalEntry) (rounds fuel n : ℕ) (r : Reader)
    → length es < rounds
    → length es + length es < fuel
    → Reads d total (next_entry fuel d r) n r.current_seqnum es
    → read_all rounds fuel d r ≡ some (behind n r.current_seqnum es)
unfolding read_all behind Reads
read_all-behind d total es zero fuel n r enough fuel_enough reads = absurd (omega arith)
read_all-behind d total [] (suc rounds) fuel n r enough fuel_enough (s, e) = rw (read_all, e) refl
read_all-behind d total (e ∷ es) (suc rounds) fuel n r enough fuel_enough reads =
    elim (Bool-cases (leb n r.current_seqnum)) [
      | inl old ↦ rw old (
          read_all-behind d total es (suc rounds) fuel (n + 1) r (omega arith) (omega arith)
            (rw old at reads))
      | inr new ↦
          let (s, answers, pending, number) = rw new at reads in
          let goes_on =
            subst (λ o. Reads d total o (n + 1) s.current_seqnum es)
              (sym (next_entry-Pending d total fuel (n + 1) s es pending))
              (Pending-Reads d total es fuel (n + 1) s (omega arith) pending) in
          let rest : read_all rounds fuel d s ≡ some es =
            read_all-behind d total es rounds fuel (n + 1) s (omega arith) (omega arith) goes_on
            ∙ ap some (behind-below (n + 1) s.current_seqnum es (omega arith)) in
          rw new (rw (read_all, answers, rest) refl)
    ]

-- A reader without matches that opens a file with these entries, with keys that differ and have no `=`,
-- and seeks a number, gives the entries behind that number, in order, and then the end of the file. As
-- many calls as there are entries and one more are enough, each with two rounds for an entry and one.
pub read_all-drop :
    (d : Disk) (es : List JournalEntry) (seqnum rounds fuel : ℕ)
    → Readable d es
    → All (λ e. Fresh [] e.fields) es
    → length es < rounds
    → length es + length es < fuel
    → read_all rounds fuel d (opened_at d seqnum) ≡ some (drop seqnum es)
read_all-drop d es seqnum rounds fuel readable fresh enough fuel_enough =
    read_all-behind d (length es) es rounds fuel 1 (opened_at d seqnum) enough fuel_enough
      (opened-Reads d es seqnum fuel readable fresh fuel_enough)
    ∙ ap some (behind-drop seqnum 1 seqnum es (omega arith))
