-- ===== src/JournalFile/Writer/Entry/Many.antt =====
-- pkg/journalfile/journal.go: `AppendEntry`, many times, from a new file to the sync.
use swash.Prelude.{
  ℕ, ◌+◌, ◌≤◌, ◌≡◌, refl, sym, ap, ◌∙◌, subst, ◌⊎◌, inl, inr, true, Option, none, some, List, [],
  ◌∷◌, ◌++◌, append_assoc, append-nil, arith, All, Bytes,
}
use swash.JournalFile.Objects.{State, state_offline, state_online}
use swash.JournalFile.Objects.Views.{DiskOk, same_objects}
use swash.JournalFile.Writer.{File, initial_header, create_file, begin_write}
use swash.JournalFile.Writer.Invariant.{Known, Known-Keeps, NoClash, FileOk, chain_part, Grown}
use swash.JournalFile.Writer.Entry.{NewEntry, append_entry, append_entries}
use swash.JournalFile.Writer.Entry.Kept.{FieldOk, entry_items-Grown}
use swash.JournalFile.Writer.Entry.Appended.{logged, logged_from, Holds, append_entry_object-Holds}
use swash.JournalFile.Reader.{JournalEntry}
use swash.JournalFile.Chain.{Chain, Chain-Keeps}

pub State-cases : (s : State) → (s ≡ state_online) ⊎ (s ≡ state_offline)
State-cases state_online = inl refl
State-cases state_offline = inr refl

-- A file of at most 4 GiB, where the 32 bits of the header hold the offset of the last array.
abbrev pub Small : Option File → (File → Type 0) → Type 0
Small none Then = Unit
Small (some g) Then = (g.disk.size ≤ 4294967296) × Then g

module _ (sip_hash24 : Bytes → Bytes → ℕ) where
  -- The file stays within that size, append by append.
  unfoldable pub StaysSmall : List NewEntry → File → Type 0
  unfolding append_entry
  StaysSmall [] f = Unit
  StaysSmall (e ∷ es) f = Small (append_entry sip_hash24 e f) (StaysSmall es)

module _ (sip_hash24 : Bytes → Bytes → ℕ) (Used : Bytes → Type 0) where
  begin_write-Holds :
      (f : File) (es : List JournalEntry)
      → Holds sip_hash24 Used f es
      → Holds sip_hash24 Used (record (begin_write f) { dirty = true }) es
        × (chain_part sip_hash24 Used (begin_write f) ≡ chain_part sip_hash24 Used f)
  unfolding begin_write Holds FileOk Known chain_part Chain
  begin_write-Holds f es (ok, chain, number, synced) = elim (State-cases f.header.state) [
    | inl online ↦ rw (begin_write, online) ((ok, chain, number, inl refl), refl)
    | inr offline ↦
        let g : File = record f {
          header = record f.header { state = state_online };
          disk = record f.disk { header = record f.disk.header { state = state_online } };
          dirty = true;
        } in
        let (keeps, g_ok) = same_objects f.disk g.disk refl refl ok.0 in
        let known =
          Known-Keeps sip_hash24 Used f.disk g.disk f.header.file_id f.data_cache f.field_cache
            f.data_hash_table keeps ok.1 in
        let g_chain =
          Chain-Keeps f.disk g.disk f.header.entry_array_offset f.header.tail_entry_array_offset es
            keeps chain in
        rw (begin_write, offline) (((g_ok, known), g_chain, number, inl refl), refl)
  ]

  -- One append, while the file is under 4 GiB.
  append_entry-Holds :
      (e : NewEntry) (f : File) (es : List JournalEntry)
      → NoClash sip_hash24 Used f.header.file_id
      → All (FieldOk sip_hash24 Used) e.fields
      → Holds sip_hash24 Used f es
      → (g : File) × (append_entry sip_hash24 e f ≡ some g)
        × (g.header.file_id ≡ f.header.file_id)
        × (g.boot_id ≡ f.boot_id)
        × (g.header.tail_entry_seqnum ≡ f.header.tail_entry_seqnum + 1)
        × (g.disk.size ≤ 4294967296
            → Holds sip_hash24 Used g
                (es ++ (logged (f.header.tail_entry_seqnum + 1) f.boot_id e ∷ [])))
  unfolding append_entry Holds Grown chain_part
  append_entry-Holds e f es no_clash allowed holds =
      let b : File = record (begin_write f) { dirty = true } in
      let ((ok, chain, number, synced), same_part) = begin_write-Holds f es holds in
      let same_id : b.header.file_id ≡ f.header.file_id = ap (λ c. c.3) same_part in
      let same_boot : b.boot_id ≡ f.boot_id = ap (λ c. c.4) same_part in
      let same_seqnum : b.header.tail_entry_seqnum ≡ f.header.tail_entry_seqnum =
        ap (λ c. c.2) same_part in
      let (items, xor_hash, h, found, grown, shown) =
        entry_items-Grown sip_hash24 Used e.fields b
          (subst (NoClash sip_hash24 Used) (sym same_id) no_clash) allowed ok in
      let h_chain =
        subst (λ n. Chain h.disk n h.header.tail_entry_array_offset es)
          (sym (ap (λ c. c.0) grown.1))
          (subst (λ n. Chain h.disk b.header.entry_array_offset n es) (sym (ap (λ c. c.1) grown.1))
            (Chain-Keeps b.disk h.disk b.header.entry_array_offset b.header.tail_entry_array_offset
              es grown.0 chain)) in
      let h_seqnum : h.header.tail_entry_seqnum ≡ f.header.tail_entry_seqnum =
        ap (λ c. c.2) grown.1 ∙ same_seqnum in
      let h_boot : h.boot_id ≡ f.boot_id = ap (λ c. c.4) grown.1 ∙ same_boot in
      let (g, appended, id, boot, seqnum, g_holds) =
        append_entry_object-Holds sip_hash24 Used e xor_hash items h es shown grown.2 h_chain
          (ap (λ c. c.2) grown.1 ∙ number) in
      (
        g,
        rw (found, appended) refl,
        id ∙ ap (λ c. c.3) grown.1 ∙ same_id,
        boot ∙ h_boot,
        seqnum ∙ ap (λ n. n + 1) h_seqnum,
        (λ small.
            subst (λ n. Holds sip_hash24 Used g (es ++ (logged (n + 1) f.boot_id e ∷ []))) h_seqnum
              (subst
                (λ boot_id.
                  Holds sip_hash24 Used g
                    (es ++ (logged (h.header.tail_entry_seqnum + 1) boot_id e ∷ [])))
                h_boot (g_holds small))),
      )

  -- In an open file that holds some entries, appends of entries whose keys have no `=`, whose texts have
  -- hashes without a clash, and that keep the file within 4 GiB all succeed, and the file then holds the
  -- new entries, with their numbers, behind the old ones.
  pub append_entries-Holds :
      (es : List NewEntry) (f : File) (old : List JournalEntry)
      → NoClash sip_hash24 Used f.header.file_id
      → All (λ e. All (FieldOk sip_hash24 Used) e.fields) es
      → StaysSmall sip_hash24 es f
      → Holds sip_hash24 Used f old
      → (g : File) × (append_entries sip_hash24 es f ≡ some g)
        × Holds sip_hash24 Used g (old ++ logged_from (f.header.tail_entry_seqnum + 1) f.boot_id es)
  unfolding append_entries logged_from StaysSmall
  append_entries-Holds [] f old no_clash allowed fits holds =
      (f, refl, subst (Holds sip_hash24 Used f) (sym (append-nil old)) holds)
  append_entries-Holds (e ∷ es) f old no_clash (allowed, more_allowed) fits holds =
      let (g, appended, id, boot, seqnum, g_holds) =
        append_entry-Holds e f old no_clash allowed holds in
      let (g_small, g_fits) = subst (λ o. Small o (StaysSmall sip_hash24 es)) appended fits in
      let e' = logged (f.header.tail_entry_seqnum + 1) f.boot_id e in
      let (h, rest, h_holds) =
        append_entries-Holds es g (old ++ (e' ∷ []))
          (subst (NoClash sip_hash24 Used) (sym id) no_clash) more_allowed g_fits
          (g_holds g_small) in
      let place : File → ℕ → Bytes → Type 0 =
        λ k n boot_id. Holds sip_hash24 Used k (old ++ (e' ∷ logged_from (n + 1) boot_id es)) in
      (
        h,
        rw appended rest,
        subst (λ n. place h n f.boot_id) seqnum
            (subst (place h g.header.tail_entry_seqnum) boot (
              subst (Holds sip_hash24 Used h)
                (append_assoc old (e' ∷ [])
                  (logged_from (g.header.tail_entry_seqnum + 1) g.boot_id es))
                h_holds)),
      )

  -- A new file holds nothing.
  pub create_file-Holds :
      (file_id boot_id : Bytes) → Holds sip_hash24 Used (create_file file_id boot_id) []
  unfolding create_file Holds FileOk DiskOk Known Chain initial_header
  create_file-Holds file_id boot_id = (
    (
      (omega arith, (λ n behind. refl), (λ n o e. absurd (ground arith))),
      (
        (λ hash offset e. absurd (ground arith)),
        (λ hash offset e. absurd (ground arith)),
        (λ i. inl refl),
      ),
    ),
    (refl, refl),
    refl,
    inr refl,
  )
