-- ===== src/JournalFile/Writer/Invariant.antt =====
-- pkg/journalfile/journal.go: what holds of an open file between the writes, and the writes that the
-- chain of all entries does not notice.
use swash.Prelude.{ℕ, ◌≡◌, refl, ◌∙◌, ◌⊎◌, inl, inr, Option, some, Bytes}
use swash.JournalFile.Objects.{HashItem, Disk}
use swash.JournalFile.Objects.Views.{data_view, field_view, view_at, Keeps, Keeps-trans, DiskOk}
use swash.JournalFile.Writer.{File}

-- The caches and the hash table lead to objects of the right kind. A text in the cache is one of those
-- that are used, under its hash.
module _ (sip_hash24 : Bytes → Bytes → ℕ) (Used : Bytes → Type 0) where
  unfoldable pub Known : Disk → Bytes → (ℕ → Option ℕ) → (ℕ → Option ℕ) → (ℕ → HashItem) → Type 0
  Known d file_id data_cache field_cache data_hash_table =
      ((hash offset : ℕ)
        → data_cache hash ≡ some offset
        → (p : Bytes) × (view_at offset d ≡ some (data_view p))
          × Used p
          × (sip_hash24 p file_id ≡ hash))
      × ((hash offset : ℕ) → field_cache hash ≡ some offset → view_at offset d ≡ some field_view)
      × ((i : ℕ)
          → ((data_hash_table i).tail_hash_offset ≡ 0)
            ⊎ ((p : Bytes) × (view_at (data_hash_table i).tail_hash_offset d ≡ some (data_view p))))

  -- All of it is about data and field objects.
  pub Known-transport :
      (d g : Disk) (file_id : Bytes) (data_cache field_cache : ℕ → Option ℕ)
      (data_hash_table : ℕ → HashItem)
      → ((n : ℕ) (p : Bytes) → view_at n d ≡ some (data_view p) → view_at n g ≡ some (data_view p))
      → ((n : ℕ) → view_at n d ≡ some field_view → view_at n g ≡ some field_view)
      → Known d file_id data_cache field_cache data_hash_table
      → Known g file_id data_cache field_cache data_hash_table
  unfolding Known
  Known-transport d g file_id data_cache field_cache table texts field k = (
    (λ hash offset e.
        let (p, at, used, same_hash) = k.0 hash offset e in
        (p, texts offset p at, used, same_hash)),
    (λ hash offset e. field offset (k.1 hash offset e)),
    (λ i. elim (k.2 i) [ inl e ↦ inl e | inr (p, at) ↦ inr (p, texts _ p at) ]),
  )

  pub Known-Keeps :
      (d g : Disk) (file_id : Bytes) (data_cache field_cache : ℕ → Option ℕ)
      (data_hash_table : ℕ → HashItem)
      → Keeps d g
      → Known d file_id data_cache field_cache data_hash_table
      → Known g file_id data_cache field_cache data_hash_table
  unfolding Keeps
  Known-Keeps d g file_id data_cache field_cache table keep =
      Known-transport d g file_id data_cache field_cache table (λ n p. keep n (data_view p))
        (λ n. keep n field_view)

  -- No two of the texts that are used have the same hash.
  unfoldable pub NoClash : Bytes → Type 0
  NoClash file_id =
      (p q : Bytes) → Used p → Used q → sip_hash24 p file_id ≡ sip_hash24 q file_id → p ≡ q

  -- The invariant of an open file.
  unfoldable pub FileOk : File → Type 0
  unfolding Known
  FileOk f =
      DiskOk f.disk × Known f.disk f.header.file_id f.data_cache f.field_cache f.data_hash_table

  -- The ends and the number of the chain of all entries, and the ids.
  unfoldable pub chain_part : File → ℕ × ℕ × ℕ × Bytes × Bytes
  chain_part f = (
    f.header.entry_array_offset, f.header.tail_entry_array_offset, f.header.tail_entry_seqnum,
    f.header.file_id, f.boot_id,
  )

  -- More objects, with all that was there and the chain as it was.
  unfoldable pub Grown : File → File → Type 0
  unfolding FileOk chain_part
  Grown f g = Keeps f.disk g.disk × (chain_part g ≡ chain_part f) × FileOk g

  pub Grown-refl : (f : File) → FileOk f → Grown f f
  unfolding Grown Keeps
  Grown-refl f h = ((λ n v e. e), refl, h)

  pub Grown-trans : (f g k : File) → Grown f g → Grown g k → Grown f k
  unfolding Grown
  Grown-trans f g k a b = (Keeps-trans f.disk g.disk k.disk a.0 b.0, b.1 ∙ a.1, b.2)
