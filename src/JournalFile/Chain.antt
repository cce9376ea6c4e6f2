-- ===== src/JournalFile/Chain.antt =====
-- pkg/journalfile: the chain of all entries, as the arrays that the header leads to.
use swash.Prelude.{
  ℕ, ◌+◌, ◌≡◌, refl, sym, ap, ◌∙◌, subst, ◌≢◌, some, List, [], ◌∷◌, ◌++◌, arith, length, Bytes,
  Fields,
}
use swash.JournalFile.Objects.{EntryItem, EntryObject, Disk}
use swash.JournalFile.Objects.Views.{View, data_view, entry_view, main_view, view_at, Keeps}
use swash.JournalFile.Writer.Entry.{field_data}
use swash.JournalFile.Reader.{JournalEntry, next}

-- The items lead to data objects with the texts of the fields.
unfoldable pub Items : Disk → List EntryItem → Fields → Type 0
Items d [] [] = Unit
Items d [] (field ∷ fields) = ⊥
Items d (item ∷ items) [] = ⊥
Items d (item ∷ items) (field ∷ fields) =
    (view_at item.object_offset d ≡ some (data_view (field_data field))) × Items d items fields

-- The object of an entry, with items for its fields.
unfoldable pub EntryAt : Disk → ℕ → JournalEntry → Type 0
unfolding Items
EntryAt d offset e =
    (xor_hash : ℕ) × (items : List EntryItem) × (view_at offset d
      ≡ some (
          entry_view (record {
            seqnum = e.seqnum;
            realtime = e.realtime;
            monotonic = e.monotonic;
            boot_id = e.boot_id;
            xor_hash = xor_hash;
            items = items;
          })))
    × Items d items e.fields

-- An array for the entry with this number, and its link.
unfoldable pub ArrayAt : Disk → ℕ → ℕ → ℕ → JournalEntry → Type 0
unfolding EntryAt
ArrayAt d seqnum offset next e =
    (entry_offset : ℕ) × (offset ≢ 0)
    × (entry_offset ≢ 0)
    × (view_at offset d ≡ some (main_view next entry_offset))
    × EntryAt d entry_offset e
    × (e.seqnum ≡ seqnum)

-- The arrays of entries with numbers from this one on, from the first array to the last.
unfoldable pub Linked : Disk → ℕ → ℕ → ℕ → JournalEntry → List JournalEntry → Type 0
unfolding ArrayAt
Linked d seqnum offset tail e [] = ArrayAt d seqnum offset 0 e × (tail ≡ offset)
Linked d seqnum offset tail e (e' ∷ es) =
    (next : ℕ) × ArrayAt d seqnum offset next e × Linked d (seqnum + 1) next tail e' es

-- The whole chain between the offsets of its first and its last array.
unfoldable pub Chain : Disk → ℕ → ℕ → List JournalEntry → Type 0
unfolding Linked
Chain d offset tail [] = (offset ≡ 0) × (tail ≡ 0)
Chain d offset tail (e ∷ es) = Linked d 1 offset tail e es

-- A file with more in it, where the link of the array at an offset may have changed.
abbrev pub KeepsOthers : ℕ → Disk → Disk → Type 0
KeepsOthers tail d g = (n : ℕ) (v : View) → n ≢ tail → view_at n d ≡ some v → view_at n g ≡ some v

Items-transport :
    (d g : Disk) (items : List EntryItem) (fields : Fields)
    → ((n : ℕ) (p : Bytes) → view_at n d ≡ some (data_view p) → view_at n g ≡ some (data_view p))
    → Items d items fields
    → Items g items fields
unfolding Items
Items-transport d g [] [] texts h = h
Items-transport d g [] (field ∷ fields) texts h = h
Items-transport d g (item ∷ items) [] texts h = h
Items-transport d g (item ∷ items) (field ∷ fields) texts h =
    (texts item.object_offset (field_data field) h.0, Items-transport d g items fields texts h.1)

pub Items-Keeps :
    (d g : Disk) (items : List EntryItem) (fields : Fields)
    → Keeps d g
    → Items d items fields
    → Items g items fields
unfolding Keeps
Items-Keeps d g items fields keep = Items-transport d g items fields (λ n p. keep n (data_view p))

pub EntryAt-transport :
    (d g : Disk) (offset : ℕ) (e : JournalEntry)
    → ((n : ℕ) (p : Bytes) → view_at n d ≡ some (data_view p) → view_at n g ≡ some (data_view p))
    → ((n : ℕ) (x : EntryObject)
        → view_at n d ≡ some (entry_view x)
        → view_at n g ≡ some (entry_view x))
    → EntryAt d offset e
    → EntryAt g offset e
unfolding EntryAt
EntryAt-transport d g offset e texts entry (xor_hash, items, at, shown) =
    (xor_hash, items, entry offset _ at, Items-transport d g items e.fields texts shown)

ArrayAt-transport :
    (d g : Disk) (seqnum offset next next' : ℕ) (e : JournalEntry)
    → ((n : ℕ) (p : Bytes) → view_at n d ≡ some (data_view p) → view_at n g ≡ some (data_view p))
    → ((n : ℕ) (x : EntryObject)
        → view_at n d ≡ some (entry_view x)
        → view_at n g ≡ some (entry_view x))
    → ((i : ℕ)
        → view_at offset d ≡ some (main_view next i)
        → view_at offset g ≡ some (main_view next' i))
    → ArrayAt d seqnum offset next e
    → ArrayAt g seqnum offset next' e
unfolding ArrayAt
ArrayAt-transport d g seqnum offset next next' e texts entry main (i, ne, ne', at, there, number) =
    (i, ne, ne', main i at, EntryAt-transport d g i e texts entry there, number)

-- More objects keep a chain.
pub Linked-Keeps :
    (d g : Disk) (seqnum offset tail : ℕ) (e : JournalEntry) (es : List JournalEntry)
    → Keeps d g
    → Linked d seqnum offset tail e es
    → Linked g seqnum offset tail e es
unfolding Linked Keeps
Linked-Keeps d g seqnum offset tail e [] keep (at, last) = (
  ArrayAt-transport d g seqnum offset 0 0 e (λ n p. keep n (data_view p))
      (λ n x. keep n (entry_view x)) (λ i. keep offset (main_view 0 i)) at,
  last,
)
Linked-Keeps d g seqnum offset tail e (e' ∷ es) keep (next, at, rest) = (
  next,
  ArrayAt-transport d g seqnum offset next next e (λ n p. keep n (data_view p))
      (λ n x. keep n (entry_view x)) (λ i. keep offset (main_view next i)) at,
  Linked-Keeps d g (seqnum + 1) next tail e' es keep rest,
)

pub Chain-Keeps :
    (d g : Disk) (offset tail : ℕ) (es : List JournalEntry)
    → Keeps d g
    → Chain d offset tail es
    → Chain g offset tail es
unfolding Chain
Chain-Keeps d g offset tail [] keep chain = chain
Chain-Keeps d g offset tail (e ∷ es) keep chain = Linked-Keeps d g 1 offset tail e es keep chain

-- The last array of a chain, which has no link.
pub Linked-tail :
    (d : Disk) (seqnum offset tail : ℕ) (e : JournalEntry) (es : List JournalEntry)
    → Linked d seqnum offset tail e es
    → (i : ℕ) × (tail ≢ 0) × (view_at tail d ≡ some (main_view 0 i))
unfolding Linked ArrayAt
Linked-tail d seqnum offset tail e [] ((i, ne, ne', at, there, number), last) =
    (i, (λ zero_tail. ne (sym last ∙ zero_tail)), ap (λ n. view_at n d) last ∙ at)
Linked-tail d seqnum offset tail e (e' ∷ es) (next, at, rest) =
    Linked-tail d (seqnum + 1) next tail e' es rest

-- A view other than that of the last array is elsewhere.
pub elsewhere :
    (d g : Disk) (tail i : ℕ) (v : View)
    → KeepsOthers tail d g
    → view_at tail d ≡ some (main_view 0 i)
    → v ≢ main_view 0 i
    → (n : ℕ) → view_at n d ≡ some v
    → view_at n g ≡ some v
elsewhere d g tail i v keep at ne n e =
    keep n v (λ same_place. ne ground (arith, ap (λ k. view_at k d) same_place)) e

pub Linked-first :
    (d : Disk) (seqnum offset tail : ℕ) (e : JournalEntry) (es : List JournalEntry)
    → Linked d seqnum offset tail e es
    → offset ≢ 0
unfolding Linked ArrayAt
Linked-first d seqnum offset tail e [] (at, last) = at.1
Linked-first d seqnum offset tail e (e' ∷ es) (next, at, rest) = at.1

-- A new last array that the old one links to.
pub Linked-extend :
    (d g : Disk) (seqnum offset tail new : ℕ) (e : JournalEntry) (es : List JournalEntry)
    (e' : JournalEntry)
    → KeepsOthers tail d g
    → ((i : ℕ) → view_at tail d ≡ some (main_view 0 i) → view_at tail g ≡ some (main_view new i))
    → Linked d seqnum offset tail e es
    → ArrayAt g (seqnum + 1 + length es) new 0 e'
    → Linked g seqnum offset new e (es ++ (e' ∷ []))
unfolding Linked
Linked-extend d g seqnum offset tail new e [] e' keep link chain added =
    let (i, tail_ne, at_tail) = Linked-tail d seqnum offset tail e [] chain in
    (
      new,
      ArrayAt-transport d g seqnum offset 0 new e
          (λ n p. elsewhere d g tail i (data_view p) keep at_tail (λ eq. ground arith) n)
          (λ n x. elsewhere d g tail i (entry_view x) keep at_tail (λ eq. ground arith) n)
          (λ k at.
            subst (λ n. view_at n d ≡ some (main_view 0 k) → view_at n g ≡ some (main_view new k))
              chain.1 (link k) at)
          chain.0,
      (subst (λ n. ArrayAt g n new 0 e') (omega arith) added, refl),
    )
Linked-extend d g seqnum offset tail new e (e2 ∷ es) e' keep link (next, at, rest) added =
    let (i, tail_ne, at_tail) = Linked-tail d (seqnum + 1) next tail e2 es rest in
    let next_ne = Linked-first d (seqnum + 1) next tail e2 es rest in
    (
      next,
      ArrayAt-transport d g seqnum offset next next e
          (λ n p. elsewhere d g tail i (data_view p) keep at_tail (λ eq. ground arith) n)
          (λ n x. elsewhere d g tail i (entry_view x) keep at_tail (λ eq. ground arith) n)
          (λ k. elsewhere d g tail i (main_view next k) keep at_tail (λ eq. ground arith) offset)
          at,
      Linked-extend d g (seqnum + 1) next tail new e2 es e' keep link rest
          (subst (λ n. ArrayAt g n new 0 e') (omega arith) added),
    )
