-- ===== src/JournalFile/Writer/Entry/Kept.antt =====
-- pkg/journalfile/journal.go: the items of an entry and the link of the last array.
use swash.Prelude.{
  ℕ, ◌≡◌, refl, sym, ap, ◌∙◌, subst, ◌≢◌, false, some, List, [], ◌∷◌, arith, ◌==◌, ==_iff, All,
  Bytes, Lacks, cut-append, Fields,
}
use swash.JournalFile.Objects.{EntryItem, Object, entry_array_object, Disk, put_object}
use swash.JournalFile.Objects.Views.{
  View, data_view, main_view, side_view, array_view, view, view_at, Keeps, PtrOk, DiskOk,
  put_object-view, put_object-view_other, put_object-DiskOk,
}
use swash.JournalFile.Objects.Views.Found.{main_at, read_entry_array_at}
use swash.JournalFile.Writer.{File}
use swash.JournalFile.Writer.Invariant.{NoClash, FileOk, chain_part, Grown, Grown-refl, Grown-trans}
use swash.JournalFile.Writer.Data.Kept.{data_offset-Grown}
use swash.JournalFile.Writer.Arrays.{link_items}
use swash.JournalFile.Writer.Arrays.Kept.{link_data_to_entry-Grown}
use swash.JournalFile.Writer.Entry.{field_data, set_next_array, entry_items}
use swash.JournalFile.Chain.{Items, KeepsOthers, Items-Keeps}
use swash.JournalFile.Lookup3.{jenkins_hash64}
use Prim.Native.Nat.{bit_xor}

-- The link of the last array, which changes it and nothing else.
pub set_next_array-links :
    (tail new i : ℕ) (d : Disk)
    → DiskOk d
    → tail ≢ 0
    → view_at tail d ≡ some (main_view 0 i)
    → (g : Disk) × (set_next_array tail new d ≡ some g)
      × KeepsOthers tail d g
      × (view_at tail g ≡ some (main_view new i))
      × DiskOk g
unfolding set_next_array PtrOk
set_next_array-links tail new i d ok ne at =
    let (a, found, last, one) = main_at d tail 0 i at in
    let p : Object = entry_array_object (record a { next_entry_array_offset = new }) in
    let shown : view p ≡ main_view new i = ap (array_view new) one in
    let others = λ (n : ℕ) (v : View) (n_ne : n ≢ tail) (e : view_at n d ≡ some v).
      put_object-view_other tail p d n n_ne ∙ e in
    let tail_no : (tail == 0) ≡ false = ground (arith, ==_iff tail 0) in
    (
      put_object tail p d,
      rw (tail_no, read_entry_array_at d tail a found) refl,
      others,
      put_object-view tail p d ∙ ap some shown,
      put_object-DiskOk tail p d (main_view 0 i) at
          (λ n side.
            others n side_view (λ same_place. ground (arith, ap (λ k. view_at k d) same_place))
              side)
          ok (λ side. absurd (ground arith)),
    )

module _ (sip_hash24 : Bytes → Bytes → ℕ) (Used : Bytes → Type 0) where
  pub link_items-Grown :
      (items : List EntryItem) (fields : Fields) (entry_offset : ℕ) (f : File)
      → Items f.disk items fields
      → FileOk sip_hash24 Used f
      → (g : File) × (link_items items entry_offset f ≡ some g) × Grown sip_hash24 Used f g
  unfolding link_items Items Grown
  link_items-Grown [] fields entry_offset f shown ok = (f, refl, Grown-refl sip_hash24 Used f ok)
  link_items-Grown (item ∷ items) [] entry_offset f shown ok = absurd shown
  link_items-Grown (item ∷ items) (field ∷ fields) entry_offset f (at, shown) ok =
      let (g, linked, grown) =
        link_data_to_entry-Grown sip_hash24 Used item.object_offset entry_offset (field_data field)
          f at ok in
      let (h, rest, more) =
        link_items-Grown items fields entry_offset g
          (Items-Keeps f.disk g.disk items fields grown.0 shown) grown.2 in
      (h, rw linked rest, Grown-trans sip_hash24 Used f g h grown more)

  -- A field that an entry may have: its text is used, and its key has no `=`.
  unfoldable pub FieldOk : Bytes × Bytes → Type 0
  FieldOk field = Used (field_data field) × Lacks b'=' field.0

  pub entry_items-Grown :
      (fields : Fields) (f : File)
      → NoClash sip_hash24 Used f.header.file_id
      → All FieldOk fields
      → FileOk sip_hash24 Used f
      → (items : List EntryItem) × (xor_hash : ℕ) × (g : File) × (entry_items sip_hash24 fields f
          ≡ some (items, xor_hash, g))
        × Grown sip_hash24 Used f g
        × Items g.disk items fields
  unfolding entry_items Items FieldOk Grown chain_part Keeps field_data
  entry_items-Grown [] f no_clash allowed ok = ([], 0, f, refl, Grown-refl sip_hash24 Used f ok, tt)
  entry_items-Grown ((k, v) ∷ fields) f no_clash (allowed, more_allowed) ok =
      let payload = field_data (k, v) in
      let (offset, g, found, grown, at) =
        data_offset-Grown sip_hash24 Used payload k v f no_clash allowed.0
          (cut-append b'=' k v allowed.1) ok in
      let same_id : g.header.file_id ≡ f.header.file_id = ap (λ c. c.3) grown.1 in
      let (items, xor_hash, h, rest, more, shown) =
        entry_items-Grown fields g (subst (NoClash sip_hash24 Used) (sym same_id) no_clash)
          more_allowed grown.2 in
      (
        record { object_offset = offset; hash = sip_hash24 payload f.header.file_id } ∷ items,
        bit_xor (jenkins_hash64 payload) xor_hash,
        h,
        rw (found, rest) refl,
        Grown-trans sip_hash24 Used f g h grown more,
        (more.0 offset (data_view payload) at, shown),
      )
