-- ===== src/JournalFile/Objects/Views.antt =====
-- pkg/journalfile: what the chains and caches of a journal file rely on in each object, and the parts of
-- it that writes keep.
pub mod Found
use swash.Prelude.{
  ℕ, zero, suc, ◌+◌, ◌-◌, ◌*◌, ◌/◌, ◌%◌, ◌^◌, ◌≤◌, ◌<◌, min, max, ◌≡◌, refl, sym, ap, ◌∙◌, fun_ext,
  subst, ◌≢◌, ◌↔◌, ◌⊎◌, inl, inr, Bool, true, false, not, ◌&&◌, ◌||◌, Option, none, some, List, [],
  ◌∷◌, ◌++◌, map, append_assoc, append-nil, arith, ltb, leb, ◌==◌, if◌then◌else◌, ltb→lt, lt→ltb,
  ==_iff, Bool-cases, Option-cases, length, get_elem?, take, drop, replicate, select, length-append,
  length-replicate, length-drop, drop-append, take-append, select-append, All, All-append, Bytes,
  codes, Lacks, same, same_iff, same_refl, has_prefix, cut_prefix, cut_prefix-append, trim_prefix,
  cut, cut-append, split, cons_head, join, join_rest, split_view, split-append, split-Lacks,
  split-ne-nil, join-split, split-join, split-All-Lacks, Map, Fields, or_else, find, put, remove,
  copy, find-put, find-remove, find-copy, find-copy_nil, map_laws, ◌>>=◌, max_uint64, format_uint,
  parse_uint, parse_uint-format_uint, format_uint-Lacks, format_uint-injective, format_uint-ne-nil,
  parse_uint_value, parse_uint_value-format_uint,
}
use swash.JournalFile.Objects.{
  DataObject, FieldObject, EntryItem, EntryObject, EntryArrayObject, Object, data_object,
  field_object, entry_object, entry_array_object, object_size, HashItem, State, state_offline,
  state_online, Header, Disk, set_at, align64, next_offset, add_object, put_object, read_data,
  read_field, read_entry_object, read_entry_array,
}

-- What others rely on: the text of a data object, an entry, the link and the entry of an array with one
-- item, and of other arrays that they are such.
pub data View : Type 0 where
  data_view : Bytes → View
  field_view : View
  entry_view : EntryObject → View
  main_view : ℕ → ℕ → View
  side_view : View

abbrev pub array_view : ℕ → List ℕ → View
array_view next [] = side_view
array_view next (i ∷ []) = main_view next i
array_view next (i ∷ j ∷ items) = side_view

abbrev pub view : Object → View
view (data_object x) = data_view x.payload
view (field_object x) = field_view
view (entry_object e) = entry_view e
view (entry_array_object a) = array_view a.next_entry_array_offset a.items

abbrev pub seen : Option Object → Option View
seen none = none
seen (some o) = some (view o)

unfoldable pub view_at : ℕ → Disk → Option View
view_at offset d = seen (d.objects offset)

-- The second file has what the first has.
unfoldable pub Keeps : Disk → Disk → Type 0
Keeps d g = (offset : ℕ) (v : View) → view_at offset d ≡ some v → view_at offset g ≡ some v

pub Keeps-refl : (d : Disk) → Keeps d d
unfolding Keeps
Keeps-refl d offset v e = e

pub Keeps-trans : (a b c : Disk) → Keeps a b → Keeps b c → Keeps a c
unfolding Keeps
Keeps-trans a b c f g offset v e = g offset v (f offset v e)

-- The links in an object lead to arrays of more than one item, and forward.
unfoldable pub PtrOk : Disk → ℕ → Object → Type 0
PtrOk d offset (data_object x) =
    (x.entry_array_offset ≡ 0) ⊎ (view_at x.entry_array_offset d ≡ some side_view)
PtrOk d offset (field_object x) = Unit
PtrOk d offset (entry_object x) = Unit
PtrOk d offset (entry_array_object a) =
    array_view a.next_entry_array_offset a.items ≡ side_view
    → (a.next_entry_array_offset ≡ 0)
      ⊎ ((offset < a.next_entry_array_offset)
          × (view_at a.next_entry_array_offset d ≡ some side_view))

-- Nothing lies behind the end, and all links are right.
unfoldable pub DiskOk : Disk → Type 0
DiskOk d =
    (0 < d.size)
    × ((offset : ℕ) → d.size ≤ offset → d.objects offset ≡ none)
    × ((offset : ℕ) (o : Object) → d.objects offset ≡ some o → PtrOk d offset o)

pub below_size :
    (d : Disk) → DiskOk d → (offset : ℕ) (v : View) → view_at offset d ≡ some v → offset < d.size
unfolding DiskOk view_at
below_size d (pos, fresh, ok) offset v e = ground (arith, fresh offset)

-- Links to arrays of more than one item survive where those do.
pub PtrOk-transport :
    (d g : Disk) (offset : ℕ) (o : Object)
    → ((n : ℕ) → view_at n d ≡ some side_view → view_at n g ≡ some side_view)
    → PtrOk d offset o
    → PtrOk g offset o
unfolding PtrOk
PtrOk-transport d g offset (data_object x) k (inl e) = inl e
PtrOk-transport d g offset (data_object x) k (inr e) = inr (k _ e)
PtrOk-transport d g offset (field_object x) k h = h
PtrOk-transport d g offset (entry_object x) k h = h
PtrOk-transport d g offset (entry_array_object a) k h =
    λ s. elim (h s) [ inl e ↦ inl e | inr (lt, e) ↦ inr (lt, k _ e) ]

pub set_at_here : {A : Type 0} → (f : ℕ → A) (i : ℕ) (a : A) → set_at f i a i ≡ a
unfolding set_at
set_at_here f i a = ground (arith, ==_iff i i)

pub set_at_other : {A : Type 0} → (f : ℕ → A) (i : ℕ) (a : A) (j : ℕ) → j ≢ i → set_at f i a j ≡ f j
unfolding set_at
set_at_other f i a j ne = ground (arith, ==_iff j i)

-- What holds of the new value at its place, and of the others at theirs, holds of the whole map.
pub set_at-all :
    {A : Type 0}
    → (P : ℕ → A → Type 0) (f : ℕ → A) (i : ℕ) (a : A) → P i a
    → ((j : ℕ) → P j (f j))
    → (j : ℕ) → P j (set_at f i a j)
set_at-all P f i a new old j = elim (Bool-cases (j == i)) [
  | inl here ↦
      let at : j ≡ i = ground (arith, ==_iff j i) in
      subst (λ k. P k (set_at f i a k)) (sym at) (rw (set_at_here f i a) new)
  | inr other ↦
      let ne : j ≢ i = λ at. ground (arith, ==_iff j i) in rw (set_at_other f i a j ne) (old j)
]

pub size_next : (d : Disk) → d.size ≤ next_offset d
unfolding next_offset align64
size_next d = omega arith

pub next_offset-pos : (d : Disk) → DiskOk d → next_offset d ≢ 0
unfolding DiskOk
next_offset-pos d h e = ground (arith, size_next d, h.0)

pub add_object-view :
    (o : Object) (d : Disk) → view_at (next_offset d) (add_object o d) ≡ some (view o)
unfolding view_at add_object
add_object-view o d = rw (view_at, set_at_here d.objects (next_offset d) (some o)) refl

pub add_object-Keeps : (o : Object) (d : Disk) → DiskOk d → Keeps d (add_object o d)
unfolding Keeps add_object view_at
add_object-Keeps o d h offset v e =
    rw
      (
        view_at,
        set_at_other d.objects (next_offset d) (some o) offset
            (λ same. ground (arith, below_size d h offset v e, size_next d)),
      )
      e

-- A new object at an offset where none, or one of the same weight for links, was.
set_object-links :
    (d g : Disk) (offset : ℕ) (o : Object)
    → g.objects ≡ set_at d.objects offset (some o)
    → ((n : ℕ) → view_at n d ≡ some side_view → view_at n g ≡ some side_view)
    → DiskOk d
    → PtrOk d offset o
    → (n : ℕ) (p : Object) → g.objects n ≡ some p
    → PtrOk g n p
unfolding DiskOk
set_object-links d g offset o at_offset keep h ok n p e = elim (Bool-cases (n == offset)) [
  | inl here ↦
      let at : n ≡ offset = ground (arith, ==_iff n offset) in
      let found : o ≡ p =
        ground (arith, ap (λ f. f n) at_offset, set_at_here d.objects offset (some o)) in
      subst (λ q. PtrOk g n q) found
        (subst (λ k. PtrOk g k o) (sym at) (PtrOk-transport d g offset o keep ok))
  | inr other ↦
      let ne : n ≢ offset = λ at. ground (arith, ==_iff n offset) in
      let found : d.objects n ≡ some p =
        sym (ap (λ f. f n) at_offset ∙ set_at_other d.objects offset (some o) n ne) ∙ e in
      PtrOk-transport d g n p keep (h.2 n p found)
]

object_size-pos : (o : Object) → 0 < object_size o
unfolding object_size
object_size-pos (data_object x) = omega arith
object_size-pos (field_object x) = omega arith
object_size-pos (entry_object x) = omega arith
object_size-pos (entry_array_object x) = omega arith

pub add_object-DiskOk :
    (o : Object) (d : Disk) → DiskOk d → PtrOk d (next_offset d) o → DiskOk (add_object o d)
unfolding DiskOk add_object Keeps
add_object-DiskOk o d h p = (
  ground (arith, h.0, size_next d),
  (λ n behind.
      set_at_other d.objects (next_offset d) (some o) n
        (λ at. ground (arith, size_next d, object_size-pos o))
      ∙ h.1 n (ground (arith, size_next d))),
  set_object-links d (add_object o d) (next_offset d) o refl
      (λ n. add_object-Keeps o d h n side_view) h p,
)

-- An object in place of one. What is elsewhere stays.
pub put_object-view :
    (offset : ℕ) (o : Object) (d : Disk) → view_at offset (put_object offset o d) ≡ some (view o)
unfolding view_at put_object
put_object-view offset o d = rw (view_at, set_at_here d.objects offset (some o)) refl

pub put_object-view_other :
    (offset : ℕ) (o : Object) (d : Disk) (n : ℕ)
    → n ≢ offset
    → view_at n (put_object offset o d) ≡ view_at n d
unfolding view_at put_object
put_object-view_other offset o d n ne =
    rw (view_at, set_at_other d.objects offset (some o) n ne) refl

-- One with the same view keeps everything.
pub put_object-Keeps :
    (offset : ℕ) (o : Object) (d : Disk)
    → view_at offset d ≡ some (view o)
    → Keeps d (put_object offset o d)
unfolding Keeps
put_object-Keeps offset o d same n v e = elim (Bool-cases (n == offset)) [
  | inl here ↦
      let at : n ≡ offset = ground (arith, ==_iff n offset) in
      subst (λ k. view_at k (put_object offset o d) ≡ some v) (sym at)
        (put_object-view offset o d ∙ sym same ∙ sym (ap (λ k. view_at k d) at) ∙ e)
  | inr other ↦
      let ne : n ≢ offset = λ at. ground (arith, ==_iff n offset) in
      put_object-view_other offset o d n ne ∙ e
]

pub put_object-DiskOk :
    (offset : ℕ) (o : Object) (d : Disk) (v : View)
    → view_at offset d ≡ some v
    → ((n : ℕ) → view_at n d ≡ some side_view → view_at n (put_object offset o d) ≡ some side_view)
    → DiskOk d
    → PtrOk d offset o
    → DiskOk (put_object offset o d)
unfolding DiskOk put_object
put_object-DiskOk offset o d v here keep h p = (
  h.0,
  (λ n behind.
      set_at_other d.objects offset (some o) n (λ at. ground (arith, below_size d h offset v here))
      ∙ h.1 n behind),
  set_object-links d (put_object offset o d) offset o refl keep h p,
)

-- A write of an object over one with the same view and right links.
pub update_object :
    (offset : ℕ) (o p : Object) (d : Disk)
    → d.objects offset ≡ some o
    → view p ≡ view o
    → PtrOk d offset p
    → DiskOk d
    → Keeps d (put_object offset p d) × DiskOk (put_object offset p d)
unfolding view_at Keeps
update_object offset o p d at same ok h =
    let here : view_at offset d ≡ some (view p) = ap seen at ∙ ap some (sym same) in
    let keeps = put_object-Keeps offset p d here in
    (keeps, put_object-DiskOk offset p d (view p) here (λ n. keeps n side_view) h ok)

-- The tables and the header do not matter.
pub same_objects :
    (d g : Disk) → g.objects ≡ d.objects → g.size ≡ d.size → DiskOk d → Keeps d g × DiskOk g
unfolding DiskOk Keeps view_at
same_objects d g objects size h =
    let keeps : (n : ℕ) (v : View) → seen (d.objects n) ≡ some v → seen (g.objects n) ≡ some v =
      λ n v e. ap (λ f. seen (f n)) objects ∙ e in
    (
      keeps,
      (
        ground (arith, h.0),
        (λ n behind. ap (λ f. f n) objects ∙ h.1 n (ground arith)),
        (λ n o e.
            PtrOk-transport d g n o (λ k. keeps k side_view)
              (h.2 n o (sym (ap (λ f. f n) objects) ∙ e))),
      ),
    )
