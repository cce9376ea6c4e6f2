-- ===== src/Journal/Fake/Resume.antt =====
-- `Poll` of internal/journal/fake.go resumes behind the last entry that it returned.
use swash.Prelude.{
  ℕ, ◌+◌, ◌≤◌, ◌<◌, ◌≡◌, refl, sym, ap, ◌∙◌, ◌≢◌, ◌⊎◌, inl, inr, Bool, false, some, List, [], ◌∷◌,
  ◌++◌, append_assoc, arith, Bool-cases, Option-cases, length, select, length-append, select-append,
  Bytes, same, same_iff, same_refl, max_uint64, format_uint, parse_uint, parse_uint-format_uint,
}
use swash.Journal.{EventRecord, EventFilter, Entry, matches_filters}
use swash.Journal.Fake.{FakeJournal, write_entry, after_cursor, from_cursor, last_cursor, poll}

-- The cursors are the numbers n + 1, n + 2, … in order.
abbrev pub Numbered : ℕ → List EventRecord → Type 0
Numbered n [] = Unit
Numbered n (e ∷ es) = (e.cursor ≡ format_uint (n + 1)) × Numbered (n + 1) es

-- A journal that `Write` alone has filled, with less than 2 ^ 64 entries.
pub record IsNumbered (f : FakeJournal) : Type 0 where
  pub numbered : Numbered 0 f.entries
  pub counted : f.cursor ≡ length f.entries
  pub bounded : length f.entries ≤ max_uint64

Numbered-append :
    (n : ℕ) (es : List EventRecord) (e : EventRecord)
    → Numbered n es
    → e.cursor ≡ format_uint (n + length es + 1)
    → Numbered n (es ++ e ∷ [])
Numbered-append n [] e h c = (c ∙ ap format_uint (omega arith), tt)
Numbered-append n (x ∷ es) e (hx, h) c =
    (hx, Numbered-append (n + 1) es e h (c ∙ ap format_uint (omega arith)))

-- A write, while there is room for its number, keeps the cursors consecutive, and it adds one entry
-- behind the old ones with the message and the fields that were written.
pub write_entry-IsNumbered :
    (now : ℕ) (e : Entry) (f g : FakeJournal)
    → write_entry now e f ≡ some g
    → length f.entries < max_uint64
    → IsNumbered f
    → IsNumbered g
      × ((r : EventRecord) × (g.entries ≡ f.entries ++ r ∷ [])
          × (r.message ≡ e.message)
          × (r.fields ≡ e.fields))
unfolding write_entry
write_entry-IsNumbered now e f g w room v =
    let r : EventRecord = record {
      cursor = format_uint (f.cursor + 1);
      timestamp = now;
      message = e.message;
      fields = e.fields;
    } in
    let grown : g.entries ≡ f.entries ++ r ∷ [] = ground arith in
    let size = ap length grown ∙ length-append f.entries (r ∷ []) in
    (
      record {
        numbered =
            rw grown (
              Numbered-append 0 f.entries r v.numbered (ap format_uint (omega (arith, v.counted))));
        counted = ground (arith, size);
        bounded = omega (arith, size);
      },
      (r, grown, refl, refl),
    )

format_uint-injective :
    (m n : ℕ) → m ≤ max_uint64 → n ≤ max_uint64 → format_uint m ≡ format_uint n → m ≡ n
format_uint-injective m n hm hn e =
    cc (parse_uint-format_uint m hm, parse_uint-format_uint n hn, ap parse_uint e)

Numbered-middle :
    (n : ℕ) (before after : List EventRecord) (e : EventRecord)
    → Numbered n (before ++ e ∷ after)
    → e.cursor ≡ format_uint (n + length before + 1)
Numbered-middle n [] after e h = h.0 ∙ ap format_uint (omega arith)
Numbered-middle n (x ∷ before) after e h =
    Numbered-middle (n + 1) before after e h.1 ∙ ap format_uint (omega arith)

-- In numbered entries a cursor leads to the place behind its own entry.
after_cursor-append :
    (n : ℕ) (before after : List EventRecord) (e : EventRecord)
    → Numbered n (before ++ e ∷ after)
    → n + length (before ++ e ∷ after) ≤ max_uint64
    → after_cursor e.cursor (before ++ e ∷ after) ≡ some after
unfolding after_cursor
after_cursor-append n [] after e h b = ground (arith, same_refl e.cursor)
after_cursor-append n (x ∷ before) after e h b =
    let later = Numbered-middle (n + 1) before after e h.1 in
    let size = length-append before (e ∷ after) in
    elim (Bool-cases (same x.cursor e.cursor)) [
      | inl hit ↦
          let twice = sym h.0 ∙ (same_iff x.cursor e.cursor).0 hit ∙ later in
          absurd (
            omega (
              arith,
              format_uint-injective (n + 1) (n + 1 + length before + 1) (omega (arith, size))
                  (omega (arith, size)) twice,
            ))
      | inr miss ↦ rw miss (after_cursor-append (n + 1) before after e h.1 (omega arith))
    ]

after_cursor-suffix :
    (c : Bytes) (es rest : List EventRecord)
    → after_cursor c es ≡ some rest
    → (before : List EventRecord) × (es ≡ before ++ rest)
unfolding after_cursor
after_cursor-suffix c [] rest h = cc
after_cursor-suffix c (e ∷ es) rest h = elim (Bool-cases (same e.cursor c)) [
  | inl hit ↦ (e ∷ [], ground arith)
  | inr miss ↦
      let (before, split_at) = after_cursor-suffix c es rest (ground arith) in
      (e ∷ before, ap (◌∷◌ e) split_at)
]

-- Where the last of the entries that pass a test stands.
last_cursor-select :
    (p : EventRecord → Bool) (es : List EventRecord) (c : Bytes)
    → ((select p es ≡ []) × (last_cursor c (select p es) ≡ c))
      ⊎ ((before : List EventRecord) × (e : EventRecord) × (after : List EventRecord) × (es
            ≡ before ++ e ∷ after)
          × (last_cursor c (select p es) ≡ e.cursor)
          × (select p after ≡ []))
unfolding last_cursor
last_cursor-select p [] c = inl (refl, refl)
last_cursor-select p (x ∷ es) c = elim (Bool-cases (p x)) [
  | inl pass ↦ rw pass (elim (last_cursor-select p es x.cursor) [
    | inl (none_later, l) ↦ inr ([], x, es, refl, l, none_later)
    | inr (before, e, after, split_at, l, none_later) ↦
        inr (x ∷ before, e, after, ap (◌∷◌ x) split_at, l, none_later)
  ])
  | inr fail ↦ rw fail (elim (last_cursor-select p es c) [
    | inl none_later ↦ inl none_later
    | inr (before, e, after, split_at, l, none_later) ↦
        inr (x ∷ before, e, after, ap (◌∷◌ x) split_at, l, none_later)
  ])
]

from_cursor-after_cursor :
    (c : Bytes) (es rest : List EventRecord)
    → c ≢ []
    → after_cursor c es ≡ some rest
    → from_cursor c es ≡ rest
unfolding from_cursor
from_cursor-after_cursor [] es rest ne h = absurd (ne refl)
from_cursor-after_cursor (c ∷ cs) es rest ne h = rw (h, from_cursor)

-- The entries from a cursor on are the end of all entries.
from_cursor-suffix :
    (c : Bytes) (es : List EventRecord)
    → (before : List EventRecord) × (es ≡ before ++ from_cursor c es)
unfolding from_cursor
from_cursor-suffix [] es = ([], refl)
from_cursor-suffix (c ∷ cs) es = elim (Option-cases (after_cursor (c ∷ cs) es)) [
  | inl miss ↦ ([], rw (miss, from_cursor))
  | inr (rest, hit) ↦
      let (before, e) = after_cursor-suffix (c ∷ cs) es rest hit in
      (before, rw (hit, from_cursor) e)
]

bound_of : (g : FakeJournal) → IsNumbered g → 0 + length g.entries ≤ max_uint64
bound_of g v = omega (arith, v.bounded)

-- The entries behind the last one that a poll returned.
from_cursor-last :
    (p : EventRecord → Bool) (c last : Bytes) (f g : FakeJournal) (more : List EventRecord)
    → IsNumbered g
    → g.entries ≡ f.entries ++ more
    → last ≢ []
    → last ≡ last_cursor [] (select p (from_cursor c f.entries))
    → select p (from_cursor last g.entries) ≡ select p more
from_cursor-last p c last f g more v grown ne is_last =
    let (pre, start) = from_cursor-suffix c f.entries in
    elim (last_cursor-select p (from_cursor c f.entries) []) [
      | inl (_, l) ↦ absurd (ne (is_last ∙ l))
      | inr (before, e, after, split_at, l, none_later) ↦
          let place : g.entries ≡ (pre ++ before) ++ e ∷ (after ++ more) =
            grown ∙ ap (λ es. es ++ more) (start ∙ ap (◌++◌ pre) split_at) ∙ simp append_assoc in
          let here =
            after_cursor-append 0 (pre ++ before) (after ++ more) e (rw place at v.numbered)
              (rw place at (bound_of g v)) in
          rw (
            from_cursor-after_cursor last g.entries (after ++ more) ne
                (rw (is_last ∙ l, place) here),
            select-append p after more,
            none_later,
          )
    ]

-- A client that polls a journal from cursor `c`, gets entries, and polls again from the cursor that
-- it was given, after more entries were written: the second poll returns exactly the matching
-- entries among the new ones, so nothing is lost and nothing is seen twice.
pub poll_resume :
    (filters : List EventFilter) (c last : Bytes) (f g : FakeJournal) (seen more : List EventRecord)
    → IsNumbered g
    → g.entries ≡ f.entries ++ more
    → g.closed ≡ false
    → last ≢ []
    → poll filters c f ≡ some (seen, last)
    → let found = select (λ e. matches_filters e filters) more in
      poll filters last g ≡ some (found, last_cursor [] found)
unfolding poll
poll_resume filters c last f g seen more v grown is_open ne polled =
    let rest =
      from_cursor-last (λ e. matches_filters e filters) c last f g more v grown ne (ground arith) in
    rw (is_open, rest)
