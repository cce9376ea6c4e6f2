-- ===== src/Backend/Posix/Written.antt =====
-- What a client of a session can see of its log: internal/backend/posix/stub.go against what the host
-- wrote with `WriteOutput` (internal/journal/types.go).
use swash.Prelude.{
  ℕ, ◌≡◌, refl, ap, ◌∙◌, ◌⊎◌, inl, inr, true, false, none, some, List, [], ◌∷◌, map, Bool-cases,
  select, Bytes, codes, same, find, format_uint,
}
use swash.Journal.{EventRecord}
use swash.Backend.Posix.{OutputEvent, field, is_output, output_of, output_events}

-- What an entry was written for: a line that a task put on one of its streams, or anything else.
pub data Written : Type 0 where
  line : ℕ → Bytes → Written
  no_line : Written

-- The entry of a line has its text and the number of its stream, any other entry has no stream.
abbrev pub Wrote : Written → EventRecord → Type 0
Wrote (line fd text) e =
    ((fd ≡ 1) ⊎ (fd ≡ 2))
    × (e.message ≡ text)
    × (find (codes "FD") e.fields ≡ some (format_uint fd))
Wrote no_line e = find (codes "FD") e.fields ≡ none

abbrev pub AllWrote : List Written → List EventRecord → Type 0
AllWrote [] [] = Unit
AllWrote (w ∷ ws) (e ∷ es) = Wrote w e × AllWrote ws es
AllWrote ws es = ⊥

-- The lines with their streams, but for the empty ones.
unfoldable pub shown : List Written → List (ℕ × Bytes)
shown [] = []
shown (no_line ∷ ws) = shown ws
shown (line fd [] ∷ ws) = shown ws
shown (line fd (c ∷ text) ∷ ws) = (fd, c ∷ text) ∷ shown ws

abbrev pub line_of : OutputEvent → ℕ × Bytes
line_of o = (o.fd, o.text)

-- What the client makes of one entry.
abbrev seen : Written → List (ℕ × Bytes)
seen w = shown (w ∷ [])

is_output-empty : (e : EventRecord) → e.message ≡ [] → is_output e ≡ false
unfolding is_output same
is_output-empty e empty = rw empty refl

field-some : (e : EventRecord) (name v : Bytes) → find name e.fields ≡ some v → field name e ≡ v
unfolding field
field-some e name v there = ap (λ o. elim o [ none ↦ [] | some w ↦ w ]) there

field-none : (e : EventRecord) (name : Bytes) → find name e.fields ≡ none → field name e ≡ []
unfolding field
field-none e name gone = ap (λ o. elim o [ none ↦ [] | some w ↦ w ]) gone

stream_text :
    (e : EventRecord) (fd : ℕ) (text : Bytes)
    → Wrote (line fd text) e
    → ((fd ≡ 1) × (field (codes "FD") e ≡ codes "1"))
      ⊎ ((fd ≡ 2) × (field (codes "FD") e ≡ codes "2"))
unfolding format_uint
stream_text e fd text (stream, message, number) =
    let there = field-some e (codes "FD") (format_uint fd) number in
    elim stream [
      | inl out ↦ inl (out, there ∙ ap format_uint out)
      | inr err_stream ↦ inr (err_stream, there ∙ ap format_uint err_stream)
    ]

is_output-line :
    (e : EventRecord) (fd c : ℕ) (text : Bytes) → Wrote (line fd (c ∷ text)) e → is_output e ≡ true
unfolding is_output same
is_output-line e fd c text wrote = elim (stream_text e fd (c ∷ text) wrote) [
  | inl (out, there) ↦ rw (there, wrote.1) refl
  | inr (err_stream, there) ↦ rw (there, wrote.1) refl
]

is_output-no_line : (e : EventRecord) → Wrote no_line e → is_output e ≡ false
unfolding is_output same
is_output-no_line e none_there = elim (Bool-cases (same e.message [])) [
  | inl empty ↦ rw (is_output, field-none e (codes "FD") none_there, empty) refl
  | inr full ↦ rw (is_output, field-none e (codes "FD") none_there, full) refl
]

line_of-line :
    (e : EventRecord) (fd : ℕ) (text : Bytes)
    → Wrote (line fd text) e
    → line_of (output_of e) ≡ (fd, text)
unfolding output_of same
line_of-line e fd text wrote = elim (stream_text e fd text wrote) [
  | inl (out, there) ↦ rw (there, wrote.1, out) refl
  | inr (err_stream, there) ↦ rw (there, wrote.1, err_stream) refl
]

pub output_events-shown :
    (ws : List Written) (es : List EventRecord)
    → AllWrote ws es
    → map line_of (output_events es) ≡ shown ws
unfolding output_events shown
output_events-shown [] [] wrote = refl
output_events-shown [] (e ∷ es) wrote = absurd wrote
output_events-shown (w ∷ ws) [] wrote = absurd wrote
output_events-shown (no_line ∷ ws) (e ∷ es) (wrote, more) =
    rw (is_output-no_line e wrote) (output_events-shown ws es more)
output_events-shown (line fd [] ∷ ws) (e ∷ es) (wrote, more) =
    rw (is_output-empty e wrote.1) (output_events-shown ws es more)
output_events-shown (line fd (c ∷ text) ∷ ws) (e ∷ es) (wrote, more) =
    rw (is_output-line e fd c text wrote, line_of-line e fd (c ∷ text) wrote)
      (ap (◌∷◌ (fd, c ∷ text)) (output_events-shown ws es more))

-- The texts alone, of the entries that are output.
pub printed-shown :
    (ws : List Written) (es : List EventRecord)
    → AllWrote ws es
    → map (λ e. e.message) (select is_output es) ≡ map (λ l. l.1) (shown ws)
unfolding shown
printed-shown [] [] wrote = refl
printed-shown [] (e ∷ es) wrote = absurd wrote
printed-shown (w ∷ ws) [] wrote = absurd wrote
printed-shown (no_line ∷ ws) (e ∷ es) (wrote, more) =
    rw (is_output-no_line e wrote) (printed-shown ws es more)
printed-shown (line fd [] ∷ ws) (e ∷ es) (wrote, more) =
    rw (is_output-empty e wrote.1) (printed-shown ws es more)
printed-shown (line fd (c ∷ text) ∷ ws) (e ∷ es) (wrote, more) =
    rw (is_output-line e fd c text wrote, wrote.1) (ap (◌∷◌ (c ∷ text)) (printed-shown ws es more))
