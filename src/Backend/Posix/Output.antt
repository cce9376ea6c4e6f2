-- ===== src/Backend/Posix/Output.antt =====
-- A client that polls the output of a session again and again.
use swash.Prelude.{
  ℕ, ◌+◌, ◌≡◌, refl, sym, ap, ◌∙◌, subst, ◌≢◌, inl, inr, Bool, false, Option, none, some, List, [],
  ◌∷◌, ◌++◌, map, append_assoc, append-nil, arith, if◌then◌else◌, Bool-cases, select, select-append,
  All, Bytes, same, same_iff, same_refl, format_uint-ne-nil,
}
use swash.Journal.{EventRecord, filter_by_session, matches_filters}
use swash.Journal.Fake.{FakeJournal, new_fake_journal, from_cursor, last_cursor, poll}
use swash.Journal.Fake.Resume.{Numbered, IsNumbered, poll_resume}
use swash.Journal.Fake.Following.{Growing, last_journal}
use swash.Backend.Posix.Written.{Written, AllWrote, shown, line_of, output_events-shown}
use swash.Backend.Posix.{OutputEvent, is_output, output_events, poll_session_output}

-- The output of one poll after another, each from the cursor that the one before returned.
abbrev pub polls : Bytes → Bytes → List FakeJournal → Option (List OutputEvent)
polls session_id cursor [] = some []
polls session_id cursor (f ∷ fs) =
    elim (poll_session_output (λ fs c. poll fs c f) session_id cursor) [
      | none ↦ none
      | some (events, next) ↦ elim (polls session_id next fs) [
        | none ↦ none
        | some later ↦ some (events ++ later)
      ]
    ]

abbrev pub entries_of : Bytes → List EventRecord → List EventRecord
entries_of session_id es = select (λ e. matches_filters e (filter_by_session session_id ∷ [])) es

-- A cursor behind all entries of a journal: a poll of a grown one returns what is new.
Consumed : Bytes → Bytes → FakeJournal → Type 0
Consumed session_id cursor f =
    (g : FakeJournal) (more : List EventRecord)
    → IsNumbered g
    → g.entries ≡ f.entries ++ more
    → g.closed ≡ false
    → poll (filter_by_session session_id ∷ []) cursor g
      ≡ some (entries_of session_id more, last_cursor [] (entries_of session_id more))

new_fake_journal-Consumed : (session_id : Bytes) → Consumed session_id [] new_fake_journal
unfolding Consumed poll from_cursor new_fake_journal
new_fake_journal-Consumed session_id g more v grown is_open = rw (is_open, grown)

Numbered-cursors : (n : ℕ) (es : List EventRecord) → Numbered n es → All (λ e. e.cursor ≢ []) es
Numbered-cursors n [] h = tt
Numbered-cursors n (e ∷ es) (c, h) =
    ((λ empty. format_uint-ne-nil (n + 1) (sym c ∙ empty)), Numbered-cursors (n + 1) es h)

All-right :
    (es more : List EventRecord)
    → All (λ e. e.cursor ≢ []) (es ++ more)
    → All (λ e. e.cursor ≢ []) more
All-right [] more h = h
All-right (e ∷ es) more (x, h) = All-right es more h

last_cursor-ne-nil :
    (c : Bytes) (es : List EventRecord)
    → c ≢ []
    → All (λ e. e.cursor ≢ []) es
    → (p : EventRecord → Bool) → last_cursor c (select p es) ≢ []
unfolding last_cursor
last_cursor-ne-nil c [] ne h p = ne
last_cursor-ne-nil c (e ∷ es) ne (x, h) p = elim (Bool-cases (p e)) [
  | inl yes_p ↦ rw yes_p (last_cursor-ne-nil e.cursor es x h p)
  | inr no_p ↦ rw no_p (last_cursor-ne-nil c es ne h p)
]

-- Without a cursor nothing was returned.
select-nil :
    (es : List EventRecord)
    → All (λ e. e.cursor ≢ []) es
    → (p : EventRecord → Bool) → last_cursor [] (select p es) ≡ []
    → select p es ≡ []
unfolding last_cursor
select-nil [] h p e = refl
select-nil (e ∷ es) (x, h) p last = elim (Bool-cases (p e)) [
  | inl yes_p ↦ absurd (last_cursor-ne-nil e.cursor es x h p (rw yes_p at last))
  | inr no_p ↦ rw no_p (select-nil es h p (rw no_p at last))
]

-- The cursor that `PollSessionOutput` returns.
next_cursor : Bytes → List EventRecord → Bytes
next_cursor cursor found = if same (last_cursor [] found) [] then cursor else last_cursor [] found

next_cursor-Consumed :
    (session_id cursor : Bytes) (f g : FakeJournal) (more : List EventRecord)
    → IsNumbered g
    → g.entries ≡ f.entries ++ more
    → g.closed ≡ false
    → Consumed session_id cursor f
    → Consumed session_id (next_cursor cursor (entries_of session_id more)) g
unfolding Consumed next_cursor
next_cursor-Consumed session_id cursor f g more v grown is_open done h later vh grown_h open_h =
    let p = λ (e : EventRecord). matches_filters e (filter_by_session session_id ∷ []) in
    let found = entries_of session_id more in
    elim (Bool-cases (same (last_cursor [] found) [])) [
      | inl nothing ↦
          let all = grown_h ∙ ap (λ es. es ++ later) grown ∙ append_assoc f.entries more later in
          let cursors =
            All-right f.entries more
              (subst (All (λ e. e.cursor ≢ [])) grown (Numbered-cursors 0 g.entries v.numbered)) in
          let none_found =
            select-nil more cursors p ((same_iff (last_cursor [] found) []).0 nothing) in
          rw nothing
            (rw (select-append p more later, none_found) at (done h (more ++ later) vh all open_h))
      | inr something ↦ rw something (
          poll_resume (filter_by_session session_id ∷ []) cursor (last_cursor [] found) g h found
            later vh grown_h open_h
            (λ empty. ground (arith, something, same_refl [], ap (λ c. same c []) empty))
            (done g more v grown is_open))
    ]

output_events-append :
    (es later : List EventRecord)
    → output_events (es ++ later) ≡ output_events es ++ output_events later
unfolding output_events
output_events-append [] later = refl
output_events-append (e ∷ es) later = elim (Bool-cases (is_output e)) [
  | inl shown ↦ rw (shown, output_events-append es later)
  | inr hidden ↦ rw (hidden, output_events-append es later)
]

poll_session_output-Consumed :
    (session_id cursor : Bytes) (f g : FakeJournal) (more : List EventRecord)
    → IsNumbered g
    → g.entries ≡ f.entries ++ more
    → g.closed ≡ false
    → Consumed session_id cursor f
    → poll_session_output (λ fs c. poll fs c g) session_id cursor
      ≡ some (
        output_events (entries_of session_id more),
        next_cursor cursor (entries_of session_id more),
      )
unfolding poll_session_output Consumed next_cursor
poll_session_output-Consumed session_id cursor f g more v grown is_open done =
    rw (poll_session_output, done g more v grown is_open)

polls-Consumed :
    (fs : List FakeJournal) (session_id cursor : Bytes) (f : FakeJournal)
    → Growing f fs
    → All (λ g. IsNumbered g × (g.closed ≡ false)) fs
    → Consumed session_id cursor f
    → (more : List EventRecord) × ((last_journal f fs).entries ≡ f.entries ++ more)
      × (polls session_id cursor fs ≡ some (output_events (entries_of session_id more)))
polls-Consumed [] session_id cursor f growing ok done =
    ([], sym (append-nil f.entries), unfold output_events in refl)
polls-Consumed (g ∷ gs) session_id cursor f ((more, grown), growing) ((v, is_open), ok) done =
    let p = λ (e : EventRecord). matches_filters e (filter_by_session session_id ∷ []) in
    let next = next_cursor cursor (entries_of session_id more) in
    let (later, last, rest) =
      polls-Consumed gs session_id next g growing ok
        (next_cursor-Consumed session_id cursor f g more v grown is_open done) in
    (
      more ++ later,
      last ∙ ap (λ es. es ++ later) grown ∙ append_assoc f.entries more later,
      rw (
        polls,
        poll_session_output-Consumed session_id cursor f g more v grown is_open done,
        rest,
        select-append p more later,
        output_events-append,
      ),
    )

polls-output_events :
    (session_id : Bytes) (fs : List FakeJournal)
    → Growing new_fake_journal fs
    → All (λ g. IsNumbered g × (g.closed ≡ false)) fs
    → polls session_id [] fs
      ≡ some (output_events (entries_of session_id (last_journal new_fake_journal fs).entries))
unfolding new_fake_journal
polls-output_events session_id fs growing ok =
    let (more, last, got) =
      polls-Consumed fs session_id [] new_fake_journal growing ok
        (new_fake_journal-Consumed session_id) in
    got ∙ ap (λ es. some (output_events (entries_of session_id es))) (sym last)

-- However often a client polls the output of a session while the log grows, each time from the cursor
-- that it was given before, it gets every line that was written for the session and is not empty, with
-- its stream, once and in order, and nothing else; the log polls as the log in memory does.
pub polls-shown :
    (session_id : Bytes) (fs : List FakeJournal) (ws : List Written)
    → Growing new_fake_journal fs
    → All (λ g. IsNumbered g × (g.closed ≡ false)) fs
    → AllWrote ws (entries_of session_id (last_journal new_fake_journal fs).entries)
    → (events : List OutputEvent) × (polls session_id [] fs ≡ some events)
      × (map line_of events ≡ shown ws)
polls-shown session_id fs ws growing ok wrote =
    let es = entries_of session_id (last_journal new_fake_journal fs).entries in
    (
      output_events es,
      polls-output_events session_id fs growing ok,
      output_events-shown ws es wrote,
    )
