-- ===== src/Journal/Fake/Following.antt =====
-- `Follow` of internal/journal/fake.go yields every matching entry once and in order.
use native.Mathlib.Numerals.{add-one}
use swash.Prelude.{
  ℕ, zero, suc, ◌+◌, ◌≡◌, refl, sym, ap, ◌∙◌, inl, inr, some, List, [], ◌∷◌, ◌++◌, append_assoc,
  append-nil, arith, Option-cases, get_elem?, drop, select,
}
use swash.Journal.{EventRecord, EventFilter, matches_filters}
use swash.Journal.Fake.{FakeJournal, Follower, follow_step, follow_run}

-- A journal that has grown: its entries begin with the older ones.
abbrev pub Grows : FakeJournal → FakeJournal → Type 0
Grows f g = (more : List EventRecord) × (g.entries ≡ f.entries ++ more)

-- Each journal of the sequence has grown from the one before it, the first one from `f`.
abbrev pub Growing : FakeJournal → List FakeJournal → Type 0
Growing f [] = Unit
Growing f (g ∷ gs) = Grows f g × Growing g gs

abbrev pub last_journal : FakeJournal → List FakeJournal → FakeJournal
last_journal f [] = f
last_journal f (g ∷ gs) = last_journal g gs

Grows-last : (f : FakeJournal) (gs : List FakeJournal) → Growing f gs → Grows f (last_journal f gs)
Grows-last f [] h = ([], sym (append-nil f.entries))
Grows-last f (g ∷ gs) ((more, e), h) =
    let (rest, e') = Grows-last g gs h in
    (more ++ rest, e' ∙ ap (λ es. es ++ rest) e ∙ append_assoc f.entries more rest)

drop_one :
    (x : EventRecord) (i : ℕ) (es : List EventRecord) → drop (i + 1) es ≡ drop (suc i + 1) (x ∷ es)
drop_one x i es = rw (add-one i, add-one (suc i))

drop-get_elem? :
    (es more : List EventRecord) (i : ℕ) (e : EventRecord)
    → get_elem? es i ≡ some e
    → drop i (es ++ more) ≡ e ∷ drop (i + 1) (es ++ more)
drop-get_elem? [] more i e h = cc
drop-get_elem? (x ∷ es) more zero e h = ground arith
drop-get_elem? (x ∷ es) more (suc i) e h =
    drop-get_elem? es more i e h ∙ ap (◌∷◌ e) (drop_one x i (es ++ more))

follow_step-select :
    (filters : List EventFilter) (f : FakeJournal) (w : Follower) (es : List EventRecord)
    → (more : List EventRecord) × (es ≡ f.entries ++ more)
    → let (w', now) = follow_step filters f w in
      now ++ select (λ e. matches_filters e filters) (drop w'.idx es)
      ≡ select (λ e. matches_filters e filters) (drop w.idx es)
unfolding follow_step
follow_step-select filters f w es (more, h) = elim (Option-cases (get_elem? f.entries w.idx)) [
  | inl miss ↦ ground arith
  | inr (e, hit) ↦
      let next = drop-get_elem? f.entries more w.idx e hit in ground (arith, rw (← h) at next)
]

-- Whatever journals the loops of `Follow` look at, each grown from the one before: what is yielded,
-- and then the matching entries that are still to come, are the matching entries from the start on.
pub follow_run-select :
    (filters : List EventFilter) (f : FakeJournal) (gs : List FakeJournal) (w : Follower)
    → Growing f gs
    → let (w', yielded) = follow_run filters gs w in
      let es = (last_journal f gs).entries in
      yielded ++ select (λ e. matches_filters e filters) (drop w'.idx es)
      ≡ select (λ e. matches_filters e filters) (drop w.idx es)
unfolding follow_run
follow_run-select filters f [] w h = refl
follow_run-select filters f (g ∷ gs) w (_, h) =
    let (w', now) = follow_step filters g w in
    append_assoc now _ _
    ∙ ap (◌++◌ now) (follow_run-select filters g gs w' h)
    ∙ follow_step-select filters g w (last_journal g gs).entries (Grows-last g gs h)
