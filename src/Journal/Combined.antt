-- ===== src/Journal/Combined.antt =====
-- internal/journal/combined.go: an event log made of a sink and a source that show the same log. The
-- nonce, from the clock and the process id, is an argument.
use swash.Prelude.{
  ℕ, ◌+◌, ◌≡◌, refl, sym, ap, ◌∙◌, inl, inr, Bool, true, false, Option, none, some, List, [], ◌∷◌,
  ◌++◌, append_assoc, arith, Bool-cases, select, Bytes, codes, same_refl, Fields, find, put, copy,
  find-put, format_uint,
}
use swash.Journal.{EventRecord, EventFilter, Entry, matches_filters}
use swash.Journal.Fake.{FakeJournal, write_entry, from_cursor, last_cursor, poll}

-- `EventSink` and `EventSource`, as far as `WriteSync` needs them; `none` is an error.
pub record CombinedEventLog (S : Type 0) : Type 0 where
  pub write : Entry → S → Option S
  pub poll : List EventFilter → Bytes → S → Option (List EventRecord × Bytes)

abbrev nonce_field : Bytes
nonce_field = codes "SWASH_WRITE_NONCE"

-- The entry that `WriteSync` writes.
unfoldable pub with_nonce : Bytes → Entry → Entry
unfolding put copy
with_nonce nonce e = record e { fields = put (copy [] e.fields) nonce_field nonce }

module _ {S : Type 0} (c : CombinedEventLog S) where
  -- `waitForNonce`, on the log as it is at each poll before the deadline.
  unfoldable pub wait_for_nonce : Bytes → List S → Bool
  wait_for_nonce nonce [] = false
  wait_for_nonce nonce (s ∷ ss) =
      let rest = wait_for_nonce nonce ss in
      elim (c.poll (record { field = nonce_field; value = nonce } ∷ []) [] s) [
        | some (e ∷ es, cursor) ↦ true
        | _ ↦ rest
      ]

  -- `WriteSync`: the log behind the write, and whether it returned without an error.
  unfoldable pub write_sync : Bytes → Entry → S → List S → S × Bool
  unfolding with_nonce wait_for_nonce
  write_sync nonce e s polls = elim (c.write (with_nonce nonce e) s) [
    | none ↦ (s, false)
    | some written ↦ (written, wait_for_nonce nonce polls)
  ]

-- The log in memory as both, at a time.
abbrev pub fake_log : ℕ → CombinedEventLog FakeJournal
fake_log now = record { write = write_entry now; poll = poll }

found-wait_for_nonce :
    (now : ℕ) (nonce : Bytes) (before later : List FakeJournal) (seen : FakeJournal)
    (e : EventRecord) (es : List EventRecord) (cursor : Bytes)
    → poll (record { field = nonce_field; value = nonce } ∷ []) [] seen ≡ some (e ∷ es, cursor)
    → wait_for_nonce (fake_log now) nonce (before ++ seen ∷ later) ≡ true
unfolding wait_for_nonce
found-wait_for_nonce now nonce [] later seen e es cursor found = rw (wait_for_nonce, found) refl
found-wait_for_nonce now nonce (f ∷ before) later seen e es cursor found =
    ground (arith, found-wait_for_nonce now nonce before later seen e es cursor found)

nonce_field-put :
    (m : Fields) (nonce : Bytes) → find nonce_field (put m nonce_field nonce) ≡ some nonce
nonce_field-put m nonce = find-put m nonce_field nonce_field nonce ∙ rw (same_refl nonce_field) refl

abbrev entries_of : Option FakeJournal → List EventRecord
entries_of none = []
entries_of (some f) = f.entries

selected :
    (p : EventRecord → Bool) (before more : List EventRecord) (e : EventRecord)
    → p e ≡ true
    → (x : EventRecord) × (xs : List EventRecord) × (select p (before ++ e ∷ more) ≡ x ∷ xs)
selected p [] more e good = (e, select p more, rw good refl)
selected p (b ∷ before) more e good = elim (Bool-cases (p b)) [
  | inl chosen ↦ (b, select p (before ++ e ∷ more), rw chosen refl)
  | inr other ↦ rw other (selected p before more e good)
]

-- With the log in memory, which is open, a write that is waited for returns without an error, with the
-- log behind the write, as soon as one of the polls sees that log or a longer one that is still open,
-- whatever the polls before and after see.
pub write_sync-readable :
    (now : ℕ) (nonce : Bytes) (e : Entry) (f g seen : FakeJournal) (before later : List FakeJournal)
    (more : List EventRecord)
    → write_entry now (with_nonce nonce e) f ≡ some g
    → seen.closed ≡ false
    → seen.entries ≡ g.entries ++ more
    → write_sync (fake_log now) nonce e f (before ++ seen ∷ later) ≡ (g, true)
unfolding write_sync write_entry poll from_cursor matches_filters with_nonce
write_sync-readable now nonce e f g seen before later more wrote still_open grown =
    let m : List EventFilter = record { field = nonce_field; value = nonce } ∷ [] in
    let r : EventRecord = record {
      cursor = format_uint (f.cursor + 1);
      timestamp = now;
      message = e.message;
      fields = put (copy [] e.fields) nonce_field nonce;
    } in
    let was_open : f.closed ≡ false = ground arith in
    let written : g.entries ≡ f.entries ++ (r ∷ []) =
      sym (ap entries_of (rw (write_entry, was_open) at wrote)) in
    let matches : matches_filters r m ≡ true =
      rw (matches_filters, nonce_field-put (copy [] e.fields) nonce, same_refl nonce) refl in
    let (x, xs, found) = selected (λ e. matches_filters e m) f.entries more r matches in
    let here : select (λ e. matches_filters e m) seen.entries ≡ x ∷ xs =
      ap (select (λ e. matches_filters e m))
        (grown ∙ ap (λ es. es ++ more) written ∙ append_assoc f.entries (r ∷ []) more)
      ∙ found in
    let polled : poll m [] seen ≡ some (x ∷ xs, last_cursor [] (x ∷ xs)) =
      rw (poll, still_open, here) refl in
    rw
      (
        write_sync,
        wrote,
        found-wait_for_nonce now nonce before later seen x xs (last_cursor [] (x ∷ xs)) polled,
      )
      refl
