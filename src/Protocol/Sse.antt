-- ===== src/Protocol/Sse.antt =====
-- What `processSSE` and `parseSSEEvent` of internal/protocol/protocol.go emit.
pub mod RoundTrip
use swash.Prelude.{
  map, ℕ, zero, suc, ◌<◌, ◌≡◌, refl, sym, ap, inl, inr, true, ◌&&◌, none, some, List, [], ◌∷◌, ◌++◌,
  append_assoc, append-nil, arith, ◌==◌, if◌then◌else◌, Bool-cases, Option-cases, length, Bytes,
  cons_head,
}
use swash.Protocol.{
  sse, new_protocol_reader, process, Read, cut_event, parse_sse_event, emit_sse_events, take_events,
  flush_event, sse_texts,
}
use swash.Protocol.Lines.{content, ends}

-- The events of a whole stream: its parts between pairs of newlines.
unfoldable pub split_events : Bytes → List Bytes
unfolding cons_head
split_events [] = [] ∷ []
split_events (c ∷ []) = (c ∷ []) ∷ []
split_events (c ∷ d ∷ s) =
    let rest = split_events (d ∷ s) in
    if c == b'\n' && d == b'\n' then [] ∷ split_events s else cons_head c rest

-- The texts of the events of a stream, in order.
abbrev pub event_texts : List Bytes → List Bytes
event_texts [] = []
event_texts (e ∷ es) = parse_sse_event e ++ event_texts es

split_events-none : (s : Bytes) → cut_event s ≡ none → split_events s ≡ s ∷ []
unfolding split_events cut_event
split_events-none [] e = refl
split_events-none (c ∷ []) e = refl
split_events-none (c ∷ d ∷ s) e = ground (arith, split_events-none (d ∷ s))

pub split_events-some :
    (s : Bytes) (p : Bytes × Bytes) → cut_event s ≡ some p → split_events s ≡ p.0 ∷ split_events p.1
unfolding split_events cut_event cons_head
split_events-some [] p e = cc
split_events-some (c ∷ []) p e = cc
split_events-some (c ∷ d ∷ s) p e = elim (Option-cases (cut_event (d ∷ s))) [
  | inl miss ↦ ground arith
  | inr (q, hit) ↦ ground (arith, split_events-some (d ∷ s) q hit)
]

cut_event-append :
    (s t : Bytes) (p : Bytes × Bytes)
    → cut_event s ≡ some p
    → cut_event (s ++ t) ≡ some (p.0, p.1 ++ t)
unfolding cut_event
cut_event-append [] t p e = cc
cut_event-append (c ∷ []) t p e = cc
cut_event-append (c ∷ d ∷ s) t p e = elim (Option-cases (cut_event (d ∷ s))) [
  | inl miss ↦ ground arith
  | inr (q, hit) ↦ ground (arith, cut_event-append (d ∷ s) t q hit)
]

-- What follows the event that was cut off is shorter than the text.
length-cut_event : (s : Bytes) (p : Bytes × Bytes) → cut_event s ≡ some p → length p.1 < length s
unfolding cut_event
length-cut_event [] p e = cc
length-cut_event (c ∷ []) p e = cc
length-cut_event (c ∷ d ∷ s) p e = elim (Option-cases (cut_event (d ∷ s))) [
  | inl miss ↦ ground arith
  | inr (q, hit) ↦ ground (arith, length-cut_event (d ∷ s) q hit)
]

event_texts-nil : event_texts (split_events []) ≡ []
unfolding split_events parse_sse_event
event_texts-nil = refl

-- The texts of the complete events are those of the stream, whatever bytes `t` come next, and the
-- buffer that is left holds no complete event.
abbrev Drained : Bytes → List Bytes × Bytes → Type 0
Drained s r =
    ((t : Bytes)
      → event_texts (split_events (s ++ t)) ≡ r.0 ++ event_texts (split_events (r.1 ++ t)))
    × (cut_event r.1 ≡ none)

emit_sse_events-Drained :
    (fuel : ℕ) (s : Bytes) → length s < fuel → Drained s (emit_sse_events fuel s)
unfolding emit_sse_events
emit_sse_events-Drained zero s h = absurd (omega arith)
emit_sse_events-Drained (suc fuel) s h = elim (Option-cases (cut_event s)) [
  | inl miss ↦ rw (miss, emit_sse_events) ((λ t. refl), miss)
  | inr (p, hit) ↦
      let (later, done) =
        emit_sse_events-Drained fuel p.1 (omega (arith, length-cut_event s p hit)) in
      rw (hit, emit_sse_events)
        (
          (λ t.
              rw (split_events-some (s ++ t) _ (cut_event-append s t p hit), append_assoc)
                (ap (◌++◌ (parse_sse_event p.0)) (later t))),
          done,
        )
]

take_events-Drained :
    (buf bs : Bytes) → cut_event buf ≡ none → Drained (buf ++ bs) (take_events buf bs)
unfolding take_events
take_events-Drained buf [] e = ((λ t. rw append-nil refl), e)
take_events-Drained buf (c ∷ cs) e = emit_sse_events-Drained _ (buf ++ c ∷ cs) (omega arith)

flush_event-event_texts :
    (s : Bytes) → cut_event s ≡ none → flush_event s ≡ event_texts (split_events s)
unfolding flush_event
flush_event-event_texts [] e = sym event_texts-nil
flush_event-event_texts (c ∷ s) e = rw (split_events-none (c ∷ s) e) (sym (append-nil _))

event_texts-Drained :
    (full : Bytes) (r : List Bytes × Bytes)
    → Drained full r
    → r.0 ++ event_texts (split_events r.1) ≡ event_texts (split_events full)
event_texts-Drained full r d =
    let at_end = d.0 [] in sym (rw (append-nil full, append-nil r.1) at at_end)

sse_texts-event_texts :
    (rs : List Read) (buf : Bytes)
    → ends rs ≡ true
    → cut_event buf ≡ none
    → sse_texts buf rs ≡ event_texts (split_events (buf ++ content rs))
unfolding sse_texts
sse_texts-event_texts [] buf e whole = cc
sse_texts-event_texts (r ∷ rs) buf e whole =
    let d = take_events-Drained buf r.bytes whole in
    elim (Bool-cases r.failed) [
      | inl failed ↦
          rw (failed, append-nil, flush_event-event_texts _ d.1) (event_texts-Drained _ _ d)
      | inr going ↦
          rw
            (
              going,
              sse_texts-event_texts rs (take_events buf r.bytes).1 (ground arith) d.1,
              ← append_assoc buf r.bytes (content rs),
            )
            (sym (d.0 (content rs)))
    ]

-- For every stream of reads that ends, cut into reads in any way, the SSE protocol passes on the
-- texts of the parts of the whole output between pairs of newlines, in order.
pub process-event_texts :
    (fd : ℕ) (fields : List (Bytes × Bytes)) (rs : List Read)
    → ends rs ≡ true
    → process (new_protocol_reader sse fd fields) rs
      ≡ map
          (λ t. record { fd = fd; text = t; fields = fields })
          (event_texts (split_events (content rs)))
unfolding process new_protocol_reader cut_event
process-event_texts fd fields rs e = rw (sse_texts-event_texts rs [] e refl)
