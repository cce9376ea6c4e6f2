-- ===== src/Protocol/Sse/RoundTrip.antt =====
-- A text sent as a Server-Sent Event and read back by `processSSE` of internal/protocol/protocol.go.
use swash.Prelude.{
  ℕ, ◌≡◌, refl, ap, ◌∙◌, ◌≢◌, true, Option, none, some, List, [], ◌∷◌, ◌++◌, map, append_assoc,
  append-nil, arith, All, All-append, Bytes, codes, Lacks, split, join, split-ne-nil, join-split,
  split-join, split-All-Lacks,
}
use swash.Protocol.{
  sse, Read, new_protocol_reader, cut_event, data_lines, join_data, parse_sse_event, process,
}
use swash.Protocol.Lines.{texts_back, content, ends}
use swash.Protocol.Sse.{split_events, event_texts, process-event_texts, split_events-some}

-- One line of a text as a server writes it.
abbrev pub data_field : Bytes → Bytes
data_field l = codes "data: " ++ l

-- A text as an event: each of its lines behind `data: `.
abbrev pub sse_event : Bytes → Bytes
sse_event t = join (codes "\n") (map data_field (split b'\n' t))

-- A stream of events, each with an empty line behind it.
abbrev pub sse_stream : List Bytes → Bytes
sse_stream [] = []
sse_stream (t ∷ ts) = sse_event t ++ b'\n' ∷ b'\n' ∷ sse_stream ts

data_lines-map : (ls : List Bytes) → data_lines (map data_field ls) ≡ ls
unfolding data_lines
data_lines-map [] = refl
data_lines-map (l ∷ ls) = ap (◌∷◌ l) (data_lines-map ls)

data_field-Lacks : (ls : List Bytes) → All (Lacks b'\n') ls → All (Lacks b'\n') (map data_field ls)
data_field-Lacks [] h = tt
data_field-Lacks (l ∷ ls) (hl, h) =
    (All-append (λ c. c ≢ b'\n') (codes "data: ") l (omega arith) hl, data_field-Lacks ls h)

split-sse_event :
    (ls : List Bytes)
    → ls ≢ []
    → All (Lacks b'\n') ls
    → split b'\n' (join (codes "\n") (map data_field ls)) ≡ map data_field ls
split-sse_event [] ne h = absurd (ne refl)
split-sse_event (l ∷ ls) ne h =
    split-join b'\n' (data_field l) (map data_field ls) (data_field-Lacks (l ∷ ls) h)

join_data-join : (ls : List Bytes) → ls ≢ [] → join_data ls ≡ join (codes "\n") ls ∷ []
unfolding join_data
join_data-join [] ne = absurd (ne refl)
join_data-join (l ∷ ls) ne = refl

-- The event of a text is parsed to that text, whatever bytes it holds, empty lines included.
pub parse_sse_event-sse_event : (t : Bytes) → parse_sse_event (sse_event t) ≡ t ∷ []
unfolding parse_sse_event
parse_sse_event-sse_event t =
    rw (split-sse_event _ (split-ne-nil b'\n' t) (split-All-Lacks b'\n' t), data_lines-map)
      (join_data-join _ (split-ne-nil b'\n' t) ∙ ap (λ s. s ∷ []) (join-split b'\n' t))

abbrev prepend : Bytes → Option (Bytes × Bytes) → Option (Bytes × Bytes)
prepend p none = none
prepend p (some (b, a)) = some (p ++ b, a)

prepend_nil : (o : Option (Bytes × Bytes)) → o ≡ prepend [] o
prepend_nil none = refl
prepend_nil (some (b, a)) = refl

cut_event-prepend : (p s : Bytes) → Lacks b'\n' p → cut_event (p ++ s) ≡ prepend p (cut_event s)
unfolding cut_event
cut_event-prepend [] s h = prepend_nil (cut_event s)
cut_event-prepend (c ∷ []) [] h = refl
cut_event-prepend (c ∷ []) (d ∷ s) h = ground arith
cut_event-prepend (c ∷ d ∷ p) s h = ground (arith, cut_event-prepend (d ∷ p) s h.1)

cut_event_last :
    (p rest : Bytes)
    → Lacks b'\n' p
    → cut_event ((p ++ []) ++ b'\n' ∷ b'\n' ∷ rest) ≡ some (p ++ [], rest)
cut_event_last p rest h =
    rw append-nil (cut_event-prepend p (b'\n' ∷ b'\n' ∷ rest) h ∙ unfold cut_event in rw append-nil)

cut_event_newline :
    (d : ℕ) (j r rest : Bytes)
    → d ≢ b'\n'
    → cut_event ((d ∷ j) ++ r) ≡ some (d ∷ j, rest)
    → cut_event (b'\n' ∷ ((d ∷ j) ++ r)) ≡ some (b'\n' ∷ d ∷ j, rest)
unfolding cut_event
cut_event_newline d j r rest ne later = ground arith

cut_event_line :
    (p j r rest : Bytes) (d : ℕ)
    → Lacks b'\n' p
    → d ≢ b'\n'
    → cut_event ((d ∷ j) ++ r) ≡ some (d ∷ j, rest)
    → cut_event ((p ++ b'\n' ∷ d ∷ j) ++ r) ≡ some (p ++ b'\n' ∷ d ∷ j, rest)
cut_event_line p j r rest d h ne later = rw append_assoc (
    cut_event-prepend p (b'\n' ∷ d ∷ (j ++ r)) h
    ∙ ap (prepend p) (cut_event_newline d j r rest ne later))

-- No event of a text holds an empty line, so it is cut off whole.
cut_event-join :
    (l : Bytes) (ls : List Bytes) (rest : Bytes)
    → All (Lacks b'\n') (l ∷ ls)
    → cut_event (join (codes "\n") (map data_field (l ∷ ls)) ++ b'\n' ∷ b'\n' ∷ rest)
      ≡ some (join (codes "\n") (map data_field (l ∷ ls)), rest)
unfolding join
cut_event-join l [] rest h = cut_event_last (data_field l) rest (data_field-Lacks (l ∷ []) h).0
cut_event-join l (m ∷ ls) rest (hl, h) =
    cut_event_line (data_field l) _ _ rest b'd' (data_field-Lacks (l ∷ []) (hl, tt)).0 (omega arith)
      (cut_event-join m ls rest h)

cut_event-lines :
    (ls : List Bytes) (rest : Bytes)
    → ls ≢ []
    → All (Lacks b'\n') ls
    → cut_event (join (codes "\n") (map data_field ls) ++ b'\n' ∷ b'\n' ∷ rest)
      ≡ some (join (codes "\n") (map data_field ls), rest)
cut_event-lines [] rest ne h = absurd (ne refl)
cut_event-lines (l ∷ ls) rest ne h = cut_event-join l ls rest h

event_texts-sse_stream : (ts : List Bytes) → event_texts (split_events (sse_stream ts)) ≡ ts
event_texts-sse_stream [] = unfold split_events parse_sse_event in refl
event_texts-sse_stream (t ∷ ts) =
    rw
      (
        split_events-some _ _
            (cut_event-lines _ (sse_stream ts) (split-ne-nil b'\n' t) (split-All-Lacks b'\n' t)),
        parse_sse_event-sse_event t,
      )
      (ap (◌∷◌ t) (event_texts-sse_stream ts))

-- A program that sends texts as events, each with an empty line behind it, has exactly these texts
-- passed on, whatever bytes they hold and however the stream is cut into reads.
pub process-sse_stream :
    (fd : ℕ) (fields : List (Bytes × Bytes)) (rs : List Read) (ts : List Bytes)
    → ends rs ≡ true
    → content rs ≡ sse_stream ts
    → map (λ o. o.text) (process (new_protocol_reader sse fd fields) rs) ≡ ts
process-sse_stream fd fields rs ts e written =
    rw (process-event_texts fd fields rs e, written, event_texts-sse_stream ts)
      (texts_back fd fields ts)
