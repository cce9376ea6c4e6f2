-- ===== src/Tests/Protocol.antt =====
-- internal/protocol/protocol.go at concrete streams.
use swash.Prelude.{◌≡◌, refl, true, false, List, [], ◌∷◌, map, Bytes, codes, split, join}
use swash.Protocol.{shell, sse, Read, new_protocol_reader, line_texts, sse_texts, process}
use swash.Protocol.Lines.{content, drop_empty_last, process-split}
use swash.Protocol.Sse.{split_events, event_texts, process-event_texts}
use swash.Protocol.Sse.RoundTrip.{process-sse_stream}

abbrev reads : List Bytes → List Read
reads [] = record { bytes = []; failed = true } ∷ []
reads (b ∷ bs) = record { bytes = b; failed = false } ∷ reads bs

abbrev fields : List (Bytes × Bytes)
fields = (codes "SWASH_SESSION", codes "KXO284") ∷ []

abbrev shell_reads : List Read
shell_reads = reads (codes "ab\nc" ∷ [] ∷ codes "d\n\nlast" ∷ [])

abbrev line_reads : List Read
line_reads = reads (codes "ab\nc" ∷ codes "d\n" ∷ [])

abbrev sse_reads : List Read
sse_reads = reads (codes "data: hi\nda" ∷ codes "ta: \n" ∷ codes "\ndata: x\n\n" ∷ [])

shell_texts : line_texts [] shell_reads ≡ codes "ab" ∷ codes "cd" ∷ [] ∷ codes "last" ∷ []
unfolding line_texts
shell_texts = refl

sse_comment :
    sse_texts [] (reads (codes ": ping\n\nid: 4\ndata:a\ndata:  b" ∷ [])) ≡ codes "a\n b" ∷ []
unfolding sse_texts
sse_comment = refl

process-split_example :
    process (new_protocol_reader shell 1 fields) shell_reads
    ≡ map
        (λ t. record { fd = 1; text = t; fields = fields })
        (drop_empty_last (split b'\n' (content shell_reads)))
process-split_example = process-split 1 fields shell_reads refl

process-event_texts_example :
    process (new_protocol_reader sse 1 fields) sse_reads
    ≡ map
        (λ t. record { fd = 1; text = t; fields = fields })
        (event_texts (split_events (content sse_reads)))
process-event_texts_example = process-event_texts 1 fields sse_reads refl

process-sse_stream_example :
    map (λ o. o.text) (process (new_protocol_reader sse 1 fields) sse_reads)
    ≡ codes "hi\n" ∷ codes "x" ∷ []
unfolding split join
process-sse_stream_example =
    process-sse_stream 1 fields sse_reads (codes "hi\n" ∷ codes "x" ∷ []) refl refl
