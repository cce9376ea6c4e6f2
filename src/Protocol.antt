-- ===== src/Protocol.antt =====
-- internal/protocol/protocol.go: how the output of a task becomes texts.
pub mod Lines
pub mod Sse
use swash.Prelude.{
  ℕ, zero, suc, ◌+◌, Bool, true, false, ◌&&◌, Option, none, some, List, [], ◌∷◌, ◌++◌, map, ◌==◌,
  if◌then◌else◌, length, Bytes, codes, cut_prefix, trim_prefix, split, join,
}

pub data Protocol : Type 0 where
  shell : Protocol
  sse : Protocol

-- One result of `r.Read`: the bytes read, and whether an error (such as the end of the file) came
-- with them.
pub record Read : Type 0 where
  pub bytes : Bytes
  pub failed : Bool

-- One call of the handler.
pub record Output : Type 0 where
  pub fd : ℕ
  pub text : Bytes
  pub fields : List (Bytes × Bytes)

pub record ProtocolReader : Type 0 where
  pub protocol : Protocol
  pub fd : ℕ
  pub fields : List (Bytes × Bytes)
  pub buf : Bytes

unfoldable pub new_protocol_reader : Protocol → ℕ → List (Bytes × Bytes) → ProtocolReader
new_protocol_reader p fd fields = record { protocol = p; fd = fd; fields = fields; buf = [] }

unfoldable pub emit : ProtocolReader → Bytes → Output
emit p text = record { fd = p.fd; text = text; fields = p.fields }

-- `bytes.Buffer.ReadString('\n')`: the line with its newline, what is left, and whether there was a
-- newline. With none the whole buffer is taken.
unfoldable pub read_string : Bytes → Bytes × Bytes × Bool
read_string [] = ([], [], false)
read_string (c ∷ cs) =
    let (line, rest, found) = read_string cs in
    if c == b'\n' then (c ∷ [], cs, true) else (c ∷ line, rest, found)

-- `strings.TrimSuffix(line, "\n")`.
unfoldable pub trim_newline : Bytes → Bytes
trim_newline [] = []
trim_newline (c ∷ []) = if c == b'\n' then [] else c ∷ []
trim_newline (c ∷ d ∷ s) = c ∷ trim_newline (d ∷ s)

-- The inner loop of `processLines`: the texts of the complete lines, and the buffer with what is
-- left. Each round takes a byte at least, so the length of the buffer and one more is enough fuel.
unfoldable pub drain_lines : ℕ → Bytes → List Bytes × Bytes
unfolding read_string trim_newline
drain_lines zero buf = ([], buf)
drain_lines (suc fuel) buf =
    let (line, rest, found) = read_string buf in
    let more = drain_lines fuel rest in
    if found then (trim_newline line ∷ more.0, more.1) else ([], line)

-- `if n > 0 { lineBuf.Write(b[:n]); … }`.
unfoldable pub take_lines : Bytes → Bytes → List Bytes × Bytes
unfolding drain_lines
take_lines buf [] = ([], buf)
take_lines buf (c ∷ cs) = let full = buf ++ c ∷ cs in drain_lines (length full + 1) full

unfoldable pub flush : Bytes → List Bytes
flush [] = []
flush (c ∷ cs) = (c ∷ cs) ∷ []

-- `processLines`, as the texts that the handler gets. When the reads run out with no error the
-- reader is blocked in `Read`.
unfoldable pub line_texts : Bytes → List Read → List Bytes
unfolding take_lines flush
line_texts buf [] = []
line_texts buf (r ∷ rs) =
    let step = take_lines buf r.bytes in
    let rest = line_texts step.1 rs in step.0 ++ (if r.failed then flush step.1 else rest)

-- `strings.Cut(chunk, "\n\n")`.
unfoldable pub cut_event : Bytes → Option (Bytes × Bytes)
cut_event [] = none
cut_event (c ∷ []) = none
cut_event (c ∷ d ∷ s) =
    let rest = cut_event (d ∷ s) in
    if c == b'\n' && d == b'\n'
    then some ([], s)
    else elim rest [ none ↦ none | some (b, a) ↦ some (c ∷ b, a) ]

-- What the loop of `parseSSEEvent` appends to `dataLines` for one line.
unfoldable pub data_line : Bytes → List Bytes
unfolding cut_prefix trim_prefix
data_line line = elim (cut_prefix (codes "data:") line) [
  | none ↦ []
  | some after ↦ trim_prefix (codes " ") after ∷ []
]

unfoldable pub data_lines : List Bytes → List Bytes
unfolding data_line
data_lines [] = []
data_lines (l ∷ ls) = data_line l ++ data_lines ls

-- `if len(dataLines) > 0 { … strings.Join … }`.
unfoldable pub join_data : List Bytes → List Bytes
unfolding join
join_data [] = []
join_data (d ∷ ds) = join (codes "\n") (d ∷ ds) ∷ []

unfoldable pub parse_sse_event : Bytes → List Bytes
unfolding data_lines join_data split
parse_sse_event event = join_data (data_lines (split b'\n' event))

-- `emitSSEEvents`: the texts of the complete events, and the buffer that is left. Each round takes
-- two bytes at least.
unfoldable pub emit_sse_events : ℕ → Bytes → List Bytes × Bytes
unfolding cut_event parse_sse_event
emit_sse_events zero buf = ([], buf)
emit_sse_events (suc fuel) buf = elim (cut_event buf) [
  | none ↦ ([], buf)
  | some (before, after) ↦
      let more = emit_sse_events fuel after in (parse_sse_event before ++ more.0, more.1)
]

unfoldable pub take_events : Bytes → Bytes → List Bytes × Bytes
unfolding emit_sse_events
take_events buf [] = ([], buf)
take_events buf (c ∷ cs) = let full = buf ++ c ∷ cs in emit_sse_events (length full + 1) full

unfoldable pub flush_event : Bytes → List Bytes
unfolding parse_sse_event
flush_event [] = []
flush_event (c ∷ cs) = parse_sse_event (c ∷ cs)

-- `processSSE`.
unfoldable pub sse_texts : Bytes → List Read → List Bytes
unfolding take_events flush_event
sse_texts buf [] = []
sse_texts buf (r ∷ rs) =
    let step = take_events buf r.bytes in
    let rest = sse_texts step.1 rs in step.0 ++ (if r.failed then flush_event step.1 else rest)

-- `Process`: the calls of the handler, in order.
unfoldable pub process : ProtocolReader → List Read → List Output
unfolding line_texts sse_texts emit
process p rs =
    map (emit p) (elim p.protocol [ sse ↦ sse_texts p.buf rs | shell ↦ line_texts [] rs ])
