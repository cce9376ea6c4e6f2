-- ===== src/Protocol/Lines.antt =====
-- What `processLines` of internal/protocol/protocol.go emits, whatever the reads are.
use swash.Prelude.{
  split-Lacks, split-ne-nil, split-append, split_view, ℕ, zero, suc, ◌<◌, ◌≡◌, refl, sym, ap, ◌∙◌,
  ◌≢◌, inl, inr, Bool, true, false, ◌||◌, List, [], ◌∷◌, ◌++◌, map, append_assoc, append-nil, arith,
  if◌then◌else◌, Bool-cases, length, length-append, All, Bytes, Lacks, split,
}
use swash.Protocol.{
  shell, Read, Output, new_protocol_reader, read_string, trim_newline, drain_lines, take_lines,
  flush, line_texts, process,
}

-- The bytes read up to the first read that fails.
abbrev pub content : List Read → Bytes
content [] = []
content (r ∷ rs) = r.bytes ++ (if r.failed then [] else content rs)

-- Some read fails, which ends the stream.
abbrev pub ends : List Read → Bool
ends [] = false
ends (r ∷ rs) = r.failed || ends rs

-- The parts between newlines, without the last one if nothing stands behind the last newline.
abbrev pub drop_empty_last : List Bytes → List Bytes
drop_empty_last [] = []
drop_empty_last ([] ∷ []) = []
drop_empty_last ((c ∷ p) ∷ []) = (c ∷ p) ∷ []
drop_empty_last (p ∷ q ∷ ps) = p ∷ drop_empty_last (q ∷ ps)

-- Every text with a newline behind it.
abbrev pub unlines : List Bytes → Bytes
unlines [] = []
unlines (t ∷ ts) = t ++ b'\n' ∷ unlines ts

read_string-append :
    (p rest : Bytes)
    → Lacks b'\n' p
    → read_string (p ++ b'\n' ∷ rest) ≡ (p ++ b'\n' ∷ [], rest, true)
unfolding read_string
read_string-append [] rest h = refl
read_string-append (c ∷ p) rest h = ground (arith, read_string-append p rest h.1)

read_string-Lacks : (s : Bytes) → Lacks b'\n' s → read_string s ≡ (s, [], false)
unfolding read_string
read_string-Lacks [] h = refl
read_string-Lacks (c ∷ s) h = ground (arith, read_string-Lacks s h.1)

trim_newline-append : (p : Bytes) → trim_newline (p ++ b'\n' ∷ []) ≡ p
unfolding trim_newline
trim_newline-append [] = refl
trim_newline-append (c ∷ []) = refl
trim_newline-append (c ∷ d ∷ p) = ap (◌∷◌ c) (trim_newline-append (d ∷ p))

-- The drained texts are parts of the split, whatever bytes `t` come next, and the buffer that is
-- left holds no newline.
abbrev Drained : Bytes → List Bytes × Bytes → Type 0
Drained s r = ((t : Bytes) → split b'\n' (s ++ t) ≡ r.0 ++ split b'\n' (r.1 ++ t)) × Lacks b'\n' r.1

drain_lines-Drained : (fuel : ℕ) (s : Bytes) → length s < fuel → Drained s (drain_lines fuel s)
unfolding drain_lines
drain_lines-Drained zero s h = absurd (omega arith)
drain_lines-Drained (suc fuel) s h = elim (split_view b'\n' s) [
  | inl free ↦ rw (read_string-Lacks s free) ((λ t. refl), free)
  | inr (p, rest, e, free) ↦
      let shorter : length rest < fuel =
        omega (arith, ap length e, length-append p (b'\n' ∷ rest)) in
      let (later, free') = drain_lines-Drained fuel rest shorter in
      rw (e, read_string-append p rest free, trim_newline-append p)
        (
          (λ t. rw (append_assoc, split-append b'\n' p (rest ++ t) free) (ap (◌∷◌ p) (later t))),
          free',
        )
]

take_lines-Drained : (buf bs : Bytes) → Lacks b'\n' buf → Drained (buf ++ bs) (take_lines buf bs)
unfolding take_lines
take_lines-Drained buf [] free = ((λ t. rw append-nil refl), free)
take_lines-Drained buf (c ∷ cs) free = drain_lines-Drained _ (buf ++ c ∷ cs) (omega arith)

drop_empty_last-append :
    (ls ps : List Bytes) → ps ≢ [] → drop_empty_last (ls ++ ps) ≡ ls ++ drop_empty_last ps
drop_empty_last-append [] ps h = refl
drop_empty_last-append (l ∷ []) [] h = absurd (h refl)
drop_empty_last-append (l ∷ []) (p ∷ ps) h = refl
drop_empty_last-append (l ∷ m ∷ ls) ps h = ap (◌∷◌ l) (drop_empty_last-append (m ∷ ls) ps h)

flush-drop_empty_last : (s : Bytes) → flush s ≡ drop_empty_last (s ∷ [])
unfolding flush
flush-drop_empty_last [] = refl
flush-drop_empty_last (c ∷ s) = refl

-- One read that is not the last: what is drained, and the rest of the stream behind the new buffer.
split-Drained :
    (r : List Bytes × Bytes) (full more : Bytes)
    → Drained full r
    → r.0 ++ drop_empty_last (split b'\n' (r.1 ++ more))
      ≡ drop_empty_last (split b'\n' (full ++ more))
split-Drained r full more (later, _) =
    rw (later more) (sym (drop_empty_last-append r.0 _ (split-ne-nil b'\n' (r.1 ++ more))))

flush-Drained :
    (r : List Bytes × Bytes) (full : Bytes)
    → Drained full r
    → r.0 ++ flush r.1 ≡ drop_empty_last (split b'\n' full)
flush-Drained r full d =
    ap (◌++◌ r.0) (flush-drop_empty_last r.1 ∙ ap drop_empty_last (sym (split-Lacks b'\n' r.1 d.1)))
    ∙ rw (← append-nil r.1, ← append-nil full) (split-Drained r full [] d)

line_texts-split :
    (rs : List Read) (buf : Bytes)
    → ends rs ≡ true
    → Lacks b'\n' buf
    → line_texts buf rs ≡ drop_empty_last (split b'\n' (buf ++ content rs))
unfolding line_texts
line_texts-split [] buf e free = cc
line_texts-split (r ∷ rs) buf e free =
    let d = take_lines-Drained buf r.bytes free in
    elim (Bool-cases r.failed) [
      | inl failed ↦ rw (failed, append-nil) (flush-Drained _ _ d)
      | inr going ↦
          let rest = line_texts-split rs (take_lines buf r.bytes).1 (ground arith) d.1 in
          rw (going, rest, ← append_assoc buf r.bytes (content rs)) (split-Drained _ _ _ d)
    ]

-- For every stream of reads that ends, with the output cut into reads in any way, the shell
-- protocol passes on the parts of the whole output between newlines, in order, with the file
-- descriptor and the fields of the reader; a last part is passed on only if it is not empty.
pub process-split :
    (fd : ℕ) (fields : List (Bytes × Bytes)) (rs : List Read)
    → ends rs ≡ true
    → process (new_protocol_reader shell fd fields) rs
      ≡ map
          (λ t. record { fd = fd; text = t; fields = fields })
          (drop_empty_last (split b'\n' (content rs)))
unfolding process new_protocol_reader
process-split fd fields rs e = rw (line_texts-split rs [] e tt)

split-unlines :
    (ts : List Bytes) → All (Lacks b'\n') ts → drop_empty_last (split b'\n' (unlines ts)) ≡ ts
split-unlines [] h = unfold split in refl
split-unlines (t ∷ ts) (free, h) = rw (split-append b'\n' t (unlines ts) free) (
    drop_empty_last-append (t ∷ []) _ (split-ne-nil b'\n' (unlines ts))
    ∙ ap (◌∷◌ t) (split-unlines ts h))

pub texts_back :
    (fd : ℕ) (fields : List (Bytes × Bytes)) (ts : List Bytes)
    → map (λ (o : Output). o.text) (map (λ t. record { fd = fd; text = t; fields = fields }) ts)
      ≡ ts
texts_back fd fields [] = refl
texts_back fd fields (t ∷ ts) = ap (◌∷◌ t) (texts_back fd fields ts)

-- A program that writes texts with no newline in them, each with a newline behind it, has exactly
-- these texts passed on, however the output is cut into reads.
pub process-unlines :
    (fd : ℕ) (fields : List (Bytes × Bytes)) (rs : List Read) (ts : List Bytes)
    → ends rs ≡ true
    → content rs ≡ unlines ts
    → All (Lacks b'\n') ts
    → map (λ o. o.text) (process (new_protocol_reader shell fd fields) rs) ≡ ts
process-unlines fd fields rs ts e written free =
    rw (process-split fd fields rs e, written, split-unlines ts free) (texts_back fd fields ts)
