-- ===== src/Host/Sampler/Stat/RoundTrip.antt =====
-- internal/host/sampler_linux.go: what is read of the stat text that the kernel writes for a process.
use swash.Prelude.{
  ℕ, suc, ◌-◌, ◌≤◌, ◌≡◌, refl, sym, ◌≢◌, false, none, some, List, [], ◌∷◌, ◌++◌, append_assoc,
  arith, ltb, length, take, drop, length-append, take-append, All, All-append, Bytes, codes, Lacks,
  join, join_rest, is_blank, split_spaces, not_empty, words, IsWord, words-join,
}
use swash.Host.Sampler.Stat.{index_byte, last_index_byte, proc_stat, stat_between, read_proc_stat}

index_byte-append :
    (b : ℕ) (p rest : Bytes) → Lacks b p → index_byte b (p ++ b ∷ rest) ≡ some (length p)
unfolding index_byte
index_byte-append b [] rest h = ground arith
index_byte-append b (c ∷ p) rest h = ground (arith, index_byte-append b p rest h.1)

last_index_byte-Lacks : (b : ℕ) (s : Bytes) → Lacks b s → last_index_byte b s ≡ none
unfolding last_index_byte
last_index_byte-Lacks b [] h = refl
last_index_byte-Lacks b (c ∷ s) h = ground (arith, last_index_byte-Lacks b s h.1)

last_index_byte-append :
    (b : ℕ) (p rest : Bytes) → Lacks b rest → last_index_byte b (p ++ b ∷ rest) ≡ some (length p)
unfolding last_index_byte
last_index_byte-append b [] rest h = ground (arith, last_index_byte-Lacks b rest h)
last_index_byte-append b (c ∷ p) rest h = rw (last_index_byte-append b p rest h) refl

-- The stat text: the pid, the name in parentheses, and the fields from the third on.
unfoldable pub stat_text : Bytes → Bytes → List Bytes → Bytes
stat_text pid comm fields =
    (pid ++ codes " ") ++ 0x28 ∷ (comm ++ 0x29 ∷ (codes " " ++ join (codes " ") fields))

Lacks-join_rest :
    (b : ℕ) (ws : List Bytes) → 0x20 ≢ b → All (Lacks b) ws → Lacks b (join_rest (codes " ") ws)
unfolding join_rest
Lacks-join_rest b [] space h = tt
Lacks-join_rest b (w ∷ ws) space h =
    (space, All-append (λ c. c ≢ b) w _ h.0 (Lacks-join_rest b ws space h.1))

Lacks-join : (b : ℕ) (ws : List Bytes) → 0x20 ≢ b → All (Lacks b) ws → Lacks b (join (codes " ") ws)
unfolding join
Lacks-join b [] space h = tt
Lacks-join b (w ∷ ws) space h = All-append (λ c. c ≢ b) w _ h.0 (Lacks-join_rest b ws space h.1)

drop-behind : (p rest : Bytes) (c : ℕ) → drop (suc (length p)) (p ++ c ∷ rest) ≡ rest
drop-behind [] rest c = refl
drop-behind (d ∷ p) rest c = drop-behind p rest c

-- A process's stat is read whatever its name is, with spaces and parentheses in it too, when the other
-- fields are words with no closing parenthesis in them, at least 22 from the third on.
pub read_proc_stat-stat_text :
    (pid comm : Bytes) (fields : List Bytes)
    → Lacks 0x28 pid
    → All IsWord fields
    → All (Lacks 0x29) fields
    → 22 ≤ length fields
    → read_proc_stat (some (stat_text pid comm fields)) ≡ some (proc_stat comm fields)
unfolding read_proc_stat stat_text stat_between words split_spaces is_blank not_empty
read_proc_stat-stat_text pid comm fields plain all_words closed enough =
    let front = pid ++ codes " " in
    let tail : Bytes = codes " " ++ join (codes " ") fields in
    let text = front ++ 0x28 ∷ (comm ++ 0x29 ∷ tail) in
    let before = front ++ 0x28 ∷ comm in
    let same_text : text ≡ before ++ 0x29 ∷ tail =
      sym (append_assoc front (0x28 ∷ comm) (0x29 ∷ tail)) in
    let opened : index_byte 0x28 text ≡ some (length front) =
      index_byte-append 0x28 front _
        (All-append (λ c. c ≢ 0x28) pid (codes " ") plain (ground arith)) in
    let ended : last_index_byte 0x29 text ≡ some (length before) = rw same_text (
      last_index_byte-append 0x29 before tail
        (ground arith, Lacks-join 0x29 fields (ground arith) closed)) in
    let size : length before - suc (length front) ≡ length comm =
      omega (arith, length-append front (0x28 ∷ comm)) in
    let comm_read : take (length before - suc (length front)) (drop (suc (length front)) text)
        ≡ comm =
      rw (size, drop-behind front (comm ++ 0x29 ∷ tail) 0x28) (take-append comm (0x29 ∷ tail)) in
    let fields_read : words (drop (suc (length before)) text) ≡ fields =
      rw (same_text, drop-behind before tail 0x29) (words-join fields all_words) in
    let ordered : ltb (length before) (length front) ≡ false =
      ground (arith, length-append front (0x28 ∷ comm)) in
    let full : ltb (length fields) 22 ≡ false = ground arith in
    rw (opened, ended, ordered, fields_read, full, comm_read) refl
