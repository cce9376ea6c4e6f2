-- ===== src/Host/Sampler/Stat.antt =====
-- internal/host/sampler_linux.go: the texts of /proc for a process. A text that cannot be read is `none`.
pub mod RoundTrip
use swash.Prelude.{
  ℕ, zero, suc, ◌+◌, ◌-◌, ◌*◌, ◌/◌, ◌%◌, ◌^◌, ◌≤◌, ◌<◌, min, max, ◌≡◌, refl, sym, ap, ◌∙◌, fun_ext,
  subst, ◌≢◌, ◌↔◌, ◌⊎◌, inl, inr, Bool, true, false, not, ◌&&◌, ◌||◌, Option, none, some, List, [],
  ◌∷◌, ◌++◌, map, append_assoc, append-nil, arith, ltb, leb, ◌==◌, if◌then◌else◌, ltb→lt, lt→ltb,
  ==_iff, Bool-cases, Option-cases, length, get_elem?, take, drop, replicate, select, length-append,
  length-replicate, length-drop, drop-append, take-append, select-append, All, All-append, Bytes,
  codes, Lacks, same, same_iff, same_refl, has_prefix, cut_prefix, cut_prefix-append, trim_prefix,
  cut, cut-append, split, cons_head, join, join_rest, split_view, split-append, split-Lacks,
  split-ne-nil, join-split, split-join, split-All-Lacks, Map, Fields, or_else, find, put, remove,
  copy, find-put, find-remove, find-copy, find-copy_nil, map_laws, ◌>>=◌, max_uint64, format_uint,
  parse_uint, parse_uint-format_uint, format_uint-Lacks, format_uint-injective, format_uint-ne-nil,
  format_uint-All, is_blank, split_spaces, not_empty, words, IsWord, words-word, words-last,
  words-join, parse_uint_value, parse_uint_value-format_uint,
}
use swash.Prelude.Int.{ℤ, pos, negsuc}

-- `bytes.IndexByte`, with the byte first; `none` for -1.
unfoldable pub index_byte : ℕ → Bytes → Option ℕ
index_byte b [] = none
index_byte b (c ∷ s) =
    let later = index_byte b s in if c == b then some 0 else later >>= λ i. some (suc i)

-- `bytes.LastIndexByte`.
unfoldable pub last_index_byte : ℕ → Bytes → Option ℕ
last_index_byte b [] = none
last_index_byte b (c ∷ s) = elim (last_index_byte b s) [
  | some i ↦ some (suc i)
  | none ↦ if c == b then some 0 else none
]

-- The conversion `int(n)` of a uint64.
unfoldable pub to_int64 : ℕ → ℤ
to_int64 n = if ltb n 9223372036854775808 then pos n else negsuc (18446744073709551615 - n)

-- `procStat`.
pub record ProcStat : Type 0 where
  pub comm : Bytes
  pub session : ℤ
  pub utime : ℕ
  pub stime : ℕ
  pub start : ℕ
  -- Pages.
  pub rss : ℕ

-- `num`, for a field that is there.
unfoldable pub num : List Bytes → ℕ → ℕ
num fields field = elim (get_elem? fields (field - 3)) [
  | none ↦ 0
  | some text ↦ parse_uint_value text
]

unfoldable pub proc_stat : Bytes → List Bytes → ProcStat
unfolding num to_int64
proc_stat comm fields = record {
  comm = comm;
  session = to_int64 (num fields 6);
  utime = num fields 14;
  stime = num fields 15;
  start = num fields 22;
  rss = num fields 24;
}

-- The part of `readProcStat` behind the two indexes.
unfoldable pub stat_between : Bytes → ℕ → ℕ → Option ProcStat
unfolding words proc_stat
stat_between text start end =
    let fields = words (drop (suc end) text) in
    if ltb end start
    then none
    else if ltb (length fields) 22
    then none
    else some (proc_stat (take (end - suc start) (drop (suc start) text)) fields)

-- `readProcStat`.
unfoldable pub read_proc_stat : Option Bytes → Option ProcStat
unfolding index_byte last_index_byte stat_between
read_proc_stat none = none
read_proc_stat (some text) = index_byte 0x28 text >>= λ start.
    last_index_byte 0x29 text >>= λ end. stat_between text start end

-- The number of the digits, if it is at most that.
unfoldable pub bounded : ℕ → Bytes → Option ℕ
bounded most text = parse_uint text >>= λ n. if leb n most then some n else none

unfoldable pub negative : ℕ → ℤ
negative zero = pos 0
negative (suc n) = negsuc n

-- `strconv.Atoi`; `none` is an error.
unfoldable pub atoi_strict : Bytes → Option ℤ
unfolding bounded negative
atoi_strict [] = none
atoi_strict (c ∷ s) =
    if c == 0x2d
    then (bounded 9223372036854775808 s >>= λ n. some (negative n))
    else if c == 0x2b
    then (bounded 9223372036854775807 s >>= λ n. some (pos n))
    else (bounded 9223372036854775807 (c ∷ s) >>= λ n. some (pos n))

unfoldable pub same_int : ℤ → ℤ → Bool
same_int (pos a) (pos b) = a == b
same_int (pos a) (negsuc b) = false
same_int (negsuc a) (pos b) = false
same_int (negsuc a) (negsuc b) = a == b

pub same_int_iff : (a b : ℤ) → (same_int a b ≡ true) ↔ (a ≡ b)
unfolding same_int
same_int_iff (pos a) (pos b) = ground arith
same_int_iff (pos a) (negsuc b) = ground arith
same_int_iff (negsuc a) (pos b) = ground arith
same_int_iff (negsuc a) (negsuc b) = ground arith

-- The loop of `readPids`.
unfoldable pub pids_of : ℤ → List Bytes → List ℤ
unfolding atoi_strict same_int
pids_of exclude [] = []
pids_of exclude (field ∷ fields) =
    let pids = pids_of exclude fields in
    elim (atoi_strict field) [
      | none ↦ pids
      | some pid ↦ if same_int pid exclude then pids else pid ∷ pids
    ]

-- `readPids`.
unfoldable pub read_pids : ℤ → Option Bytes → List ℤ
unfolding pids_of words
read_pids exclude none = []
read_pids exclude (some text) = pids_of exclude (words text)

-- `sessionPids`: the names in /proc, with the stat of a process.
unfoldable pub session_pids : ℤ → (ℤ → Option Bytes) → List Bytes → List ℤ
unfolding atoi_strict read_proc_stat same_int
session_pids sid stat [] = []
session_pids sid stat (name ∷ names) =
    let pids = session_pids sid stat names in
    elim (atoi_strict name) [
      | none ↦ pids
      | some pid ↦ elim (read_proc_stat (stat pid)) [
        | none ↦ pids
        | some s ↦ if same_int s.session sid then pid ∷ pids else pids
      ]
    ]

-- `strings.Cut` at ": ", whose parts are the whole text and nothing when it is not there.
unfoldable pub cut_colon : Bytes → Bytes × Bytes
cut_colon [] = ([], [])
cut_colon (c ∷ s) =
    let (key, value) = cut_colon s in
    elim (cut_prefix (codes ": ") (c ∷ s)) [ some rest ↦ ([], rest) | none ↦ (c ∷ key, value) ]

-- The loop of `readProcIO` over the lines of the file.
unfoldable pub proc_io : List Bytes → ℕ × ℕ → ℕ × ℕ
unfolding cut_colon
proc_io [] io = io
proc_io (line ∷ lines) (read, write) =
    let (key, value) = cut_colon line in
    proc_io lines (
      if same key (codes "read_bytes")
      then (parse_uint_value value, write)
      else if same key (codes "write_bytes")
      then (read, parse_uint_value value)
      else (read, write))

-- `socketInodes` for one link of an open file.
unfoldable pub socket_inode : Bytes → Option ℕ
socket_inode target = cut_prefix (codes "socket:[") target >>= λ rest.
    parse_uint (elim (last_index_byte 0x5d rest) [
      | none ↦ rest
      | some i ↦ if i + 1 == length rest then take i rest else rest
    ])
