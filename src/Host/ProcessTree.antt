-- ===== src/Host/ProcessTree.antt =====
-- internal/host/process_tree.go, process_tree_linux.go: a signal to the processes of a session.
pub mod Reach
use swash.Prelude.{
  ℕ, zero, suc, ◌+◌, ◌-◌, ◌*◌, ◌/◌, ◌%◌, ◌^◌, ◌≤◌, ◌<◌, min, max, ◌≡◌, refl, sym, ap, ◌∙◌, fun_ext,
  subst, ◌≢◌, ◌↔◌, ◌⊎◌, inl, inr, Bool, true, false, not, ◌&&◌, ◌||◌, Option, none, some, List, [],
  ◌∷◌, ◌++◌, map, append_assoc, append-nil, arith, ltb, leb, ◌==◌, if◌then◌else◌, ltb→lt, lt→ltb,
  ==_iff, Bool-cases, Option-cases, length, get_elem?, take, drop, replicate, select, length-append,
  length-replicate, length-drop, drop-append, take-append, select-append, All, All-append, Bytes,
  codes, Lacks, same, same_iff, same_refl, has_prefix, cut_prefix, cut_prefix-append, trim_prefix,
  cut, cut-append, split, cons_head, join, join_rest, split_view, split-append, split-Lacks,
  split-ne-nil, join-split, split-join, split-All-Lacks, Map, Fields, or_else, find, put, remove,
  copy, find-put, find-remove, find-copy, find-copy_nil, map_laws, ◌>>=◌, max_uint64, format_uint,
  parse_uint, parse_uint-format_uint, format_uint-Lacks, format_uint-injective, format_uint-ne-nil,
  format_uint-All, is_blank, split_spaces, not_empty, words, IsWord, words-word, words-last,
  words-join, parse_uint_value, parse_uint_value-format_uint,
}
use swash.Prelude.Int.{ℤ, pos, negsuc}
use swash.Host.Sampler.Stat.{
  index_byte, last_index_byte, to_int64, ProcStat, num, proc_stat, stat_between, read_proc_stat,
  bounded, negative, atoi_strict, same_int, same_int_iff, pids_of, read_pids, session_pids,
  cut_colon, proc_io, socket_inode,
}

-- An error of `syscall.Kill`.
pub data Errno : Type 0 where
  esrch : Errno
  other_errno : ℕ → Errno

-- The system calls that are used. Each gives the state of the system behind it, in which processes may
-- have come and gone too.
pub record System (K : Type 0) : Type 0 where
  -- The names in /proc, `none` if they cannot be read.
  pub read_proc : K → K × Option (List Bytes)
  pub getsid : ℤ → K → K × Option ℤ
  pub kill : ℤ → ℕ → K → K × Option Errno

unfoldable pub ignore_missing_process : Option Errno → Option Errno
ignore_missing_process (some esrch) = none
ignore_missing_process err = err

-- `-sid`.
unfoldable pub minus : ℤ → ℤ
minus (pos zero) = pos 0
minus (pos (suc n)) = negsuc n
minus (negsuc n) = pos (suc n)

-- The state while signals are sent: the system, the processes that were signalled, the latest first, and
-- the first error.
pub record Sent (K : Type 0) : Type 0 where
  pub system : K
  pub killed : List ℤ
  pub first_err : Option Errno

module _ {K : Type 0} (S : System K) where
  -- The loop of `sessionProcessIDs`.
  unfoldable pub members : ℤ → List Bytes → K → K × List ℤ
  unfolding atoi_strict same_int
  members sid [] k = (k, [])
  members sid (name ∷ names) k = elim (atoi_strict name) [
    | none ↦ members sid names k
    | some pid ↦
        let (k', session) = S.getsid pid k in
        let (k'', pids) = members sid names k' in
        (k'', elim session [ none ↦ pids | some s ↦ if same_int s sid then pid ∷ pids else pids ])
  ]

  unfoldable pub session_process_ids : ℤ → K → K × Option (List ℤ)
  unfolding members
  session_process_ids sid k =
      let (k', names) = S.read_proc k in
      elim names [
        | none ↦ (k', none)
        | some entries ↦ let (k'', pids) = members sid entries k' in (k'', some pids)
      ]

  -- `signal`.
  unfoldable pub signal : ℕ → ℤ → Sent K → Sent K
  unfolding ignore_missing_process
  signal sig pid sent =
      let (k, answer) = S.kill pid sig sent.system in
      record {
        system = k;
        killed = pid ∷ sent.killed;
        first_err = or_else sent.first_err (ignore_missing_process answer);
      }

  unfoldable pub signal_all : ℕ → List ℤ → Sent K → Sent K
  unfolding signal
  signal_all sig [] sent = sent
  signal_all sig (pid ∷ pids) sent = signal_all sig pids (signal sig pid sent)

  -- The loop that leaves the leader for later, with whether it was there.
  unfoldable pub signal_others : ℕ → ℤ → List ℤ → Bool → Sent K → Bool × Sent K
  unfolding signal same_int
  signal_others sig sid [] leader sent = (leader, sent)
  signal_others sig sid (pid ∷ pids) leader sent =
      let left_out = signal_others sig sid pids true sent in
      let signalled = signal_others sig sid pids leader (signal sig pid sent) in
      if same_int pid sid then left_out else signalled

  unfoldable pub sweep : ℤ → ℕ → Sent K → Sent K
  unfolding session_process_ids signal_all
  sweep sid sig sent =
      let (k, remaining) = session_process_ids sid sent.system in
      let swept : Sent K = record sent { system = k } in
      elim remaining [ none ↦ swept | some pids ↦ signal_all sig pids swept ]

  -- The processes that were found, or the group when they cannot be listed.
  unfoldable pub signal_found : ℤ → ℕ → Option (List ℤ) → Sent K → Sent K
  unfolding signal_others signal sweep minus
  signal_found sid sig none sent = signal sig (minus sid) sent
  signal_found sid sig (some pids) sent =
      let passed = signal_others sig sid pids false sent in
      sweep sid sig (if passed.0 then signal sig sid passed.1 else passed.1)

  unfoldable pub signal_process_session : ℤ → ℕ → K → Sent K
  unfolding session_process_ids signal_found
  signal_process_session sid sig k =
      let (k', found) = session_process_ids sid k in
      signal_found sid sig found (record { system = k'; killed = []; first_err = none })
