-- ===== src/Host/Sampler/Sample.antt =====
-- internal/host/sampler_linux.go: `Sample`, a measurement, from what the kernel shows at the time. Times
-- are nanoseconds. A rate is kept as the amount and the time that Go divides as floats.
pub mod Window
pub mod Growth
use swash.Prelude.{
  ℕ, zero, suc, ◌+◌, ◌-◌, ◌*◌, ◌/◌, ◌%◌, ◌^◌, ◌≤◌, ◌<◌, min, max, ◌≡◌, refl, sym, ap, ◌∙◌, fun_ext,
  subst, ◌≢◌, ◌↔◌, ◌⊎◌, inl, inr, Bool, true, false, not, ◌&&◌, ◌||◌, Option, none, some, List, [],
  ◌∷◌, ◌++◌, map, append_assoc, append-nil, arith, ltb, leb, ◌==◌, if◌then◌else◌, ltb→lt, lt→ltb,
  ==_iff, Bool-cases, Option-cases, length, get_elem?, take, drop, replicate, select, length-append,
  length-replicate, length-drop, drop-append, take-append, select-append, All, All-append, Bytes,
  codes, Lacks, same, same_iff, same_refl, has_prefix, cut_prefix, cut_prefix-append, trim_prefix,
  cut, cut-append, split, cons_head, join, join_rest, split_view, split-append, split-Lacks,
  split-ne-nil, join-split, split-join, split-All-Lacks, Map, Fields, or_else, find, put, remove,
  copy, find-put, find-remove, find-copy, find-copy_nil, map_laws, ◌>>=◌, max_uint64, format_uint,
  parse_uint, parse_uint-format_uint, format_uint-Lacks, format_uint-injective, format_uint-ne-nil,
  format_uint-All, is_blank, split_spaces, not_empty, words, IsWord, words-word, words-last,
  words-join, parse_uint_value, parse_uint_value-format_uint,
}
use swash.Prelude.Int.{ℤ, pos, negsuc, not_positive}
use swash.Host.Sampler.Keyed.{
  find_key, put_key, total, u64, sum_from, Counts, sum_from-total, sum_from-le, Ahead,
  total-put_key, Ahead-put_key,
}
use swash.Host.Sampler.Stat.{
  index_byte, last_index_byte, to_int64, ProcStat, num, proc_stat, stat_between, read_proc_stat,
  bounded, negative, atoi_strict, same_int, same_int_iff, pids_of, read_pids, session_pids,
  cut_colon, proc_io, socket_inode,
}

-- `procKey`.
pub record ProcKey : Type 0 where
  pub pid : ℤ
  pub start : ℕ

unfoldable pub same_proc : ProcKey → ProcKey → Bool
unfolding same_int
same_proc a b = same_int a.pid b.pid && a.start == b.start

abbrev pub same_inode : ℕ → ℕ → Bool
same_inode a b = a == b

-- `ProcStats`, with the ticks for its percentage.
pub record Top : Type 0 where
  pub pid : ℤ
  pub comm : Bytes
  pub ticks : ℕ

-- The rates of a snapshot, each as the amount, over one time.
pub record Rates : Type 0 where
  pub over : ℕ
  pub cpu : ℕ
  pub disk_read : ℕ
  pub disk_write : ℕ
  pub net_rx : ℕ
  pub net_tx : ℕ

-- `Stats`, the limits and pressures of the cgroup aside.
pub record Snapshot : Type 0 where
  pub time : ℕ
  pub procs : ℕ
  pub cpu_usec : ℕ
  pub mem_current : ℕ
  pub disk_read : ℕ
  pub disk_write : ℕ
  pub net_rx : ℕ
  pub net_tx : ℕ
  pub net_conns : ℕ
  pub top : List Top
  pub rates : Option Rates

-- `Sampler`, with whether the host has a cgroup of its own.
pub record Sampler : Type 0 where
  pub has_cgroup : Bool
  pub sid : ℤ
  pub disk : List (ProcKey × Counts)
  pub net : List (ℕ × Counts)
  pub cpu : List (ProcKey × ℕ)
  pub cpu_usec : ℕ
  pub history : List Snapshot

-- What `readCgroup` fills in of a snapshot: the time on the CPU, the memory, and the bytes of the disks
-- when io.stat can be read.
pub record Cgroup : Type 0 where
  pub usage_usec : ℕ
  pub memory_current : ℕ
  pub io : Option Counts

-- What the kernel shows at the time of a measurement.
pub record Kernel : Type 0 where
  pub now : ℕ
  pub page_size : ℕ
  pub cgroup_procs : List ℤ
  pub cgroup : Cgroup
  pub session_procs : ℤ → List ℤ
  pub stat : ℤ → Option ProcStat
  pub io : ℤ → Option Counts
  pub sockets : ℤ → List ℕ
  pub tcp_counters : List ℕ → List (ℕ × Counts)

-- The variables of the loop over the processes.
pub record Pass : Type 0 where
  pub disk : List (ProcKey × Counts)
  pub inodes : List ℕ
  pub cpu : List (ProcKey × ℕ)
  pub cpu_usec : ℕ
  pub rss : ℕ
  pub top : List Top

-- `n * 1e6 / clockTicks`, on uint64.
unfoldable pub ticks_usec : ℕ → ℕ
unfolding u64
ticks_usec n = u64 (n * 1000000) / 100

unfoldable pub add_inodes : List ℕ → List ℕ → List ℕ
add_inodes [] inodes = inodes
add_inodes (ino ∷ more) inodes =
    if length (select (same_inode ino) inodes) == 0
    then add_inodes more (inodes ++ ino ∷ [])
    else add_inodes more inodes

-- The ticks that were counted for a process at the last measurement, if it was there.
unfoldable pub grown_usec : ℕ → Option ℕ → ℕ
unfolding ticks_usec u64
grown_usec ticks none = ticks_usec ticks
grown_usec ticks (some last) = ticks_usec (u64 (ticks + 18446744073709551616 - last))

unfoldable pub add_top : Bool → ℤ → Bytes → ℕ → Option ℕ → List Top → List Top
add_top false pid comm ticks last top = top
add_top true pid comm ticks none top = top
add_top true pid comm ticks (some last) top =
    if ltb ticks last
    then top
    else top ++ record { pid = pid; comm = comm; ticks = ticks - last } ∷ []

unfoldable pub put_io : ProcKey → Option Counts → List (ProcKey × Counts) → List (ProcKey × Counts)
unfolding put_key same_proc
put_io key none disk = disk
put_io key (some counts) disk = put_key same_proc key counts disk

module _ (s : Sampler) (k : Kernel) where
  -- The body of the loop, with the stat of the process.
  unfoldable pub measure : ℤ → ProcStat → Pass → Pass
  unfolding grown_usec add_top put_io add_inodes find_key u64 same_proc
  measure pid stat p =
      let key : ProcKey = record { pid = pid; start = stat.start } in
      let ticks = u64 (stat.utime + stat.stime) in
      let last = find_key same_proc key s.cpu in
      record {
        disk = put_io key (k.io pid) p.disk;
        inodes = add_inodes (k.sockets pid) p.inodes;
        cpu = put_key same_proc key ticks p.cpu;
        cpu_usec = if s.has_cgroup then p.cpu_usec else u64 (p.cpu_usec + grown_usec ticks last);
        rss = if s.has_cgroup then p.rss else u64 (p.rss + u64 (stat.rss * k.page_size));
        top = add_top (not (length s.history == 0)) pid stat.comm ticks last p.top;
      }

  unfoldable pub measure_shown : ℤ → Option ProcStat → Pass → Pass
  unfolding measure
  measure_shown pid none p = p
  measure_shown pid (some stat) p = measure pid stat p

  unfoldable pub measure_all : List ℤ → Pass → Pass
  unfolding measure_shown
  measure_all [] p = p
  measure_all (pid ∷ more) p = measure_all more (measure_shown pid (k.stat pid) p)

  unfoldable pub pids : List ℤ
  pids =
      if s.has_cgroup
      then k.cgroup_procs
      else if not_positive s.sid
      then []
      else k.session_procs s.sid

  unfoldable pub pass : Pass
  unfolding measure_all pids
  pass =
      measure_all pids
        (record { disk = s.disk; inodes = []; cpu = []; cpu_usec = s.cpu_usec; rss = 0; top = [] })

-- The counters of the open connections, put over those that are known.
unfoldable pub put_net : List (ℕ × Counts) → List (ℕ × Counts) → List (ℕ × Counts)
unfolding put_key
put_net [] net = net
put_net ((ino, counts) ∷ more) net = put_net more (put_key same_inode ino counts net)

-- The connections whose counters are known.
unfoldable pub known : List (ℕ × Counts) → List ℕ → ℕ
unfolding find_key
known net [] = 0
known net (ino ∷ inodes) =
    let rest = known net inodes in
    elim (find_key same_inode ino net) [ none ↦ rest | some counts ↦ suc rest ]

-- The loop that drops what is older than the window.
unfoldable pub trim : ℕ → List Snapshot → List Snapshot
trim cutoff (a ∷ b ∷ c ∷ rest) =
    let shorter = trim cutoff (b ∷ c ∷ rest) in
    if ltb b.time cutoff then shorter else a ∷ b ∷ c ∷ rest
trim cutoff history = history

-- `rate`, without the time.
unfoldable pub grown : ℕ → ℕ → ℕ
grown cur old = if ltb cur old then 0 else cur - old

unfoldable pub rates_since : Snapshot → Snapshot → Rates
unfolding grown
rates_since base st = record {
  over = st.time - base.time;
  cpu = grown st.cpu_usec base.cpu_usec;
  disk_read = grown st.disk_read base.disk_read;
  disk_write = grown st.disk_write base.disk_write;
  net_rx = grown st.net_rx base.net_rx;
  net_tx = grown st.net_tx base.net_tx;
}

unfoldable pub with_rates : List Snapshot → Snapshot → Snapshot
unfolding rates_since
with_rates (base ∷ next ∷ rest) st = record st { rates = some (rates_since base st) }
with_rates history st = st

unfoldable pub set_last : List Snapshot → Snapshot → List Snapshot
set_last [] st = []
set_last (a ∷ []) st = st ∷ []
set_last (a ∷ b ∷ rest) st = a ∷ set_last (b ∷ rest) st

-- The snapshot's end: into the history, and the rates since its first.
unfoldable pub remember : Snapshot → List Snapshot → Snapshot × List Snapshot
unfolding trim with_rates set_last
remember st history =
    let kept = trim (st.time - 5000000000) (history ++ st ∷ []) in
    let rated = with_rates kept st in (rated, set_last kept rated)

abbrev pub fst_count : Counts → ℕ
fst_count c = c.0

abbrev pub snd_count : Counts → ℕ
snd_count c = c.1

-- `Sample`, with what `sort.Slice` does to the processes, whose order it leaves open where two are as
-- busy.
module _ (sort_by_cpu : List Top → List Top) where
  unfoldable pub snapshot : Sampler → Kernel → Pass → List (ℕ × Counts) → Snapshot
  unfolding known sum_from
  snapshot s k p net =
      let sums : Counts = (sum_from fst_count 0 p.disk, sum_from snd_count 0 p.disk) in
      let io : Counts =
        if s.has_cgroup then elim k.cgroup.io [ none ↦ sums | some io ↦ io ] else sums in
      record {
        time = k.now;
        procs = length (pids s k);
        cpu_usec = if s.has_cgroup then k.cgroup.usage_usec else p.cpu_usec;
        mem_current = if s.has_cgroup then k.cgroup.memory_current else p.rss;
        disk_read = io.0;
        disk_write = io.1;
        net_rx = sum_from fst_count 0 net;
        net_tx = sum_from snd_count 0 net;
        net_conns = known net p.inodes;
        top = take 3 (sort_by_cpu p.top);
        rates = none;
      }

  unfoldable pub sample : Kernel → Sampler → Sampler × Snapshot
  unfolding pass put_net snapshot remember
  sample k s =
      let p = pass s k in
      let net = if length p.inodes == 0 then s.net else put_net (k.tcp_counters p.inodes) s.net in
      let (st, history) = remember (snapshot s k p net) s.history in
      (
        record s {
          disk = p.disk;
          net = net;
          cpu = p.cpu;
          cpu_usec = p.cpu_usec;
          history = history;
        },
        st,
      )

  -- `Latest`.
  unfoldable pub latest : Kernel → Sampler → Sampler × Snapshot
  unfolding sample
  latest k s = elim (get_elem? s.history (length s.history - 1)) [
    | none ↦ sample k s
    | some st ↦ (s, st)
  ]

-- `NewSampler`, with whether it found a cgroup, and `SetTaskPID`.
unfoldable pub new_sampler : Bool → Sampler
new_sampler has_cgroup = record {
  has_cgroup = has_cgroup;
  sid = pos 0;
  disk = [];
  net = [];
  cpu = [];
  cpu_usec = 0;
  history = [];
}

unfoldable pub set_task_pid : ℤ → Sampler → Sampler
set_task_pid pid s = record s { sid = pid }
