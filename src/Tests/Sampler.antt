-- ===== src/Tests/Sampler.antt =====
-- internal/host/sampler_linux.go at concrete texts, sockets and processes.
use swash.Prelude.{
  ℕ, ◌-◌, ◌≤◌, ◌<◌, ◌≡◌, refl, sym, ap, ◌∙◌, ◌≢◌, inl, inr, false, Option, none, some, List, [],
  ◌∷◌, arith, Bool-cases, replicate, All, Bytes, codes, is_blank,
}
use swash.Prelude.Int.{pos, not_positive}
use swash.Host.Sampler.Keyed.{find_key, put_key, total, u64, Counts, Ahead}
use swash.Host.Sampler.Diag.{
  RouteAttr, aligned, diag_attrs, parse_diag_attrs, parse_diag_attrs-total, diag_message,
  parse_diag_attrs-diag_message,
}
use swash.Host.Sampler.Stat.{ProcStat, proc_stat, read_proc_stat, same_int}
use swash.Host.Sampler.Stat.RoundTrip.{stat_text, read_proc_stat-stat_text}
use swash.Host.Sampler.Sample.{
  ProcKey, same_proc, Sampler, Kernel, ticks_usec, grown_usec, put_io, measure, measure_shown,
  measure_all, pids, pass, trim, with_rates, set_last, remember, fst_count, snd_count, snapshot,
  sample, new_sampler, set_task_pid,
}
use swash.Host.Sampler.Sample.Window.{behind, Before, Timed, sample-window}
use swash.Host.Sampler.Sample.Growth.{Consistent, sample-disk_grows, same_proc_iff}

abbrev attrs : List RouteAttr
attrs =
    record { len = 6; attr_type = 2; value = 7 ∷ 8 ∷ [] }
    ∷ record { len = 4; attr_type = 300; value = [] }
    ∷ []

parse_diag_attrs-diag_message_example : parse_diag_attrs (diag_message attrs) ≡ some attrs
parse_diag_attrs-diag_message_example = parse_diag_attrs-diag_message attrs (refl, (refl, tt))

-- The last attribute claims more than there is.
parse_diag_attrs-total_example : parse_diag_attrs (4 ∷ 0 ∷ 1 ∷ 0 ∷ 9 ∷ 0 ∷ 1 ∷ 0 ∷ []) ≢ none
parse_diag_attrs-total_example = parse_diag_attrs-total _ refl

-- A last attribute that is not padded is a slice out of range.
unpadded : parse_diag_attrs (5 ∷ 0 ∷ 1 ∷ 0 ∷ 9 ∷ []) ≡ none
unfolding parse_diag_attrs diag_attrs aligned
unpadded = refl

abbrev fields : List Bytes
fields = codes "S" ∷ replicate 21 (codes "42")

abbrev name : Bytes
name = codes "a) (b"

read_proc_stat-stat_text_example :
    read_proc_stat (some (stat_text (codes "17") name fields)) ≡ some (proc_stat name fields)
unfolding is_blank
read_proc_stat-stat_text_example =
    read_proc_stat-stat_text (codes "17") name fields (ground arith) (ground arith) (ground arith)
      (omega arith)

-- One process of a session, which reads and uses the CPU.
abbrev kernel_at : ℕ → ℕ → Option ProcStat → Kernel
kernel_at now read stat = record {
  now = now;
  page_size = 4096;
  cgroup_procs = [];
  cgroup = record { usage_usec = 0; memory_current = 0; io = none };
  session_procs = λ sid. pos 17 ∷ [];
  stat = λ pid. stat;
  io = λ pid. some (read, 2);
  sockets = λ pid. [];
  tcp_counters = λ inodes. [];
}

abbrev shown : ProcStat
shown = record { comm = codes "sh"; session = pos 17; utime = 3; stime = 4; start = 99; rss = 1 }

abbrev started : Sampler
unfolding set_task_pid new_sampler
started = set_task_pid (pos 17) (new_sampler false)

abbrev first : Kernel
first = kernel_at 1000000000 5 (some shown)

abbrev second : Kernel
second = kernel_at 2000000000 6 (some shown)

first_disk :
    (sample (λ top. top) first started).0.disk ≡ (record { pid = pos 17; start = 99 }, (5, 2)) ∷ []
unfolding sample pass measure_all measure_shown measure put_io put_key pids started not_positive
first_disk = refl

-- A process that a measurement misses has its time on the CPU counted again: 7 ticks are 70000
-- microseconds, and its total is twice that.
missed :
    (sample
      (λ top. top)
      second
      (sample
        (λ top. top)
        (kernel_at 1500000000 5 none)
        (sample (λ top. top) first started).0).0).1.cpu_usec
    ≡ 140000
unfolding sample pass measure_all measure_shown measure put_key find_key pids started not_positive
    snapshot remember trim with_rates set_last grown_usec ticks_usec u64 same_proc same_int
missed = refl

first-Before : Before 2000000000 (sample (λ top. top) first started).0.history
unfolding sample Before remember started snapshot trim with_rates set_last
first-Before = omega arith

sample-window_example :
    let (s', st) = sample (λ top. top) second (sample (λ top. top) first started).0 in
    Timed 2000000000 s'.history
    × All (λ old. 2000000000 - 5000000000 ≤ old.time) (behind s'.history)
sample-window_example = sample-window (λ top. top) second _ first-Before

abbrev shown_io : ProcKey → Counts
shown_io key = (6, 2)

second-Consistent : Consistent second shown_io
unfolding Consistent
second-Consistent pid stat counts at io = ground (arith, io)

first-Ahead :
    (f : Counts → ℕ)
    → f (5, 2) ≤ f (6, 2)
    → Ahead same_proc same_proc_iff f shown_io (sample (λ top. top) first started).0.disk
unfolding Ahead find_key
first-Ahead f grows key counts found =
    elim (Bool-cases (same_proc (record { pid = pos 17; start = 99 }) key)) [
      | inl here ↦
          let one : some (5, 2) ≡ some counts = sym (rw (first_disk, here) refl) ∙ found in
          let same_value : f counts ≡ f (5, 2) =
            ap (λ o. elim o [ none ↦ 0 | some u ↦ f u ]) (sym one) in
          omega arith
      | inr other ↦
          let nothing : none ≡ some counts = sym (rw (first_disk, other) refl) ∙ found in
          absurd (cc)
    ]

abbrev measured_twice : Sampler
measured_twice = (sample (λ top. top) second (sample (λ top. top) first started).0).0

measured_twice_disk : measured_twice.disk ≡ (record { pid = pos 17; start = 99 }, (6, 2)) ∷ []
unfolding sample pass measure_all measure_shown measure put_io put_key pids started not_positive
    same_proc same_int
measured_twice_disk = refl

measured_twice_fits :
    (total fst_count measured_twice.disk < 18446744073709551616)
    × (total snd_count measured_twice.disk < 18446744073709551616)
unfolding total
measured_twice_fits = rw measured_twice_disk (omega arith)

started_alone : started.has_cgroup ≡ false
unfolding started
started_alone = refl

sample-disk_grows_example :
    let (s1, st1) = sample (λ top. top) first started in
    let (s2, st2) = sample (λ top. top) second s1 in
    (st1.disk_read ≤ st2.disk_read) × (st1.disk_write ≤ st2.disk_write)
sample-disk_grows_example =
    sample-disk_grows (λ top. top) first second started shown_io started_alone second-Consistent
      (first-Ahead fst_count (omega arith)) (first-Ahead snd_count (omega arith))
      measured_twice_fits.0 measured_twice_fits.1
