-- ===== src/Host/Sampler/Sample/Growth.antt =====
-- internal/host/sampler_linux.go: the totals of a sampler from one measurement to the next.
use swash.Prelude.{
  ℕ, ◌-◌, ◌≤◌, ◌<◌, ◌≡◌, refl, ◌∙◌, ◌↔◌, true, false, Option, none, some, List, [], ◌∷◌, ◌++◌,
  arith, ◌==◌, if◌then◌else◌, ==_iff, length,
}
use swash.Prelude.Int.{ℤ}
use swash.Host.Sampler.Keyed.{
  total, sum_from, Counts, sum_from-total, sum_from-le, Ahead, total-put_key, Ahead-put_key,
}
use swash.Host.Sampler.Stat.{ProcStat, same_int_iff}
use swash.Host.Sampler.Sample.{
  ProcKey, same_proc, Top, Snapshot, Sampler, Kernel, Pass, put_io, measure, measure_shown,
  measure_all, pids, pass, put_net, trim, with_rates, remember, fst_count, snd_count, snapshot,
  sample,
}

-- What the kernel shows for the disks at a time is a function of the process.
unfoldable pub Consistent : Kernel → (ProcKey → Counts) → Type 0
Consistent k now =
    (pid : ℤ) (stat : ProcStat) (counts : Counts)
    → k.stat pid ≡ some stat
    → k.io pid ≡ some counts
    → counts ≡ now (record { pid = pid; start = stat.start })

pub same_proc_iff : (a b : ProcKey) → (same_proc a b ≡ true) ↔ (a ≡ b)
unfolding same_proc
same_proc_iff a b = ground (arith, same_int_iff a.pid b.pid, ==_iff a.start b.start)

module _ (f : Counts → ℕ) (s : Sampler) (k : Kernel) (now : ProcKey → Counts)
    (consistent : Consistent k now) where
  abbrev Behind : List (ProcKey × Counts) → Type 0
  Behind disk = Ahead same_proc same_proc_iff f now disk

  put_io_lem :
      (key : ProcKey) (io : Option Counts) (disk : List (ProcKey × Counts))
      → ((counts : Counts) → io ≡ some counts → counts ≡ now key)
      → Behind disk
      → (total f disk ≤ total f (put_io key io disk)) × Behind (put_io key io disk)
  unfolding put_io Ahead
  put_io_lem key none disk shown behind = (omega arith, behind)
  put_io_lem key (some counts) disk shown behind = rw (shown counts refl) (
    total-put_key same_proc same_proc_iff f key (now key) disk (behind key),
    Ahead-put_key same_proc same_proc_iff f now key disk behind,
  )

  measure_shown_lem :
      (pid : ℤ) (shown : Option ProcStat) (p : Pass)
      → k.stat pid ≡ shown
      → Behind p.disk
      → (total f p.disk ≤ total f (measure_shown s k pid shown p).disk)
        × Behind (measure_shown s k pid shown p).disk
  unfolding measure_shown measure Consistent
  measure_shown_lem pid none p there behind = (omega arith, behind)
  measure_shown_lem pid (some stat) p there behind =
      put_io_lem (record { pid = pid; start = stat.start }) (k.io pid) p.disk
        (λ counts io. consistent pid stat counts there io) behind

  measure_all_lem :
      (more : List ℤ) (p : Pass)
      → Behind p.disk
      → total f p.disk ≤ total f (measure_all s k more p).disk
  unfolding measure_all
  measure_all_lem [] p behind = omega arith
  measure_all_lem (pid ∷ more) p behind =
      let (grown_here, behind_here) = measure_shown_lem pid (k.stat pid) p refl behind in
      omega (arith, measure_all_lem more (measure_shown s k pid (k.stat pid) p) behind_here)

disk-with_rates :
    (history : List Snapshot) (st : Snapshot)
    → ((with_rates history st).disk_read ≡ st.disk_read)
      × ((with_rates history st).disk_write ≡ st.disk_write)
unfolding with_rates
disk-with_rates [] st = (refl, refl)
disk-with_rates (a ∷ []) st = (refl, refl)
disk-with_rates (a ∷ b ∷ rest) st = (refl, refl)

pass-grows :
    (f : Counts → ℕ) (s : Sampler) (k : Kernel) (now : ProcKey → Counts)
    → Consistent k now
    → Ahead same_proc same_proc_iff f now s.disk
    → total f (pass s k).disk < 18446744073709551616
    → sum_from f 0 s.disk ≤ sum_from f 0 (pass s k).disk
unfolding pass
pass-grows f s k now consistent ahead fits = omega (
  arith,
  sum_from-le f 0 s.disk,
  sum_from-total f 0 (pass s k).disk (omega (arith, fits)),
  measure_all_lem f s k now consistent (pids s k) _ ahead,
)

module _ (sort_by_cpu : List Top → List Top) where
  disk-sample : (k : Kernel) (s : Sampler) → (sample sort_by_cpu k s).0.disk ≡ (pass s k).disk
  unfolding sample
  disk-sample k s = refl

  sample-sums :
      (k : Kernel) (s : Sampler)
      → s.has_cgroup ≡ false
      → let (s', st) = sample sort_by_cpu k s in
        (st.disk_read ≡ sum_from fst_count 0 s'.disk)
        × (st.disk_write ≡ sum_from snd_count 0 s'.disk)
  unfolding sample remember snapshot
  sample-sums k s alone =
      let p = pass s k in
      let net = if length p.inodes == 0 then s.net else put_net (k.tcp_counters p.inodes) s.net in
      let st = snapshot sort_by_cpu s k p net in
      let rated = disk-with_rates (trim (k.now - 5000000000) (s.history ++ st ∷ [])) st in
      (rated.0 ∙ rw alone refl, rated.1 ∙ rw alone refl)

  has_cgroup-sample :
      (k : Kernel) (s : Sampler) → (sample sort_by_cpu k s).0.has_cgroup ≡ s.has_cgroup
  unfolding sample
  has_cgroup-sample k s = refl

  -- Without a cgroup, the totals of the disks never fall from a measurement to the next, when the
  -- counters of the kernel for a process do not fall and the new totals fit: what a process that is gone
  -- has read and written stays in.
  pub sample-disk_grows :
      (k1 k2 : Kernel) (s : Sampler) (now : ProcKey → Counts)
      → let (s1, st1) = sample sort_by_cpu k1 s in
        let (s2, st2) = sample sort_by_cpu k2 s1 in
        s.has_cgroup ≡ false
        → Consistent k2 now
        → Ahead same_proc same_proc_iff fst_count now s1.disk
        → Ahead same_proc same_proc_iff snd_count now s1.disk
        → total fst_count s2.disk < 18446744073709551616
        → total snd_count s2.disk < 18446744073709551616
        → (st1.disk_read ≤ st2.disk_read) × (st1.disk_write ≤ st2.disk_write)
  sample-disk_grows k1 k2 s now alone consistent reads writes fits_reads fits_writes =
      let s1 = (sample sort_by_cpu k1 s).0 in
      let sums1 = sample-sums k1 s alone in
      let sums2 = sample-sums k2 s1 (has_cgroup-sample k1 s ∙ alone) in
      let same_disk = disk-sample k2 s1 in
      (
        rw (sums1.0, sums2.0, same_disk)
            (pass-grows fst_count s1 k2 now consistent reads (rw same_disk at fits_reads)),
        rw (sums1.1, sums2.1, same_disk)
            (pass-grows snd_count s1 k2 now consistent writes (rw same_disk at fits_writes)),
      )
