-- ===== src/Tests/Stats.antt =====
-- internal/host/stats.go at a session that was never killed for its memory.
use swash.Prelude.{◌≡◌, refl, arith, length, same, put}
use swash.Host.Stats.{
  put_if_positive, total_fields, Stats, Fits, exit_fields, stats_from_exit_fields,
  stats_from_exit_fields-exit_fields,
}

abbrev usage : Stats
usage = record {
  cpu_usec = 1250000;
  mem_peak = 18446744073709551615;
  swap_peak = 0;
  oom_kills = 0;
  disk_read = 4096;
  disk_write = 0;
  net_rx = 12;
  net_tx = 7;
}

length-exit_fields : length (exit_fields usage) ≡ 6
unfolding exit_fields total_fields put_if_positive put same length
length-exit_fields = refl

usage-Fits : Fits usage
usage-Fits = (
  omega arith,
  omega arith,
  omega arith,
  omega arith,
  omega arith,
  omega arith,
  omega arith,
  omega arith,
)

stats_from_exit_fields-exit_fields_example : stats_from_exit_fields (exit_fields usage) ≡ usage
stats_from_exit_fields-exit_fields_example = stats_from_exit_fields-exit_fields usage usage-Fits
