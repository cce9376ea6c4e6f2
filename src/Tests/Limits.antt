-- ===== src/Tests/Limits.antt =====
-- internal/backend/limits.go with whole numbers in place of `float64`.
use swash.Prelude.{
  scan_uint, ℕ, ◌*◌, ◌/◌, ◌≡◌, refl, ◌≢◌, true, false, some, List, [], ◌∷◌, arith, ltb, ◌==◌, codes,
  same, cut, split, cons_head, parse_uint,
}
use mathlib.Core.List.Permᴰ.{swap}
use swash.Backend.Limits.{
  Float, Limits, mem_key, swap_key, high_key, tasks_key, key_of, is_space, trim_left, trim_right,
  trim_space, last_byte, is_off, unit, parse_amount, parse_percentage, parse_size, Parsing, Setting,
  set_swap, set_mem, apply_setting, apply_settings, setting_of, settings_of, start, parse_limits,
}
use swash.Backend.Limits.Commute.{same_key, mem_off}
use swash.Backend.Limits.Order.{count, has_key, Orderless, apply_settings-Perm}

abbrev whole : Float ℕ
whole = record {
  zero_value = 0;
  one = 1;
  kilo = 1024;
  mega = 1048576;
  giga = 1073741824;
  tera = 1099511627776;
  parse_float = parse_uint;
  not_positive = λ n. n == 0;
  above_hundred = λ n. ltb 100 n;
  multiply = λ a b. a * b;
  percent_of = λ p total. total * p / 100;
  to_uint64 = λ n. n;
}

abbrev base : Limits ℕ
base = record {
  cpus = 14;
  cpu_weight = 50;
  io_weight = 50;
  memory_high = 8589934592;
  memory_max = 12884901888;
  swap_max = 4294967296;
  no_swap = false;
  tasks_max = 4096;
}

-- The second case of `TestParseLimits`.
parse_limits_lem :
    parse_limits whole 0 (codes " mem=1G, swap=512M,high=800M,tasks=off") base
    ≡ some (record base {
      memory_max = 1073741824;
      swap_max = 536870912;
      memory_high = 838860800;
      tasks_max = 0;
    })
unfolding parse_limits trim_space trim_left trim_right is_space settings_of setting_of
    apply_settings apply_setting start set_mem parse_size parse_amount last_byte unit key_of is_off
    split cons_head cut same parse_uint scan_uint set_swap
parse_limits_lem = refl

parse_size-percentage : parse_size whole 8000 (codes "25%") ≡ some 2000
unfolding parse_size parse_percentage last_byte trim_space trim_left trim_right is_space same
    parse_uint scan_uint
parse_size-percentage = refl

abbrev settings : List Setting
settings = (high_key, codes "800M") ∷ (mem_key, codes "1G") ∷ []

settings-Orderless : Orderless settings
unfolding same_key mem_off is_off same
settings-Orderless = ((λ k. ground arith), refl)

apply_settings-Perm_example :
    apply_settings whole 0 settings (start whole base)
    ≡ apply_settings whole 0
        ((mem_key, codes "1G") ∷ (high_key, codes "800M") ∷ [])
        (start whole base)
apply_settings-Perm_example =
    apply_settings-Perm whole 0 (start whole base) settings-Orderless (swap refl refl)

abbrev one_cap : List Setting
one_cap = (tasks_key, codes "512") ∷ (mem_key, codes "1G") ∷ []

abbrev capped : Parsing ℕ
capped = record {
  limits = record base {
    memory_max = 1073741824;
    memory_high = 966367638;
    swap_max = 0;
    no_swap = true;
    tasks_max = 512;
  };
  high_set = false;
  swap_set = false;
}

one_cap-applied : apply_settings whole 0 one_cap (start whole base) ≡ some capped
unfolding apply_settings apply_setting start set_mem parse_size parse_amount last_byte unit is_off
    same parse_uint scan_uint trim_space trim_left trim_right is_space
one_cap-applied = refl

one_cap-mem : count (has_key mem_key) one_cap ≢ 0
unfolding same_key
one_cap-mem = ground arith

one_cap-rest :
    (count (has_key swap_key) one_cap ≡ 0)
    × (count (has_key high_key) one_cap ≡ 0)
    × (count mem_off one_cap ≡ 0)
unfolding same_key mem_off is_off same
one_cap-rest = (refl, refl, refl)
