-- ===== src/Backend/Limits/Commute.antt =====
-- Two settings of internal/backend/limits.go one after the other.
use swash.Prelude.{ℕ, ◌≡◌, Bool, true, false, Option, none, some, arith, Bytes}
use swash.Backend.Limits.{
  set_swap, set_mem, set_cpus, apply_setting, Float, Key, cpus_key, weight_key, io_weight_key,
  mem_key, swap_key, high_key, tasks_key, is_off, Parsing, Setting,
}

unfoldable pub same_key : Key → Key → Bool
same_key cpus_key cpus_key = true
same_key weight_key weight_key = true
same_key io_weight_key io_weight_key = true
same_key mem_key mem_key = true
same_key swap_key swap_key = true
same_key high_key high_key = true
same_key tasks_key tasks_key = true
same_key k l = false

-- A setting that lifts the cap of the memory.
unfoldable pub mem_off : Setting → Bool
unfolding is_off
mem_off (mem_key, value) = is_off value
mem_off (k, value) = false

module _ {F : Type 0} (float : Float F) (total : ℕ) where
  -- A setting behind another one.
  abbrev pub then_apply : Option (Parsing F) → Setting → Option (Parsing F)
  then_apply o s = elim o [ none ↦ none | some p ↦ apply_setting float total s p ]

  -- Two settings of different keys give the same in either order.
  pub commute :
      (k l : Key) (v w : Bytes) (p : Parsing F)
      → same_key k l ≡ false
      → mem_off (k, v) ≡ false
      → mem_off (l, w) ≡ false
      → then_apply (apply_setting float total (k, v) p) (l, w)
        ≡ then_apply (apply_setting float total (l, w) p) (k, v)
  unfolding apply_setting set_cpus set_mem set_swap same_key mem_off
  commute cpus_key l v w p h a b = ground arith
  commute weight_key l v w p h a b = ground arith
  commute io_weight_key l v w p h a b = ground arith
  commute mem_key l v w p h a b = ground arith
  commute swap_key l v w p h a b = ground arith
  commute high_key l v w p h a b = ground arith
  commute tasks_key l v w p h a b = ground arith
