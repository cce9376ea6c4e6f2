-- ===== src/Backend/Limits/Caps.antt =====
-- What a cap of the memory sets in internal/backend/limits.go.
use swash.Prelude.{
  ℕ, ◌*◌, ◌/◌, ◌≡◌, refl, sym, ◌∙◌, ◌≢◌, ◌⊎◌, inl, inr, true, false, some, List, [], ◌∷◌, arith,
  Bool-cases, Option-cases, Bytes,
}
use swash.Backend.Limits.{
  set_cpus, Float, Limits, Key, cpus_key, weight_key, io_weight_key, mem_key, swap_key, high_key,
  tasks_key, Parsing, Setting, set_mem, apply_setting, apply_settings, start,
}
use swash.Backend.Limits.Commute.{same_key, mem_off}
use swash.Backend.Limits.Order.{count, has_key, apply_settings-none, apply_settings-some}

-- Swap is forbidden, and the kernel starts to reclaim at nine tenths of the cap.
abbrev pub IsCapped : {F : Type 0} → Limits F → Type 0
IsCapped l = (l.no_swap ≡ true) × (l.swap_max ≡ 0) × (l.memory_high ≡ l.memory_max / 10 * 9)

module _ {F : Type 0} (float : Float F) (total : ℕ) where
  abbrev Unset : Parsing F → Type 0
  Unset p = (p.high_set ≡ false) × (p.swap_set ≡ false)

  apply_setting-IsCapped :
      (k : Key) (v : Bytes) (p q : Parsing F)
      → apply_setting float total (k, v) p ≡ some q
      → same_key swap_key k ≡ false
      → same_key high_key k ≡ false
      → mem_off (k, v) ≡ false
      → Unset p
      → Unset q × ((same_key mem_key k ≡ true) ⊎ IsCapped p.limits → IsCapped q.limits)
  unfolding apply_setting set_cpus set_mem same_key mem_off
  apply_setting-IsCapped cpus_key v p q e a b c u = ground (arith, u)
  apply_setting-IsCapped weight_key v p q e a b c u = ground (arith, u)
  apply_setting-IsCapped io_weight_key v p q e a b c u = ground (arith, u)
  apply_setting-IsCapped mem_key v p q e a b c u = ground (arith, u)
  apply_setting-IsCapped swap_key v p q e a b c u = ground (arith, u)
  apply_setting-IsCapped high_key v p q e a b c u = ground (arith, u)
  apply_setting-IsCapped tasks_key v p q e a b c u = ground (arith, u)

  apply_settings-IsCapped :
      (ss : List Setting) (p q : Parsing F)
      → apply_settings float total ss p ≡ some q
      → count (has_key swap_key) ss ≡ 0
      → count (has_key high_key) ss ≡ 0
      → count mem_off ss ≡ 0
      → Unset p
      → (count (has_key mem_key) ss ≢ 0) ⊎ IsCapped p.limits
      → IsCapped q.limits
  unfolding apply_settings
  apply_settings-IsCapped [] p q e a b c u h = ground (arith, h)
  apply_settings-IsCapped ((k, v) ∷ ss) p q e a b c u h =
      elim (Option-cases (apply_setting float total (k, v) p)) [
        | inl refused ↦ ground (arith, apply_settings-none float total (k, v) ss p refused, e)
        | inr (t, applied) ↦
            let later = apply_settings-some float total (k, v) ss p t applied in
            let (unset, capped) =
              apply_setting-IsCapped k v p t applied (ground arith) (ground arith) (ground arith)
                u in
            apply_settings-IsCapped ss t q (sym later ∙ e) (omega arith) (omega arith) (omega arith)
              unset (still_mem k v ss p t h capped)
      ]
    where
      still_mem :
          (k : Key) (v : Bytes) (ss : List Setting) (p t : Parsing F)
          → (count (has_key mem_key) ((k, v) ∷ ss) ≢ 0) ⊎ IsCapped p.limits
          → ((same_key mem_key k ≡ true) ⊎ IsCapped p.limits → IsCapped t.limits)
          → (count (has_key mem_key) ss ≢ 0) ⊎ IsCapped t.limits
      still_mem k v ss p t (inr was) capped = inr (capped (inr was))
      still_mem k v ss p t (inl some_mem) capped = elim (Bool-cases (same_key mem_key k)) [
        | inl yes_mem ↦ inr (capped (inl yes_mem))
        | inr other ↦ inl (λ e. some_mem (ground (arith, other, e)))
      ]

  -- Settings that cap the memory, and neither set swap or the high mark nor lift the cap, forbid swap
  -- and put the high mark to nine tenths of the cap, whatever the limits were before.
  pub mem-IsCapped :
      (ss : List Setting) (base : Limits F) (q : Parsing F)
      → apply_settings float total ss (start float base) ≡ some q
      → count (has_key mem_key) ss ≢ 0
      → count (has_key swap_key) ss ≡ 0
      → count (has_key high_key) ss ≡ 0
      → count mem_off ss ≡ 0
      → IsCapped q.limits
  unfolding start
  mem-IsCapped ss base q e some_mem no_swap no_high no_off =
      apply_settings-IsCapped ss (start float base) q e no_swap no_high no_off (refl, refl)
        (inl some_mem)
