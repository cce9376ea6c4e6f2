-- ===== src/Backend/Limits/Order.antt =====
-- The order of the settings in internal/backend/limits.go.
use swash.Prelude.{
  ℕ, ◌+◌, ◌≤◌, ◌≡◌, refl, sym, ap, ◌∙◌, subst, Bool, true, Option, none, some, List, [], ◌∷◌, arith,
  if◌then◌else◌,
}
use mathlib.Core.List.{Permᴰ}
use mathlib.Core.List.Permᴰ.{nil, cons, swap, trans}
use swash.Backend.Limits.{apply_setting, apply_settings, Float, Key, Parsing, Setting}
use swash.Backend.Limits.Commute.{same_key, mem_off, then_apply, commute}

same_key_refl : (k : Key) → same_key k k ≡ true
unfolding same_key
same_key_refl k = ground arith

abbrev pub count : (Setting → Bool) → List Setting → ℕ
count test [] = 0
count test (s ∷ ss) = (if test s then 1 else 0) + count test ss

abbrev pub has_key : Key → Setting → Bool
has_key k s = same_key k s.0

count-Perm :
    (test : Setting → Bool) {ss ts : List Setting} → Permᴰ ss ts → count test ss ≡ count test ts
count-Perm test nil = refl
count-Perm test (cons e d) = rw (e, count-Perm test d)
count-Perm test (swap {l = l} e f) = rw (e, f) (omega arith)
count-Perm test (trans c d) = count-Perm test c ∙ count-Perm test d

-- No key stands twice, and no setting lifts the cap of the memory.
abbrev pub Orderless : List Setting → Type 0
Orderless ss = ((k : Key) → count (has_key k) ss ≤ 1) × (count mem_off ss ≡ 0)

Orderless-Perm : {ss ts : List Setting} → Permᴰ ss ts → Orderless ss → Orderless ts
Orderless-Perm d (once, never) = (
  (λ k. subst (λ n. n ≤ 1) (count-Perm (has_key k) d) (once k)),
  sym (count-Perm mem_off d) ∙ never,
)

Orderless-tail : (s : Setting) (ss : List Setting) → Orderless (s ∷ ss) → Orderless ss
Orderless-tail s ss (once, never) = ((λ k. omega (arith, once k)), omega arith)

module _ {F : Type 0} (float : Float F) (total : ℕ) where
  apply_rest : List Setting → Option (Parsing F) → Option (Parsing F)
  apply_rest ss none = none
  apply_rest ss (some p) = apply_settings float total ss p

  apply_settings-cons :
      (s : Setting) (ss : List Setting) (p : Parsing F)
      → apply_settings float total (s ∷ ss) p ≡ apply_rest ss (apply_setting float total s p)
  unfolding apply_settings apply_rest
  apply_settings-cons s ss p =
      elim (apply_setting float total s p)
        as (λ o.
          elim o [ none ↦ none | some q ↦ apply_settings float total ss q ] ≡ apply_rest ss o) [
            | none ↦ refl
            | some q ↦ refl
          ]

  pub apply_settings-none :
      (s : Setting) (ss : List Setting) (p : Parsing F)
      → apply_setting float total s p ≡ none
      → apply_settings float total (s ∷ ss) p ≡ none
  unfolding apply_rest
  apply_settings-none s ss p e = apply_settings-cons s ss p ∙ ap (apply_rest ss) e

  pub apply_settings-some :
      (s : Setting) (ss : List Setting) (p q : Parsing F)
      → apply_setting float total s p ≡ some q
      → apply_settings float total (s ∷ ss) p ≡ apply_settings float total ss q
  unfolding apply_rest
  apply_settings-some s ss p q e = apply_settings-cons s ss p ∙ ap (apply_rest ss) e

  apply_rest-cons :
      (s : Setting) (ss : List Setting) (o : Option (Parsing F))
      → apply_rest (s ∷ ss) o ≡ apply_rest ss (then_apply float total o s)
  unfolding apply_rest
  apply_rest-cons s ss none = refl
  apply_rest-cons s ss (some p) = apply_settings-cons s ss p

  apply_rest-same :
      (ss ts : List Setting)
      → ((p : Parsing F) → apply_settings float total ss p ≡ apply_settings float total ts p)
      → (o : Option (Parsing F)) → apply_rest ss o ≡ apply_rest ts o
  unfolding apply_rest
  apply_rest-same ss ts h none = refl
  apply_rest-same ss ts h (some p) = h p

  swap-commute :
      (s t : Setting) (ss : List Setting) (p : Parsing F)
      → Orderless (s ∷ t ∷ ss)
      → then_apply float total (apply_setting float total s p) t
        ≡ then_apply float total (apply_setting float total t p) s
  swap-commute (k, v) (l, w) ss p (once, never) =
      commute float total k l v w p (ground (arith, same_key_refl k, once k)) (ground arith)
        (ground arith)

  apply_settings-swap :
      (s t : Setting) (ss : List Setting) (p : Parsing F)
      → Orderless (s ∷ t ∷ ss)
      → apply_settings float total (s ∷ t ∷ ss) p ≡ apply_settings float total (t ∷ s ∷ ss) p
  apply_settings-swap s t ss p free =
      apply_settings-cons s (t ∷ ss) p
      ∙ apply_rest-cons t ss (apply_setting float total s p)
      ∙ ap (apply_rest ss) (swap-commute s t ss p free)
      ∙ sym (apply_rest-cons s ss (apply_setting float total t p))
      ∙ sym (apply_settings-cons t (s ∷ ss) p)

  -- The order of the settings makes no difference to what they set, or to whether they are refused, as
  -- long as no key is set twice and none of them lifts the cap of the memory.
  pub apply_settings-Perm :
      {ss ts : List Setting} (p : Parsing F)
      → Orderless ss
      → Permᴰ ss ts
      → apply_settings float total ss p ≡ apply_settings float total ts p
  apply_settings-Perm p free nil = refl
  apply_settings-Perm p free (cons {a = s} {b = t} {l₁ = ss} {l₂ = ts} e d) =
      let rest : (q : Parsing F)
          → apply_settings float total ss q ≡ apply_settings float total ts q =
        λ q. apply_settings-Perm q (Orderless-tail s ss free) d in
      apply_settings-cons s ss p
      ∙ apply_rest-same ss ts rest (apply_setting float total s p)
      ∙ ap (λ u. apply_rest ts (apply_setting float total u p)) e
      ∙ sym (apply_settings-cons t ts p)
  apply_settings-Perm p free (swap {a = s} {b = t} {l = ss} e f) =
      rw (← e, ← f) (apply_settings-swap s t ss p free)
  apply_settings-Perm p free (trans c d) =
      apply_settings-Perm p free c ∙ apply_settings-Perm p (Orderless-Perm c free) d
