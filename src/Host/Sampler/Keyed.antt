-- ===== src/Host/Sampler/Keyed.antt =====
-- internal/host/sampler_linux.go: the maps of the sampler, as association lists with a test on keys, and
-- the totals over them. A total does not depend on the order in which Go goes through a map.
use swash.Prelude.{
  ℕ, ◌+◌, ◌%◌, ◌≤◌, ◌<◌, ◌≡◌, refl, sym, ap, ◌∙◌, ◌↔◌, inl, inr, Bool, true, false, Option, none,
  some, List, [], ◌∷◌, arith, if◌then◌else◌, Bool-cases,
}

module _ {K V : Type 0} (same_key : K → K → Bool) where
  unfoldable pub find_key : K → List (K × V) → Option V
  find_key k [] = none
  find_key k ((j, v) ∷ m) = if same_key j k then some v else find_key k m

  unfoldable pub put_key : K → V → List (K × V) → List (K × V)
  put_key k v [] = (k, v) ∷ []
  put_key k v ((j, w) ∷ m) =
      let rest = put_key k v m in if same_key j k then (j, v) ∷ m else (j, w) ∷ rest

unfoldable pub total : {K V : Type 0} → (V → ℕ) → List (K × V) → ℕ
total f [] = 0
total f ((k, v) ∷ m) = f v + total f m

-- Two counters of one key: bytes read and written, or received and acknowledged.
abbrev pub Counts : Type 0
Counts = ℕ × ℕ

-- `+=` over a map, on uint64.
unfoldable pub u64 : ℕ → ℕ
u64 n = n % 18446744073709551616

unfoldable pub sum_from : {K V : Type 0} → (V → ℕ) → ℕ → List (K × V) → ℕ
unfolding u64
sum_from f acc [] = acc
sum_from f acc ((k, v) ∷ m) = sum_from f (u64 (acc + f v)) m

module _ {K V : Type 0} where
  -- Without an overflow the sum is the total.
  pub sum_from-total :
      (f : V → ℕ) (acc : ℕ) (m : List (K × V))
      → acc + total f m < 18446744073709551616
      → sum_from f acc m ≡ acc + total f m
  unfolding sum_from total u64
  sum_from-total f acc [] small = omega arith
  sum_from-total f acc ((k, v) ∷ m) small =
      let here : u64 (acc + f v) ≡ acc + f v = omega arith in
      rw here (sum_from-total f (acc + f v) m (omega arith) ∙ omega arith)

module _ {K V : Type 0} where
  pub sum_from-le : (f : V → ℕ) (acc : ℕ) (m : List (K × V)) → sum_from f acc m ≤ acc + total f m
  unfolding sum_from total u64
  sum_from-le f acc [] = omega arith
  sum_from-le f acc ((k, v) ∷ m) = omega (arith, sum_from-le f (u64 (acc + f v)) m)

module _ {K V : Type 0} (same_key : K → K → Bool)
    (same_key_iff : (j k : K) → (same_key j k ≡ true) ↔ (j ≡ k)) where
  find_key-put_key :
      (k j : K) (v : V) (m : List (K × V))
      → find_key same_key j (put_key same_key k v m)
        ≡ (if same_key k j then some v else find_key same_key j m)
  unfolding find_key put_key
  find_key-put_key k j v [] = refl
  find_key-put_key k j v ((i, w) ∷ m) = elim (Bool-cases (same_key i k)) [
    | inl at ↦
        let same_place : i ≡ k = (same_key_iff i k).0 at in
        let same_test : same_key i j ≡ same_key k j = ap (λ x. same_key x j) same_place in
        elim (Bool-cases (same_key k j)) [
          | inl here ↦ rw (at, same_test, here) refl
          | inr other ↦ rw (at, same_test, other) refl
        ]
    | inr off ↦ elim (Bool-cases (same_key i j)) [
      | inl here ↦
          let apart : same_key k j ≡ false = elim (Bool-cases (same_key k j)) [
            | inl there ↦ absurd (
                ground (
                  arith,
                  off,
                  (same_key_iff i k).1
                      ((same_key_iff i j).0 here ∙ sym ((same_key_iff k j).0 there)),
                ))
            | inr no_match ↦ no_match
          ] in
          rw (off, here, apart) refl
      | inr other ↦ rw (off, other) (find_key-put_key k j v m)
    ]
  ]

  -- Every counter of the map is at most what the kernel has for its key.
  unfoldable pub Ahead : (V → ℕ) → (K → V) → List (K × V) → Type 0
  Ahead f now m = (k : K) (v : V) → find_key same_key k m ≡ some v → f v ≤ f (now k)

  pub total-put_key :
      (f : V → ℕ) (k : K) (v : V) (m : List (K × V))
      → ((w : V) → find_key same_key k m ≡ some w → f w ≤ f v)
      → total f m ≤ total f (put_key same_key k v m)
  unfolding total put_key find_key
  total-put_key f k v [] grows = omega arith
  total-put_key f k v ((j, w) ∷ m) grows = elim (Bool-cases (same_key j k)) [
    | inl at ↦ rw at (omega (arith, grows w (rw at refl)))
    | inr off ↦ rw off (omega (arith, total-put_key f k v m (λ u e. grows u (rw off e))))
  ]

  -- Putting what the kernel has keeps the map behind the kernel.
  pub Ahead-put_key :
      (f : V → ℕ) (now : K → V) (k : K) (m : List (K × V))
      → Ahead f now m
      → Ahead f now (put_key same_key k (now k) m)
  unfolding Ahead
  Ahead-put_key f now k m ahead j v found = elim (Bool-cases (same_key k j)) [
    | inl here ↦
        let one : some (now k) ≡ some v =
          sym (rw (find_key-put_key k j (now k) m, here) refl) ∙ found in
        let same_value : f v ≡ f (now k) = ap (λ o. elim o [ none ↦ 0 | some u ↦ f u ]) (sym one) in
        let same_place : f (now k) ≡ f (now j) = ap (λ x. f (now x)) ((same_key_iff k j).0 here) in
        omega arith
    | inr other ↦ ahead j v (sym (rw (find_key-put_key k j (now k) m, other) refl) ∙ found)
  ]
