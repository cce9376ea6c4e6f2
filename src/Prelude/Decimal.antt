-- ===== src/Prelude/Decimal.antt =====
-- `strconv.FormatUint` and `strconv.ParseUint` in base ten.
use Prim.Native.Nat.{ℕ, zero, suc, ◌+◌, ◌-◌, ◌*◌, ◌/◌, ◌%◌, ◌≤◌, ◌<◌}
use swash.Prelude.Tests.{if◌then◌else◌, ltb, Bool-cases, ltb→lt}
use swash.Prelude.Lists.{All}
use swash.Prelude.Text.{Bytes, Lacks}
use mathlib.Core.Path.{ap, sym, ◌≡◌, refl, ◌∙◌}
use mathlib.Core.Logic.{◌≢◌, ◌⊎◌, inl, inr}
use mathlib.Core.Bool.{◌||◌}
use mathlib.Core.List.{[], ◌∷◌}
use mathlib.Core.Option.{Option, none, some}
use native.Mathlib.Omega.{arith}

abbrev pub max_uint64 : ℕ
max_uint64 = 18446744073709551615

-- The digits of `n` in front of `out`. A number is larger than its tenth, so `n + 1` is enough fuel.
unfoldable pub digits : ℕ → ℕ → Bytes → Bytes
digits zero n out = out
digits (suc fuel) n out =
    let more = digits fuel (n / 10) ((b'0' + n % 10) ∷ out) in
    if ltb n 10 then (b'0' + n) ∷ out else more

unfoldable pub format_uint : ℕ → Bytes
unfolding digits
format_uint n = digits (suc n) n []

-- `none` is `ErrSyntax` or `ErrRange`.
unfoldable pub scan_uint : ℕ → Bytes → Option ℕ
scan_uint n [] = some n
scan_uint n (c ∷ s) =
    let next = n * 10 + (c - b'0') in
    let rest = scan_uint next s in
    if ltb c b'0' || ltb b'9' c || ltb max_uint64 next then none else rest

unfoldable pub parse_uint : Bytes → Option ℕ
unfolding scan_uint
parse_uint [] = none
parse_uint (c ∷ s) = scan_uint 0 (c ∷ s)

scan_uint_at : (a b : ℕ) (t : Bytes) → a ≡ b → scan_uint a t ≡ scan_uint b t
scan_uint_at a b t e = rw e

scan_uint-digit :
    (n d : ℕ) (s : Bytes)
    → d < 10
    → n * 10 + d ≤ max_uint64
    → scan_uint n ((b'0' + d) ∷ s) ≡ scan_uint (n * 10 + d) s
unfolding scan_uint
scan_uint-digit n d s h k = ground (arith, scan_uint_at (n * 10 + (b'0' + d - b'0')) (n * 10 + d) s)

scan_uint-digits :
    (fuel n : ℕ) (out : Bytes)
    → n < fuel
    → n ≤ max_uint64
    → scan_uint 0 (digits fuel n out) ≡ scan_uint n out
unfolding digits
scan_uint-digits zero n out h k = absurd (omega arith)
scan_uint-digits (suc fuel) n out h k = elim (Bool-cases (ltb n 10)) [
  | inl small ↦ rw small (
      scan_uint-digit 0 n out (ltb→lt n 10 small) (omega arith)
      ∙ scan_uint_at _ n out (omega arith))
  | inr large ↦ rw large (
      scan_uint-digits fuel (n / 10) ((b'0' + n % 10) ∷ out) (ground arith) (omega arith)
      ∙ scan_uint-digit (n / 10) (n % 10) out (omega arith) (omega arith)
      ∙ scan_uint_at (n / 10 * 10 + n % 10) n out (omega arith))
]

digits-ne-nil : (fuel n : ℕ) (out : Bytes) → digits (suc fuel) n out ≢ []
unfolding digits
digits-ne-nil zero n out = ground arith
digits-ne-nil (suc fuel) n out = ground (arith, digits-ne-nil fuel (n / 10) ((b'0' + n % 10) ∷ out))

parse_uint-scan_uint : (s : Bytes) → s ≢ [] → parse_uint s ≡ scan_uint 0 s
unfolding parse_uint
parse_uint-scan_uint [] h = absurd (h refl)
parse_uint-scan_uint (c ∷ s) h = refl

-- Every number of 64 bits is read back as it was written.
pub parse_uint-format_uint : (n : ℕ) → n ≤ max_uint64 → parse_uint (format_uint n) ≡ some n
unfolding format_uint
parse_uint-format_uint n h =
    parse_uint-scan_uint _ (digits-ne-nil n n [])
    ∙ scan_uint-digits (suc n) n [] (omega arith) h
    ∙ unfold scan_uint in refl

digits-Lacks :
    (b : ℕ)
    → (b < b'0') ⊎ (b'9' < b)
    → (fuel n : ℕ) (out : Bytes) → Lacks b out
    → Lacks b (digits fuel n out)
unfolding digits
digits-Lacks b other zero n out h = h
digits-Lacks b other (suc fuel) n out h = elim (Bool-cases (ltb n 10)) [
  | inl small ↦ rw small ((λ e. ground arith), h)
  | inr large ↦ rw large (digits-Lacks b other fuel (n / 10) _ ((λ e. ground arith), h))
]

-- A decimal number holds digits only.
pub format_uint-Lacks : (b n : ℕ) → (b < b'0') ⊎ (b'9' < b) → Lacks b (format_uint n)
unfolding format_uint
format_uint-Lacks b n other = digits-Lacks b other (suc n) n [] tt

digits-All :
    (fuel n : ℕ) (out : Bytes) → All (λ c. c < 128) out → All (λ c. c < 128) (digits fuel n out)
unfolding digits
digits-All zero n out h = h
digits-All (suc fuel) n out h = elim (Bool-cases (ltb n 10)) [
  | inl small ↦ rw small (ground arith, h)
  | inr large ↦ rw large (digits-All fuel (n / 10) _ (omega arith, h))
]

-- A decimal number is ASCII.
pub format_uint-All : (n : ℕ) → All (λ c. c < 128) (format_uint n)
unfolding format_uint
format_uint-All n = digits-All (suc n) n [] tt

-- The number that decimal digits stand for, behind digits that stand for n.
value : ℕ → Bytes → ℕ
value n [] = n
value n (c ∷ s) = value (n * 10 + (c - b'0')) s

value_at : (a b : ℕ) (t : Bytes) → a ≡ b → value a t ≡ value b t
value_at a b t e = rw e

value-digits : (fuel n : ℕ) (out : Bytes) → n < fuel → value 0 (digits fuel n out) ≡ value n out
unfolding digits value
value-digits zero n out h = absurd (omega arith)
value-digits (suc fuel) n out h = elim (Bool-cases (ltb n 10)) [
  | inl small ↦ rw small (value_at (0 * 10 + (b'0' + n - b'0')) n out (omega arith))
  | inr large ↦ rw large (
      value-digits fuel (n / 10) ((b'0' + n % 10) ∷ out) (ground arith)
      ∙ value_at (n / 10 * 10 + (b'0' + n % 10 - b'0')) n out (omega arith))
]

-- Different numbers are written differently.
pub format_uint-injective : (m n : ℕ) → format_uint m ≡ format_uint n → m ≡ n
unfolding format_uint value
format_uint-injective m n e =
    sym (value-digits (suc m) m [] (omega arith))
    ∙ ap (value 0) e
    ∙ value-digits (suc n) n [] (omega arith)

-- The value that `strconv.ParseUint` returns, beside an error too: 0 for a syntax error, the largest
-- number for one that is out of range.
unfoldable pub scan_value : ℕ → Bytes → ℕ
scan_value n [] = n
scan_value n (c ∷ s) =
    let next = n * 10 + (c - b'0') in
    let rest = scan_value next s in
    if ltb c b'0' || ltb b'9' c then 0 else if ltb max_uint64 next then max_uint64 else rest

unfoldable pub parse_uint_value : Bytes → ℕ
unfolding scan_value
parse_uint_value [] = 0
parse_uint_value (c ∷ s) = scan_value 0 (c ∷ s)

scan_value-scan_uint : (k : ℕ) (s : Bytes) (n : ℕ) → scan_uint k s ≡ some n → scan_value k s ≡ n
unfolding scan_value scan_uint
scan_value-scan_uint k [] n e = ground arith
scan_value-scan_uint k (c ∷ s) n e = ground (arith, scan_value-scan_uint (k * 10 + (c - b'0')) s n)

parse_uint_value-parse_uint : (s : Bytes) (n : ℕ) → parse_uint s ≡ some n → parse_uint_value s ≡ n
unfolding parse_uint_value parse_uint
parse_uint_value-parse_uint [] n e = ground arith
parse_uint_value-parse_uint (c ∷ s) n e = scan_value-scan_uint 0 (c ∷ s) n e

pub parse_uint_value-format_uint : (n : ℕ) → n ≤ max_uint64 → parse_uint_value (format_uint n) ≡ n
parse_uint_value-format_uint n h =
    parse_uint_value-parse_uint (format_uint n) n (parse_uint-format_uint n h)

pub format_uint-ne-nil : (n : ℕ) → format_uint n ≢ []
unfolding format_uint
format_uint-ne-nil n = digits-ne-nil n n []
