-- ===== src/Prelude/Text.antt =====
-- Go strings as lists of bytes, with the operations of `strings` and `bytes` that the source calls.
use Prim.Native.Nat.{ℕ}
use Prim.Native.Char.{code}
use Prim.Native.String.{String}
use mathlib.Core.Path.{ap, ◌∙◌, ◌≡◌, refl}
use mathlib.Core.Logic.{◌≢◌, ◌↔◌, ◌⊎◌, inl, inr}
use mathlib.Core.Bool.{Bool, true, false, ◌&&◌}
use mathlib.Core.List.{append-nil, List, [], ◌∷◌, ◌++◌}
use mathlib.Core.Option.{Option, none, some}
use native.Mathlib.Omega.{arith}
use swash.Prelude.Tests.{==_iff, if◌then◌else◌, ◌==◌, Bool-cases}
use swash.Prelude.Lists.{All}

abbrev pub Bytes : Type 0
Bytes = List ℕ

-- The code points of a literal, which are its bytes when the text is ASCII.
abbrev pub codes : String → Bytes
codes String.[] = []
codes (String.◌∷◌ c s) = code c ∷ codes s

abbrev pub Lacks : ℕ → Bytes → Type 0
Lacks b = All (λ c. c ≢ b)

-- `s == t` on strings.
unfoldable pub same : Bytes → Bytes → Bool
same [] [] = true
same [] (d ∷ t) = false
same (c ∷ s) [] = false
same (c ∷ s) (d ∷ t) = if c == d then same s t else false

pub same_iff : (s t : Bytes) → (same s t ≡ true) ↔ (s ≡ t)
unfolding same
same_iff [] [] = ground arith
same_iff [] (d ∷ t) = ground arith
same_iff (c ∷ s) [] = ground arith
same_iff (c ∷ s) (d ∷ t) = ground (arith, same_iff s t)

pub same_refl : (s : Bytes) → same s s ≡ true
same_refl s = (same_iff s s).1 refl

-- `strings.HasPrefix s p`, with the prefix first.
unfoldable pub has_prefix : Bytes → Bytes → Bool
has_prefix [] s = true
has_prefix (p ∷ ps) [] = false
has_prefix (p ∷ ps) (c ∷ s) = p == c && has_prefix ps s

-- `strings.CutPrefix`: what follows the prefix, if it is there.
unfoldable pub cut_prefix : Bytes → Bytes → Option Bytes
cut_prefix [] s = some s
cut_prefix (p ∷ ps) [] = none
cut_prefix (p ∷ ps) (c ∷ s) = if p == c then cut_prefix ps s else none

pub cut_prefix-append : (p s : Bytes) → cut_prefix p (p ++ s) ≡ some s
unfolding cut_prefix
cut_prefix-append [] s = refl
cut_prefix-append (c ∷ p) s = ground (arith, cut_prefix-append p s)

-- `strings.TrimPrefix`.
unfoldable pub trim_prefix : Bytes → Bytes → Bytes
unfolding cut_prefix
trim_prefix p s = elim (cut_prefix p s) [ none ↦ s | some rest ↦ rest ]

-- `strings.Cut` at one byte.
unfoldable pub cut : ℕ → Bytes → Option (Bytes × Bytes)
cut sep [] = none
cut sep (c ∷ s) =
    let rest = cut sep s in
    if c == sep then some ([], s) else elim rest [ none ↦ none | some (b, a) ↦ some (c ∷ b, a) ]

pub cut-append : (sep : ℕ) (b a : Bytes) → Lacks sep b → cut sep (b ++ sep ∷ a) ≡ some (b, a)
unfolding cut
cut-append sep [] a h = ground arith
cut-append sep (c ∷ b) a h = ground (arith, cut-append sep b a h.1)

-- A byte put in front of the first part.
unfoldable pub cons_head : ℕ → List Bytes → List Bytes
cons_head c [] = (c ∷ []) ∷ []
cons_head c (p ∷ ps) = (c ∷ p) ∷ ps

-- `strings.Split` at one byte.
unfoldable pub split : ℕ → Bytes → List Bytes
unfolding cons_head
split sep [] = [] ∷ []
split sep (c ∷ s) = if c == sep then [] ∷ split sep s else cons_head c (split sep s)

-- The parts of a join behind the first, each behind a separator.
unfoldable pub join_rest : Bytes → List Bytes → Bytes
join_rest sep [] = []
join_rest sep (p ∷ ps) = sep ++ p ++ join_rest sep ps

-- `strings.Join`.
unfoldable pub join : Bytes → List Bytes → Bytes
unfolding join_rest
join sep [] = []
join sep (p ∷ ps) = p ++ join_rest sep ps

-- A text is split at the first separator, or has none.
pub split_view :
    (sep : ℕ) (s : Bytes)
    → Lacks sep s ⊎ ((p : Bytes) × (rest : Bytes) × (s ≡ p ++ sep ∷ rest) × Lacks sep p)
split_view sep [] = inl tt
split_view sep (c ∷ s) = elim (Bool-cases (c == sep)) [
  | inl here ↦ inr ([], s, ground arith, tt)
  | inr other ↦ elim (split_view sep s) [
    | inl none_left ↦ inl ((λ e. ground arith), none_left)
    | inr (p, rest, e, h) ↦ inr (c ∷ p, rest, cc, ((λ x. ground arith), h))
  ]
]

pub split-append :
    (sep : ℕ) (p rest : Bytes) → Lacks sep p → split sep (p ++ sep ∷ rest) ≡ p ∷ split sep rest
unfolding split
split-append sep [] rest h = ground arith
split-append sep (c ∷ p) rest h = ground (arith, split-append sep p rest h.1)

pub split-Lacks : (sep : ℕ) (s : Bytes) → Lacks sep s → split sep s ≡ s ∷ []
unfolding split
split-Lacks sep [] h = refl
split-Lacks sep (c ∷ s) h = ground (arith, split-Lacks sep s h.1)

pub split-ne-nil : (sep : ℕ) (s : Bytes) → split sep s ≢ []
unfolding split
split-ne-nil sep [] h = cc
split-ne-nil sep (c ∷ s) h = ground (arith, split-ne-nil sep s)

join_rest-cons_head :
    (sep c : ℕ) (ps : List Bytes)
    → ps ≢ []
    → join (sep ∷ []) (cons_head c ps) ≡ c ∷ join (sep ∷ []) ps
unfolding join cons_head
join_rest-cons_head sep c [] h = absurd (h refl)
join_rest-cons_head sep c (p ∷ ps) h = refl

join-cons_nil :
    (sep : ℕ) (ps : List Bytes) → ps ≢ [] → join (sep ∷ []) ([] ∷ ps) ≡ sep ∷ join (sep ∷ []) ps
unfolding join
join-cons_nil sep [] h = absurd (h refl)
join-cons_nil sep (p ∷ ps) h = refl

-- Joining the parts of a split gives the text back.
pub join-split : (sep : ℕ) (s : Bytes) → join (sep ∷ []) (split sep s) ≡ s
unfolding split
join-split sep [] = unfold join in refl
join-split sep (c ∷ s) = elim (Bool-cases (c == sep)) [
  | inl here ↦
      rw (here, join-cons_nil sep _ (split-ne-nil sep s), join-split sep s)
        (cc ((==_iff c sep).0 here))
  | inr other ↦ rw (other, join_rest-cons_head sep c _ (split-ne-nil sep s), join-split sep s)
]

-- Splitting a join gives the parts back, if there is one and none holds the separator.
pub split-join :
    (sep : ℕ) (p : Bytes) (ps : List Bytes)
    → All (Lacks sep) (p ∷ ps)
    → split sep (join (sep ∷ []) (p ∷ ps)) ≡ p ∷ ps
unfolding join
split-join sep p [] (hp, h) = rw append-nil (split-Lacks sep p hp)
split-join sep p (q ∷ ps) (hp, h) = split-append sep p _ hp ∙ ap (◌∷◌ p) (split-join sep q ps h)

cons_head-All-Lacks :
    (sep c : ℕ)
    → c ≢ sep
    → (ps : List Bytes) → All (Lacks sep) ps
    → All (Lacks sep) (cons_head c ps)
unfolding cons_head
cons_head-All-Lacks sep c ne [] h = ((ne, tt), tt)
cons_head-All-Lacks sep c ne (p ∷ ps) (hp, h) = ((ne, hp), h)

-- The parts of a split hold no separator.
pub split-All-Lacks : (sep : ℕ) (s : Bytes) → All (Lacks sep) (split sep s)
unfolding split
split-All-Lacks sep [] = (tt, tt)
split-All-Lacks sep (c ∷ s) = elim (Bool-cases (c == sep)) [
  | inl here ↦ rw here (tt, split-All-Lacks sep s)
  | inr other ↦
      rw other (cons_head-All-Lacks sep c (λ e. ground arith) (split sep s) (split-All-Lacks sep s))
]
