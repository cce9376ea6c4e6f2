-- ===== src/Prelude/Words.antt =====
-- `strings.Fields`: the words of a text between white space. White space beyond ASCII is not taken for
-- such: the texts that the program cuts like this are ASCII.
use swash.Prelude.Text.{Bytes, cons_head, join, join_rest}
use Prim.Native.Nat.{ℕ, ◌<◌}
use mathlib.Core.Path.{◌≡◌, refl, ap, ◌∙◌}
use mathlib.Core.Bool.{Bool, true, false, ◌&&◌, ◌||◌}
use mathlib.Core.List.{List, [], ◌∷◌, ◌++◌, append-nil}
use native.Mathlib.Omega.{arith}
use swash.Prelude.Tests.{ltb, ◌==◌, if◌then◌else◌}
use swash.Prelude.Lists.{length, select, All}

unfoldable pub is_blank : ℕ → Bool
is_blank c = c == 0x20 || (ltb 8 c && ltb c 14)

unfoldable pub split_spaces : Bytes → List Bytes
unfolding cons_head is_blank
split_spaces [] = [] ∷ []
split_spaces (c ∷ s) = if is_blank c then [] ∷ split_spaces s else cons_head c (split_spaces s)

unfoldable pub not_empty : Bytes → Bool
not_empty [] = false
not_empty (c ∷ w) = true

unfoldable pub words : Bytes → List Bytes
unfolding split_spaces not_empty
words s = select not_empty (split_spaces s)

-- A text that is one word: it has a byte, and no white space.
abbrev pub IsWord : Bytes → Type 0
IsWord w = (0 < length w) × All (λ c. is_blank c ≡ false) w

split_spaces-word :
    (sep : ℕ) (w rest : Bytes)
    → is_blank sep ≡ true
    → All (λ c. is_blank c ≡ false) w
    → split_spaces (w ++ sep ∷ rest) ≡ w ∷ split_spaces rest
unfolding split_spaces
split_spaces-word sep [] rest space h = rw space refl
split_spaces-word sep (c ∷ w) rest space h = rw (h.0, split_spaces-word sep w rest space h.1) refl

split_spaces-last : (w : Bytes) → All (λ c. is_blank c ≡ false) w → split_spaces w ≡ w ∷ []
unfolding split_spaces
split_spaces-last [] h = refl
split_spaces-last (c ∷ w) h = rw (h.0, split_spaces-last w h.1) refl

pub words-word :
    (sep : ℕ) (w rest : Bytes)
    → is_blank sep ≡ true
    → IsWord w
    → words (w ++ sep ∷ rest) ≡ w ∷ words rest
unfolding words
words-word sep [] rest space h = absurd (omega (arith, h.0))
words-word sep (c ∷ w) rest space h = rw (split_spaces-word sep (c ∷ w) rest space h.1) refl

pub words-last : (w : Bytes) → IsWord w → words w ≡ w ∷ []
unfolding words
words-last [] h = absurd (omega (arith, h.0))
words-last (c ∷ w) h = rw (split_spaces-last (c ∷ w) h.1) refl

words-last_nil : (w : Bytes) → IsWord w → words (w ++ []) ≡ w ∷ []
words-last_nil w h = rw (append-nil w) (words-last w h)

-- Words joined by spaces.
pub words-join : (ws : List Bytes) → All IsWord ws → words (join (0x20 ∷ []) ws) ≡ ws
unfolding join join_rest words split_spaces is_blank
words-join [] h = refl
words-join (w ∷ []) h = words-last_nil w h.0
words-join (w ∷ v ∷ ws) h =
    words-word 0x20 w (join (0x20 ∷ []) (v ∷ ws)) refl h.0 ∙ ap (◌∷◌ w) (words-join (v ∷ ws) h.1)
