-- ===== src/JournalFile/Lookup3/Blocks.antt =====
-- The hash of pkg/journalfile/lookup3.go against a description by blocks.
use swash.Prelude.{
  ℕ, zero, suc, ◌+◌, ◌*◌, ◌%◌, ◌≤◌, ◌≡◌, refl, ap, subst, ◌≢◌, true, List, [], ◌∷◌, ◌++◌,
  append_assoc, arith, ltb, lt→ltb, length, take, drop, length-append, drop-append, take-append,
  All, Bytes,
}
use swash.JournalFile.Lookup3.{
  add32, Words, mix, final, word, last_block, blocks, finish, jenkins_hash_little2,
}

-- The number that the bytes stand for, the lowest first.
abbrev pub little_endian : Bytes → ℕ
little_endian [] = 0
little_endian (d ∷ ds) = d + 256 * little_endian ds

-- Up to four bytes added to a word, which stays as it is if there are none.
abbrev pub add_part : ℕ → Bytes → ℕ
add_part x [] = x
add_part x (d ∷ ds) = (x + little_endian (d ∷ ds)) % 4294967296

abbrev pub add_block : Words → Bytes → Words
add_block (a, b, c) ds =
    (add_part a (take 4 ds), add_part b (take 4 (drop 4 ds)), add_part c (drop 8 ds))

-- The blocks before the last one are mixed in, and the last one ends the hash.
abbrev pub hash_blocks : Words → List Bytes → Bytes → Words
hash_blocks w [] last = final (add_block w last)
hash_blocks w (b ∷ bs) last = hash_blocks (mix (add_block w b)) bs last

abbrev pub concat : List Bytes → Bytes
concat [] = []
concat (b ∷ bs) = b ++ concat bs

triple : {a b c x y z : ℕ} → a ≡ x → b ≡ y → c ≡ z → ◌≡◌ {A = Words} (a, b, c) (x, y, z)
triple p q r = rw (p, q, r)

one_byte : (x d : ℕ) → add32 x d ≡ add_part x (d ∷ [])
unfolding add32
one_byte x d = omega arith

two_bytes : (x d e : ℕ) → add32 (add32 x (e * 256)) d ≡ add_part x (d ∷ e ∷ [])
unfolding add32
two_bytes x d e = omega arith

three_bytes :
    (x d e f : ℕ) → add32 (add32 (add32 x (f * 65536)) (e * 256)) d ≡ add_part x (d ∷ e ∷ f ∷ [])
unfolding add32
three_bytes x d e f = omega arith

four_bytes : (x d e f g : ℕ) → add32 x (word d e f g) ≡ add_part x (d ∷ e ∷ f ∷ g ∷ [])
unfolding add32 word
four_bytes x d e f g = omega arith

-- Every case of the `switch` adds the bytes that are there.
last_block-add_block : (w : Words) (ds : Bytes) → length ds ≤ 12 → last_block w ds ≡ add_block w ds
unfolding last_block
last_block-add_block (a, b, c) [] h = refl
last_block-add_block (a, b, c) (d0 ∷ []) h = triple (one_byte a d0) refl refl
last_block-add_block (a, b, c) (d0 ∷ d1 ∷ []) h = triple (two_bytes a d0 d1) refl refl
last_block-add_block (a, b, c) (d0 ∷ d1 ∷ d2 ∷ []) h = triple (three_bytes a d0 d1 d2) refl refl
last_block-add_block (a, b, c) (d0 ∷ d1 ∷ d2 ∷ d3 ∷ []) h =
    triple (four_bytes a d0 d1 d2 d3) refl refl
last_block-add_block (a, b, c) (d0 ∷ d1 ∷ d2 ∷ d3 ∷ d4 ∷ []) h =
    triple (four_bytes a d0 d1 d2 d3) (one_byte b d4) refl
last_block-add_block (a, b, c) (d0 ∷ d1 ∷ d2 ∷ d3 ∷ d4 ∷ d5 ∷ []) h =
    triple (four_bytes a d0 d1 d2 d3) (two_bytes b d4 d5) refl
last_block-add_block (a, b, c) (d0 ∷ d1 ∷ d2 ∷ d3 ∷ d4 ∷ d5 ∷ d6 ∷ []) h =
    triple (four_bytes a d0 d1 d2 d3) (three_bytes b d4 d5 d6) refl
last_block-add_block (a, b, c) (d0 ∷ d1 ∷ d2 ∷ d3 ∷ d4 ∷ d5 ∷ d6 ∷ d7 ∷ []) h =
    triple (four_bytes a d0 d1 d2 d3) (four_bytes b d4 d5 d6 d7) refl
last_block-add_block (a, b, c) (d0 ∷ d1 ∷ d2 ∷ d3 ∷ d4 ∷ d5 ∷ d6 ∷ d7 ∷ d8 ∷ []) h =
    triple (four_bytes a d0 d1 d2 d3) (four_bytes b d4 d5 d6 d7) (one_byte c d8)
last_block-add_block (a, b, c) (d0 ∷ d1 ∷ d2 ∷ d3 ∷ d4 ∷ d5 ∷ d6 ∷ d7 ∷ d8 ∷ d9 ∷ []) h =
    triple (four_bytes a d0 d1 d2 d3) (four_bytes b d4 d5 d6 d7) (two_bytes c d8 d9)
last_block-add_block (a, b, c) (d0 ∷ d1 ∷ d2 ∷ d3 ∷ d4 ∷ d5 ∷ d6 ∷ d7 ∷ d8 ∷ d9 ∷ d10 ∷ []) h =
    triple (four_bytes a d0 d1 d2 d3) (four_bytes b d4 d5 d6 d7) (three_bytes c d8 d9 d10)
last_block-add_block (a, b, c) (d0 ∷ d1 ∷ d2 ∷ d3 ∷ d4 ∷ d5 ∷ d6 ∷ d7 ∷ d8 ∷ d9 ∷ d10 ∷ d11 ∷ [])
      h =
    triple (four_bytes a d0 d1 d2 d3) (four_bytes b d4 d5 d6 d7) (four_bytes c d8 d9 d10 d11)
last_block-add_block w (d0 ∷ d1 ∷ d2 ∷ d3 ∷ d4 ∷ d5 ∷ d6 ∷ d7 ∷ d8 ∷ d9 ∷ d10 ∷ d11 ∷ d12 ∷ ds) h =
    absurd (omega arith)

abbrev pub output : Words → ℕ × ℕ
output (a, b, c) = (c, b)

finish-add_block :
    (w : Words) (last : Bytes)
    → last ≢ []
    → length last ≤ 12
    → finish w last ≡ output (final (add_block w last))
unfolding finish
finish-add_block w [] some_left short = absurd (some_left refl)
finish-add_block w (d ∷ ds) some_left short =
    ap (λ v. output (final v)) (last_block-add_block w (d ∷ ds) short)

abbrev finish_blocks : ℕ → Words → Bytes → ℕ × ℕ
finish_blocks fuel w ds = finish (blocks fuel w ds).0 (blocks fuel w ds).1

longer : (b rest : Bytes) → length b ≡ 12 → rest ≢ [] → ltb 12 (length (b ++ rest)) ≡ true
longer b [] whole more = absurd (more refl)
longer b (d ∷ rest) whole more = lt→ltb 12 _ (omega (arith, length-append b (d ∷ rest)))

blocks-more :
    (fuel : ℕ) (w : Words) (b rest : Bytes)
    → length b ≡ 12
    → rest ≢ []
    → blocks (suc fuel) w (b ++ rest) ≡ blocks fuel (mix (add_block w b)) rest
unfolding blocks
blocks-more fuel w b rest whole more =
    let front : take 12 (b ++ rest) ≡ b =
      subst (λ n. take n (b ++ rest) ≡ b) whole (take-append b rest) in
    let back : drop 12 (b ++ rest) ≡ rest =
      subst (λ n. drop n (b ++ rest) ≡ rest) whole (drop-append b rest) in
    rw (longer b rest whole more, front, back, last_block-add_block w b (omega arith))

blocks-last :
    (fuel : ℕ) (w : Words) (last : Bytes) → length last ≤ 12 → blocks fuel w last ≡ (w, last)
unfolding blocks
blocks-last zero w last short = refl
blocks-last (suc fuel) w last short = ground arith

append-ne-nil : (xs ys : Bytes) → ys ≢ [] → xs ++ ys ≢ []
append-ne-nil [] ys h = h
append-ne-nil (x ∷ xs) ys h = ground arith

finish_blocks-hash_blocks :
    (bs : List Bytes) (fuel : ℕ) (w : Words) (last : Bytes)
    → All (λ b. length b ≡ 12) bs
    → last ≢ []
    → length last ≤ 12
    → length (concat bs ++ last) ≤ fuel
    → finish_blocks fuel w (concat bs ++ last) ≡ output (hash_blocks w bs last)
finish_blocks-hash_blocks [] fuel w last whole some_left short enough =
    rw (blocks-last fuel w last short) (finish-add_block w last some_left short)
finish_blocks-hash_blocks (b ∷ bs) zero w last (size, whole) some_left short enough =
    absurd (omega (arith, length-append b (concat bs), length-append (b ++ concat bs) last))
finish_blocks-hash_blocks (b ∷ bs) (suc fuel) w last (size, whole) some_left short enough =
    let more = append-ne-nil (concat bs) last some_left in
    let fits : length (concat bs ++ last) ≤ fuel = omega (
      arith,
      length-append b (concat bs),
      length-append (b ++ concat bs) last,
      length-append (concat bs) last,
    ) in
    rw (append_assoc, blocks-more fuel w b (concat bs ++ last) size more)
      (finish_blocks-hash_blocks bs fuel (mix (add_block w b)) last whole some_left short fits)

-- The hash of a text that is cut into blocks of 12 bytes and a last one of 1 to 12 bytes mixes in each
-- block but the last and ends with that one, and a block adds its bytes as little-endian words.
pub jenkins_hash_little2-blocks :
    (bs : List Bytes) (last : Bytes)
    → All (λ b. length b ≡ 12) bs
    → last ≢ []
    → length last ≤ 12
    → let a = add32 3735928559 (length (concat bs ++ last) % 4294967296) in
      jenkins_hash_little2 (concat bs ++ last) ≡ output (hash_blocks (a, a, a) bs last)
unfolding jenkins_hash_little2
jenkins_hash_little2-blocks bs last whole some_left short =
    let a = add32 3735928559 (length (concat bs ++ last) % 4294967296) in
    finish_blocks-hash_blocks bs (length (concat bs ++ last)) (a, a, a) last whole some_left short
      (omega arith)
