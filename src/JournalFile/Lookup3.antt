-- ===== src/JournalFile/Lookup3.antt =====
-- pkg/journalfile/lookup3.go: the Jenkins hash. A uint32 is a number below 2 ^ 32 that wraps around,
-- and the `|` of shifted bytes, which have no bit in common, is their sum.
pub mod Blocks
use swash.Prelude.{
  ℕ, zero, suc, ◌+◌, ◌-◌, ◌*◌, ◌/◌, ◌%◌, ◌^◌, [], ◌∷◌, ltb, if◌then◌else◌, length, take, drop,
  Bytes,
}
use Prim.Native.Nat.{bit_xor}

abbrev pub modulus : ℕ
modulus = 4294967296

-- `x += y`.
unfoldable pub add32 : ℕ → ℕ → ℕ
add32 x y = (x + y) % 4294967296

-- `x -= y`.
unfoldable pub sub32 : ℕ → ℕ → ℕ
sub32 x y = (x + (4294967296 - y)) % 4294967296

-- `bits.RotateLeft32`, for 0 < k < 32.
unfoldable pub rot : ℕ → ℕ → ℕ
rot x k = x * 2 ^ k % 4294967296 + x / 2 ^ (32 - k)

-- The three words that `mix` and `final` change.
abbrev pub Words : Type 0
Words = ℕ × ℕ × ℕ

-- `x -= y; x ^= rot(y, k)`.
unfoldable pub sub_xor : ℕ → ℕ → ℕ → ℕ
unfolding sub32 rot
sub_xor k x y = bit_xor (sub32 x y) (rot y k)

-- `x ^= y; x -= rot(y, k)`.
unfoldable pub xor_sub : ℕ → ℕ → ℕ → ℕ
unfolding sub32 rot
xor_sub k x y = sub32 (bit_xor x y) (rot y k)

unfoldable pub mix : Words → Words
unfolding sub_xor add32
mix (a0, b0, c0) =
    let a1 = sub_xor 4 a0 c0 in
    let c1 = add32 c0 b0 in
    let b1 = sub_xor 6 b0 a1 in
    let a2 = add32 a1 c1 in
    let c2 = sub_xor 8 c1 b1 in
    let b2 = add32 b1 a2 in
    let a3 = sub_xor 16 a2 c2 in
    let c3 = add32 c2 b2 in
    let b3 = sub_xor 19 b2 a3 in
    let a4 = add32 a3 c3 in let c4 = sub_xor 4 c3 b3 in (a4, add32 b3 a4, c4)

unfoldable pub final : Words → Words
unfolding xor_sub
final (a0, b0, c0) =
    let c1 = xor_sub 14 c0 b0 in
    let a1 = xor_sub 11 a0 c1 in
    let b1 = xor_sub 25 b0 a1 in
    let c2 = xor_sub 16 c1 b1 in
    let a2 = xor_sub 4 a1 c2 in let b2 = xor_sub 14 b1 a2 in (a2, b2, xor_sub 24 c2 b2)

-- Four bytes, the lowest first.
unfoldable pub word : ℕ → ℕ → ℕ → ℕ → ℕ
word d0 d1 d2 d3 = d0 + d1 * 256 + d2 * 65536 + d3 * 16777216

-- The `switch` on the length of the last block, behind which all cases but the last go on to `final`.
unfoldable pub last_block : Words → Bytes → Words
unfolding add32 word
last_block (a, b, c) [] = (a, b, c)
last_block (a, b, c) (d0 ∷ []) = (add32 a d0, b, c)
last_block (a, b, c) (d0 ∷ d1 ∷ []) = (add32 (add32 a (d1 * 256)) d0, b, c)
last_block (a, b, c) (d0 ∷ d1 ∷ d2 ∷ []) =
    (add32 (add32 (add32 a (d2 * 65536)) (d1 * 256)) d0, b, c)
last_block (a, b, c) (d0 ∷ d1 ∷ d2 ∷ d3 ∷ []) = (add32 a (word d0 d1 d2 d3), b, c)
last_block (a, b, c) (d0 ∷ d1 ∷ d2 ∷ d3 ∷ d4 ∷ []) = (add32 a (word d0 d1 d2 d3), add32 b d4, c)
last_block (a, b, c) (d0 ∷ d1 ∷ d2 ∷ d3 ∷ d4 ∷ d5 ∷ []) =
    (add32 a (word d0 d1 d2 d3), add32 (add32 b (d5 * 256)) d4, c)
last_block (a, b, c) (d0 ∷ d1 ∷ d2 ∷ d3 ∷ d4 ∷ d5 ∷ d6 ∷ []) =
    (add32 a (word d0 d1 d2 d3), add32 (add32 (add32 b (d6 * 65536)) (d5 * 256)) d4, c)
last_block (a, b, c) (d0 ∷ d1 ∷ d2 ∷ d3 ∷ d4 ∷ d5 ∷ d6 ∷ d7 ∷ []) =
    (add32 a (word d0 d1 d2 d3), add32 b (word d4 d5 d6 d7), c)
last_block (a, b, c) (d0 ∷ d1 ∷ d2 ∷ d3 ∷ d4 ∷ d5 ∷ d6 ∷ d7 ∷ d8 ∷ []) =
    (add32 a (word d0 d1 d2 d3), add32 b (word d4 d5 d6 d7), add32 c d8)
last_block (a, b, c) (d0 ∷ d1 ∷ d2 ∷ d3 ∷ d4 ∷ d5 ∷ d6 ∷ d7 ∷ d8 ∷ d9 ∷ []) =
    (add32 a (word d0 d1 d2 d3), add32 b (word d4 d5 d6 d7), add32 (add32 c (d9 * 256)) d8)
last_block (a, b, c) (d0 ∷ d1 ∷ d2 ∷ d3 ∷ d4 ∷ d5 ∷ d6 ∷ d7 ∷ d8 ∷ d9 ∷ d10 ∷ []) = (
  add32 a (word d0 d1 d2 d3),
  add32 b (word d4 d5 d6 d7),
  add32 (add32 (add32 c (d10 * 65536)) (d9 * 256)) d8,
)
last_block (a, b, c) (d0 ∷ d1 ∷ d2 ∷ d3 ∷ d4 ∷ d5 ∷ d6 ∷ d7 ∷ d8 ∷ d9 ∷ d10 ∷ d11 ∷ rest) =
    (add32 a (word d0 d1 d2 d3), add32 b (word d4 d5 d6 d7), add32 c (word d8 d9 d10 d11))

-- The loop over the blocks before the last one. Each round takes 12 bytes, so the length is enough
-- fuel. The words of a whole block are those of the `switch` at 12 bytes.
unfoldable pub blocks : ℕ → Words → Bytes → Words × Bytes
unfolding last_block mix
blocks zero w data_bytes = (w, data_bytes)
blocks (suc fuel) w data_bytes =
    let more = blocks fuel (mix (last_block w (take 12 data_bytes))) (drop 12 data_bytes) in
    if ltb 12 (length data_bytes) then more else (w, data_bytes)

unfoldable pub finish : Words → Bytes → ℕ × ℕ
unfolding last_block final
finish (a, b, c) [] = (c, b)
finish w (d ∷ ds) = let (a, b, c) = final (last_block w (d ∷ ds)) in (c, b)

-- `JenkinsHashLittle2`.
unfoldable pub jenkins_hash_little2 : Bytes → ℕ × ℕ
unfolding blocks finish add32
jenkins_hash_little2 data_bytes =
    let a = add32 3735928559 (length data_bytes % 4294967296) in
    let (w, rest) = blocks (length data_bytes) (a, a, a) data_bytes in finish w rest

-- `JenkinsHash64`.
unfoldable pub jenkins_hash64 : Bytes → ℕ
unfolding jenkins_hash_little2
jenkins_hash64 data_bytes = let (a, b) = jenkins_hash_little2 data_bytes in a * 4294967296 + b
