-- ===== src/Tests/JournalFile.antt =====
-- pkg/journalfile at known answers and concrete files.
use swash.Prelude.{◌≡◌, refl, List, [], ◌∷◌, ◌++◌, arith, Bytes, codes}
use swash.JournalFile.Lookup3.{
  add32, sub32, rot, sub_xor, xor_sub, mix, final, word, last_block, blocks, finish,
  jenkins_hash_little2, jenkins_hash64,
}
use swash.JournalFile.Lookup3.Blocks.{concat, output, hash_blocks, jenkins_hash_little2-blocks}

abbrev before : List Bytes
before = codes "Four score a" ∷ codes "nd seven yea" ∷ []

abbrev last : Bytes
last = codes "rs ago"

-- The answer that lookup3.c gives for "Four score and seven years ago".
jenkins_hash_little2_lem :
    jenkins_hash_little2 (codes "Four score and seven years ago") ≡ (0x17770551, 0xce7226e6)
unfolding jenkins_hash_little2 blocks finish final last_block mix add32 sub_xor xor_sub sub32 rot
    word
jenkins_hash_little2_lem = refl

jenkins_hash64-nil : jenkins_hash64 [] ≡ 0xdeadbeefdeadbeef
unfolding jenkins_hash64 jenkins_hash_little2 blocks finish add32
jenkins_hash64-nil = refl

jenkins_hash_little2-blocks_example :
    jenkins_hash_little2 (concat before ++ last)
    ≡ output (hash_blocks (3735928589, 3735928589, 3735928589) before last)
unfolding add32
jenkins_hash_little2-blocks_example =
    jenkins_hash_little2-blocks before last (refl, (refl, tt)) (ground arith) (omega arith)
