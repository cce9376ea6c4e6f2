-- ===== src/Host/ProcessTree/Reach.antt =====
-- internal/host/process_tree.go: which processes the signal reaches.
use swash.Prelude.{
  ℕ, ◌≡◌, refl, sym, ◌∙◌, subst, ◌⊎◌, inl, inr, Bool, true, false, ◌||◌, none, some, List, [], ◌∷◌,
  arith, if◌then◌else◌, Bool-cases,
}
use swash.Prelude.Int.{ℤ}
use swash.Host.Sampler.Stat.{same_int, same_int_iff}
use swash.Host.ProcessTree.{
  System, Sent, session_process_ids, signal, signal_all, signal_others, sweep, signal_found,
  signal_process_session,
}

unfoldable pub member : ℤ → List ℤ → Bool
unfolding same_int
member pid [] = false
member pid (p ∷ pids) = same_int p pid || member pid pids

module _ {K : Type 0} (S : System K) where
  signal_all-kept :
      (sig : ℕ) (pids : List ℤ) (sent : Sent K) (pid : ℤ)
      → member pid sent.killed ≡ true
      → member pid (signal_all S sig pids sent).killed ≡ true
  unfolding signal_all signal member
  signal_all-kept sig [] sent pid there = there
  signal_all-kept sig (p ∷ pids) sent pid there =
      signal_all-kept sig pids (signal S sig p sent) pid (ground (arith, there))

  signal_all-all :
      (sig : ℕ) (pids : List ℤ) (sent : Sent K) (pid : ℤ)
      → member pid pids ≡ true
      → member pid (signal_all S sig pids sent).killed ≡ true
  unfolding signal_all signal member
  signal_all-all sig [] sent pid there = absurd (ground arith)
  signal_all-all sig (p ∷ pids) sent pid there = elim (Bool-cases (same_int p pid)) [
    | inl here ↦ signal_all-kept sig pids (signal S sig p sent) pid (rw here refl)
    | inr other ↦ signal_all-all sig pids (signal S sig p sent) pid (rw other at there)
  ]

  leader-kept :
      (sig : ℕ) (sid : ℤ) (pids : List ℤ) (sent : Sent K)
      → (signal_others S sig sid pids true sent).0 ≡ true
  unfolding signal_others
  leader-kept sig sid [] sent = refl
  leader-kept sig sid (p ∷ pids) sent = elim (Bool-cases (same_int p sid)) [
    | inl here ↦ rw here (leader-kept sig sid pids sent)
    | inr other ↦ rw other (leader-kept sig sid pids (signal S sig p sent))
  ]

  signal_others-kept :
      (sig : ℕ) (sid : ℤ) (pids : List ℤ) (leader : Bool) (sent : Sent K) (pid : ℤ)
      → member pid sent.killed ≡ true
      → member pid (signal_others S sig sid pids leader sent).1.killed ≡ true
  unfolding signal_others signal member
  signal_others-kept sig sid [] leader sent pid there = there
  signal_others-kept sig sid (p ∷ pids) leader sent pid there = elim (Bool-cases (same_int p sid)) [
    | inl here ↦ rw here (signal_others-kept sig sid pids true sent pid there)
    | inr other ↦
        rw other
          (signal_others-kept sig sid pids leader (signal S sig p sent) pid (ground (arith, there)))
  ]

  -- The first pass leaves out the leader alone, and tells that it was there.
  signal_others-all :
      (sig : ℕ) (sid : ℤ) (pids : List ℤ) (leader : Bool) (sent : Sent K) (pid : ℤ)
      → member pid pids ≡ true
      → let (leader', sent') = signal_others S sig sid pids leader sent in
        (member pid sent'.killed ≡ true) ⊎ ((sid ≡ pid) × (leader' ≡ true))
  unfolding signal_others signal member
  signal_others-all sig sid [] leader sent pid there = absurd (ground arith)
  signal_others-all sig sid (p ∷ pids) leader sent pid there = elim (Bool-cases (same_int p sid)) [
    | inl is_leader ↦ elim (Bool-cases (same_int p pid)) [
      | inl here ↦ rw is_leader (
          inr (
            sym ((same_int_iff p sid).0 is_leader) ∙ (same_int_iff p pid).0 here,
            leader-kept sig sid pids sent,
          ))
      | inr other ↦ rw is_leader (signal_others-all sig sid pids true sent pid (rw other at there))
    ]
    | inr child ↦ elim (Bool-cases (same_int p pid)) [
      | inl here ↦
          rw child
            (inl (signal_others-kept sig sid pids leader (signal S sig p sent) pid (rw here refl)))
      | inr other ↦
          rw child
            (signal_others-all sig sid pids leader (signal S sig p sent) pid (rw other at there))
    ]
  ]

  sweep-kept :
      (sid : ℤ) (sig : ℕ) (sent : Sent K) (pid : ℤ)
      → member pid sent.killed ≡ true
      → member pid (sweep S sid sig sent).killed ≡ true
  unfolding sweep
  sweep-kept sid sig sent pid there =
      elim (session_process_ids S sid sent.system).1
        as (λ remaining.
          member pid
            (elim remaining as (λ r. Sent K) [
              | none ↦ record sent { system = (session_process_ids S sid sent.system).0 }
              | some pids ↦
                  signal_all S sig pids
                    (record sent { system = (session_process_ids S sid sent.system).0 })
            ]).killed
          ≡ true) [ none ↦ there | some pids ↦ signal_all-kept sig pids _ pid there ]

  -- A signal to a session reaches every process that the first look at /proc found in it, the leader
  -- included, whatever processes come, go or refuse the signal meanwhile.
  pub signal_process_session-reaches :
      (sid : ℤ) (sig : ℕ) (k : K) (pids : List ℤ) (pid : ℤ)
      → (session_process_ids S sid k).1 ≡ some pids
      → member pid pids ≡ true
      → member pid (signal_process_session S sid sig k).killed ≡ true
  unfolding signal_process_session signal_found signal member
  signal_process_session-reaches sid sig k pids pid found there =
      let fresh : Sent K = record {
        system = (session_process_ids S sid k).0;
        killed = [];
        first_err = none;
      } in
      let passed = signal_others S sig sid pids false fresh in
      let reached : member pid (if passed.0 then signal S sig sid passed.1 else passed.1).killed
          ≡ true =
        elim (signal_others-all sig sid pids false fresh pid there) [
          | inl done ↦ elim (Bool-cases passed.0) [
            | inl leader ↦ rw leader (ground (arith, done))
            | inr none_there ↦ rw none_there done
          ]
          | inr (is_leader, leader) ↦ rw (leader, (same_int_iff sid pid).1 is_leader) refl
        ] in
      subst (λ o. member pid (signal_found S sid sig o fresh).killed ≡ true) (sym found)
        (sweep-kept sid sig _ pid reached)
