-- ===== src/Tests/ProcessTree.antt =====
-- internal/host/process_tree.go at a concrete system.
use swash.Prelude.{ℕ, suc, ◌≡◌, refl, true, none, some, [], ◌∷◌, if◌then◌else◌, codes, parse_uint}
use swash.Prelude.Int.{pos}
use swash.Host.Sampler.Stat.{bounded, atoi_strict, same_int}
use swash.Host.ProcessTree.{
  esrch, System, members, session_process_ids, signal, signal_all, signal_others, sweep,
  signal_found, signal_process_session,
}
use swash.Host.ProcessTree.Reach.{member, signal_process_session-reaches}

-- Processes 17 and 18 are of session 17, and 18 is gone when it is signalled. The state counts the signals.
abbrev system : System ℕ
system = record {
  read_proc = λ n. (n, some (codes "17" ∷ codes "1" ∷ codes "self" ∷ codes "18" ∷ []));
  getsid = λ pid n. (n, if same_int pid (pos 1) then some (pos 1) else some (pos 17));
  kill = λ pid sig n. (suc n, if same_int pid (pos 18) then some esrch else none);
}

found : (session_process_ids system (pos 17) 0).1 ≡ some (pos 17 ∷ pos 18 ∷ [])
unfolding session_process_ids members atoi_strict same_int bounded parse_uint
found = refl

-- The leader behind its child, and both again in the sweep.
order :
    (signal_process_session system (pos 17) 15 0).killed ≡ pos 18 ∷ pos 17 ∷ pos 17 ∷ pos 18 ∷ []
unfolding signal_process_session signal_found signal_others signal sweep signal_all
    session_process_ids members atoi_strict same_int bounded parse_uint
order = refl

signal_process_session-reaches_example :
    member (pos 17) (signal_process_session system (pos 17) 15 0).killed ≡ true
unfolding member same_int
signal_process_session-reaches_example =
    signal_process_session-reaches system (pos 17) 15 0 (pos 17 ∷ pos 18 ∷ []) (pos 17) found refl
