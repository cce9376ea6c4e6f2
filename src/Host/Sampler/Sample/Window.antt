-- ===== src/Host/Sampler/Sample/Window.antt =====
-- internal/host/sampler_linux.go: the history that the rates are measured over.
use swash.Prelude.{
  ℕ, ◌-◌, ◌≤◌, ◌≡◌, refl, inl, inr, List, [], ◌∷◌, ◌++◌, arith, ltb, ◌==◌, if◌then◌else◌,
  Bool-cases, length, All,
}
use swash.Host.Sampler.Sample.{
  Top, Snapshot, Sampler, Kernel, pass, put_net, trim, with_rates, set_last, remember, snapshot,
  sample,
}

-- The times of a history go up, and none is later than that.
unfoldable pub Before : ℕ → List Snapshot → Type 0
Before now [] = Unit
Before now (a ∷ []) = a.time ≤ now
Before now (a ∷ b ∷ rest) = (a.time ≤ b.time) × Before now (b ∷ rest)

-- The times of a history go up, and the last is that.
unfoldable pub Timed : ℕ → List Snapshot → Type 0
Timed now [] = ⊥
Timed now (a ∷ []) = a.time ≡ now
Timed now (a ∷ b ∷ rest) = (a.time ≤ b.time) × Timed now (b ∷ rest)

-- What follows the first.
unfoldable pub behind : List Snapshot → List Snapshot
behind [] = []
behind (a ∷ rest) = rest

abbrev Since : ℕ → Snapshot → Type 0
Since cutoff st = cutoff ≤ st.time

Timed-append :
    (now : ℕ) (history : List Snapshot) (st : Snapshot)
    → Before now history
    → st.time ≡ now
    → Timed now (history ++ st ∷ [])
unfolding Before Timed
Timed-append now [] st before at = at
Timed-append now (a ∷ []) st before at = (omega arith, at)
Timed-append now (a ∷ b ∷ rest) st before at =
    (before.0, Timed-append now (b ∷ rest) st before.1 at)

Timed-All :
    (now cutoff : ℕ) (a : Snapshot) (rest : List Snapshot)
    → Timed now (a ∷ rest)
    → cutoff ≤ a.time
    → All (Since cutoff) (a ∷ rest)
unfolding Timed
Timed-All now cutoff a [] timed late = (late, tt)
Timed-All now cutoff a (b ∷ rest) timed late =
    (late, Timed-All now cutoff b rest timed.1 (omega (arith, timed.0)))

trim_lem :
    (now cutoff : ℕ) (history : List Snapshot)
    → Timed now history
    → cutoff ≤ now
    → Timed now (trim cutoff history) × All (Since cutoff) (behind (trim cutoff history))
unfolding Timed trim behind
trim_lem now cutoff [] timed late = absurd timed
trim_lem now cutoff (a ∷ []) timed late = (timed, tt)
trim_lem now cutoff (a ∷ b ∷ []) timed late = (timed, (omega (arith, timed.1), tt))
trim_lem now cutoff (a ∷ b ∷ c ∷ rest) timed late = elim (Bool-cases (ltb b.time cutoff)) [
  | inl old ↦ rw old (trim_lem now cutoff (b ∷ c ∷ rest) timed.1 late)
  | inr recent ↦
      rw recent (timed, Timed-All now cutoff b (c ∷ rest) timed.1 (ground (arith, recent)))
]

set_last_lem :
    (now cutoff : ℕ) (history : List Snapshot) (st : Snapshot)
    → Timed now history
    → st.time ≡ now
    → Timed now (set_last history st)
unfolding Timed set_last
set_last_lem now cutoff [] st timed at = timed
set_last_lem now cutoff (a ∷ []) st timed at = at
set_last_lem now cutoff (a ∷ b ∷ []) st timed at = (omega (arith, timed.0, timed.1), at)
set_last_lem now cutoff (a ∷ b ∷ c ∷ rest) st timed at =
    (timed.0, set_last_lem now cutoff (b ∷ c ∷ rest) st timed.1 at)

set_last-All :
    (cutoff : ℕ) (history : List Snapshot) (st : Snapshot)
    → All (Since cutoff) history
    → cutoff ≤ st.time
    → All (Since cutoff) (set_last history st)
unfolding set_last
set_last-All cutoff [] st all late = tt
set_last-All cutoff (a ∷ []) st all late = (late, tt)
set_last-All cutoff (a ∷ b ∷ rest) st all late =
    (all.0, set_last-All cutoff (b ∷ rest) st all.1 late)

behind-set_last :
    (cutoff : ℕ) (history : List Snapshot) (st : Snapshot)
    → All (Since cutoff) (behind history)
    → cutoff ≤ st.time
    → All (Since cutoff) (behind (set_last history st))
unfolding set_last behind
behind-set_last cutoff [] st all late = tt
behind-set_last cutoff (a ∷ []) st all late = tt
behind-set_last cutoff (a ∷ b ∷ rest) st all late = set_last-All cutoff (b ∷ rest) st all late

time-with_rates : (history : List Snapshot) (st : Snapshot) → (with_rates history st).time ≡ st.time
unfolding with_rates
time-with_rates [] st = refl
time-with_rates (a ∷ []) st = refl
time-with_rates (a ∷ b ∷ rest) st = refl

module _ (sort_by_cpu : List Top → List Top) where
  -- If the measurements before a measurement are in the order of time, the history is so behind it, it
  -- ends with the new measurement, and all of it but its first, which the rates start from, is at most
  -- five seconds old.
  pub sample-window :
      (k : Kernel) (s : Sampler)
      → Before k.now s.history
      → let (s', st) = sample sort_by_cpu k s in
        Timed k.now s'.history × All (λ old. k.now - 5000000000 ≤ old.time) (behind s'.history)
  unfolding sample remember snapshot
  sample-window k s before =
      let cutoff = k.now - 5000000000 in
      let p = pass s k in
      let net = if length p.inodes == 0 then s.net else put_net (k.tcp_counters p.inodes) s.net in
      let st = snapshot sort_by_cpu s k p net in
      let kept = trim cutoff (s.history ++ st ∷ []) in
      let trimmed =
        trim_lem k.now cutoff _ (Timed-append k.now s.history st before refl) (omega arith) in
      let at = time-with_rates kept st in
      (
        set_last_lem k.now cutoff kept (with_rates kept st) trimmed.0 at,
        behind-set_last cutoff kept (with_rates kept st) trimmed.1 (omega (arith, at)),
      )
