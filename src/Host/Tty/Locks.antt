-- ===== src/Host/Tty/Locks.antt =====
-- The two mutexes of internal/host/tty.go and vterm/wasm.go: the host's and its terminal's. The reader
-- of the PTY holds the terminal's in `VTerm.Write`, whose callbacks take the host's.
use swash.Prelude.{
  ℕ, zero, suc, ◌≡◌, refl, ◌≢◌, ◌⊎◌, inl, inr, Bool, true, false, not, ◌&&◌, ◌||◌, Option, none,
  some, List, [], ◌∷◌, ◌++◌, arith, if◌then◌else◌,
}

pub data Lock : Type 0 where
  host_mu vterm_mu : Lock

pub data Action : Type 0 where
  lock unlock : Lock → Action

pub record Thread : Type 0 where
  pub holds_host : Bool
  pub holds_vterm : Bool
  pub program : List Action

pub record Threads : Type 0 where
  pub reader : Thread
  pub caller : Thread

-- What is left of `Write` when the terminal calls back n more times.
unfoldable pub callbacks : ℕ → List Action
callbacks zero = unlock vterm_mu ∷ []
callbacks (suc n) = lock host_mu ∷ unlock host_mu ∷ callbacks n

-- `VTerm.Write`, with n calls of `OnPushLine` or `OnTermProp`.
unfoldable pub write_locks : ℕ → List Action
unfolding callbacks
write_locks n = lock vterm_mu ∷ callbacks n

-- `VTerm.SetSize`, with n lines that the terminal pushes out while it takes the size.
unfoldable pub set_size_locks : ℕ → List Action
unfolding callbacks
set_size_locks n = lock vterm_mu ∷ callbacks n

-- A method of `VTerm` that calls back nothing.
unfoldable pub vterm_call : List Action
vterm_call = lock vterm_mu ∷ unlock vterm_mu ∷ []

-- `Attach` of a first client, with the lines that its `SetSize` pushes out, or of a later one.
unfoldable pub attach_locks : Option ℕ → List Action
unfolding vterm_call set_size_locks
attach_locks first =
    lock host_mu ∷ (elim first [ none ↦ [] | some n ↦ set_size_locks n ])
    ++ vterm_call
    ++ vterm_call
    ++ unlock host_mu ∷ []

-- `Resize`, with the lines that its `SetSize` pushes out.
unfoldable pub resize_locks : ℕ → List Action
unfolding set_size_locks
resize_locks n = lock host_mu ∷ unlock host_mu ∷ set_size_locks n

-- The next action of a thread beside another one; `none` if it waits or is at its end.
unfoldable pub act : Thread → Thread → Option Thread
act me other = elim me.program [
  | [] ↦ none
  | (lock host_mu) ∷ p ↦
      if me.holds_host || other.holds_host
      then none
      else some (record { holds_host = true; holds_vterm = me.holds_vterm; program = p })
  | (lock vterm_mu) ∷ p ↦
      if me.holds_vterm || other.holds_vterm
      then none
      else some (record { holds_host = me.holds_host; holds_vterm = true; program = p })
  | (unlock host_mu) ∷ p ↦
      some (record { holds_host = false; holds_vterm = me.holds_vterm; program = p })
  | (unlock vterm_mu) ∷ p ↦
      some (record { holds_host = me.holds_host; holds_vterm = false; program = p })
]

unfoldable pub thread : List Action → Thread
thread p = record { holds_host = false; holds_vterm = false; program = p }

unfoldable pub threads_of : List Action → List Action → Threads
unfolding thread
threads_of reader caller = record { reader = thread reader; caller = thread caller }

pub data Move : Threads → Threads → Type 0 where
  reader_acts :
      {s : Threads} {t : Thread} → act s.reader s.caller ≡ some t → Move s (record s { reader = t })
  caller_acts :
      {s : Threads} {t : Thread} → act s.caller s.reader ≡ some t → Move s (record s { caller = t })

pub data Reach (s : Threads) : Threads → Type 0 where
  here : Reach s s
  next : {t u : Threads} → Reach s t → Move t u → Reach s u

-- Neither thread can act.
abbrev pub Stuck : Threads → Type 0
Stuck s = (act s.reader s.caller ≡ none) × (act s.caller s.reader ≡ none)

abbrev pub Finished : Threads → Type 0
Finished s = (s.reader.program ≡ []) × (s.caller.program ≡ [])

-- If the terminal calls back at all while a client attaches, both can end up waiting for each other:
-- the reader for the host's mutex and the client for the terminal's, neither at its end.
pub attach_deadlock :
    (lines : ℕ) (first : Option ℕ)
    → (s : Threads) × Reach (threads_of (write_locks (suc lines)) (attach_locks first)) s
      × Stuck s
      × (s.reader.program ≢ [])
      × (s.caller.program ≢ [])
unfolding threads_of thread write_locks callbacks attach_locks vterm_call set_size_locks act
attach_deadlock lines (some n) = (
  _,
  next (next here (reader_acts refl)) (caller_acts refl),
  (refl, refl),
  ground arith,
  ground arith,
)
attach_deadlock lines none = (
  _,
  next (next here (reader_acts refl)) (caller_acts refl),
  (refl, refl),
  ground arith,
  ground arith,
)

-- Where a first client is: before the host's mutex, with it, or with both and before the host's again.
Caller : ℕ → Thread → Type 0
Caller n t =
    (t ≡ thread (attach_locks (some (suc n))))
    ⊎ ((t.holds_host ≡ true)
        × (t.holds_vterm ≡ false)
        × ((p : List Action) × (t.program ≡ lock vterm_mu ∷ lock host_mu ∷ p)))
    ⊎ ((t.holds_host ≡ true) × ((p : List Action) × (t.program ≡ lock host_mu ∷ p)))

act-Caller : (n : ℕ) (me other t : Thread) → act me other ≡ some t → Caller n me → Caller n t
unfolding Caller act thread attach_locks set_size_locks callbacks
act-Caller n me other t e (inl start) = ground (arith, start, e)
act-Caller n me other t e (inr (inl (host, vterm, (p, at)))) = ground (arith, at, e)
act-Caller n me other t e (inr (inr (host, (p, at)))) = ground (arith, at, e)

Reach-Caller : (n : ℕ) {s t : Threads} → Reach s t → Caller n s.caller → Caller n t.caller
Reach-Caller n here at = at
Reach-Caller n (next r (reader_acts e)) at = Reach-Caller n r at
Reach-Caller n (next r (caller_acts e)) at = act-Caller n _ _ _ e (Reach-Caller n r at)

Caller-ne-nil : (n : ℕ) (t : Thread) → Caller n t → t.program ≢ []
unfolding Caller thread attach_locks
Caller-ne-nil n t at = ground (arith, at)

-- A first client whose `SetSize` pushes a line out never returns from `Attach`, whatever the reader does:
-- its thread holds the host's mutex that the callback waits for.
pub attach_never_returns :
    (reader : List Action) (n : ℕ) (s : Threads)
    → Reach (threads_of reader (attach_locks (some (suc n)))) s
    → s.caller.program ≢ []
unfolding threads_of Caller
attach_never_returns reader n s r = Caller-ne-nil n s.caller (Reach-Caller n r (inl refl))

-- A thread's mutexes are those that its program unlocks in the end.
balanced : Bool → Bool → List Action → Bool
balanced a b [] = not a && not b
balanced a b (lock host_mu ∷ p) = not a && balanced true b p
balanced a b (lock vterm_mu ∷ p) = not b && balanced a true p
balanced a b (unlock host_mu ∷ p) = a && balanced false b p
balanced a b (unlock vterm_mu ∷ p) = b && balanced a false p

-- The terminal's mutex is not taken while the host's is held.
in_order : Bool → Bool → List Action → Bool
in_order a b [] = true
in_order a b (lock host_mu ∷ p) = in_order true b p
in_order a b (lock vterm_mu ∷ p) = not a && in_order a true p
in_order a b (unlock host_mu ∷ p) = in_order false b p
in_order a b (unlock vterm_mu ∷ p) = in_order a false p

abbrev Balanced : Thread → Type 0
Balanced t = balanced t.holds_host t.holds_vterm t.program ≡ true

abbrev InOrder : Thread → Type 0
InOrder t = in_order t.holds_host t.holds_vterm t.program ≡ true

act-Balanced : (me other t : Thread) → act me other ≡ some t → Balanced me → Balanced t
unfolding act balanced
act-Balanced me other t e ok = ground arith

act-InOrder : (me other t : Thread) → act me other ≡ some t → InOrder me → InOrder t
unfolding act in_order
act-InOrder me other t e ok = ground arith

Inv : Threads → Type 0
Inv s = Balanced s.reader × Balanced s.caller × InOrder s.reader × InOrder s.caller

Reach-Inv : {s t : Threads} → Reach s t → Inv s → Inv t
unfolding Inv
Reach-Inv here i = i
Reach-Inv (next r (reader_acts e)) i =
    let (reader, caller, reads, calls) = Reach-Inv r i in
    (act-Balanced _ _ _ e reader, caller, act-InOrder _ _ _ e reads, calls)
Reach-Inv (next r (caller_acts e)) i =
    let (reader, caller, reads, calls) = Reach-Inv r i in
    (reader, act-Balanced _ _ _ e caller, reads, act-InOrder _ _ _ e calls)

Inv-moves : (s : Threads) → Inv s → Stuck s → Finished s
unfolding Inv act balanced in_order
Inv-moves s (reader, caller, reads, calls) (reader_waits, caller_waits) = ground arith

callbacks-balanced : (n : ℕ) → balanced false true (callbacks n) ≡ true
unfolding balanced callbacks
callbacks-balanced zero = refl
callbacks-balanced (suc n) = callbacks-balanced n

callbacks-in_order : (n : ℕ) → in_order false true (callbacks n) ≡ true
unfolding in_order callbacks
callbacks-in_order zero = refl
callbacks-in_order (suc n) = callbacks-in_order n

-- A `Resize` beside the reader never gets stuck, however often the terminal calls back in either: when
-- neither thread can act, both are at their end.
pub resize_finishes :
    (lines pushed : ℕ) (s : Threads)
    → Reach (threads_of (write_locks lines) (resize_locks pushed)) s
    → Stuck s
    → Finished s
unfolding Inv threads_of thread write_locks resize_locks set_size_locks balanced in_order
resize_finishes lines pushed s r stuck =
    Inv-moves s
      (Reach-Inv r (
        callbacks-balanced lines,
        callbacks-balanced pushed,
        callbacks-in_order lines,
        callbacks-in_order pushed,
      ))
      stuck
