-- ===== src/Attach/Session/Input.antt =====
-- internal/attach/attach.go: the keys that reach the host.
use swash.Prelude.{ℕ, ◌≡◌, refl, Bool, true, List, [], ◌∷◌, ◌++◌, arith, ==_iff, Bytes, Lacks}
use swash.Attach.Session.{read_input, detach_requested}

-- Keys that the stream takes.
unfoldable pub taken_keys : Bytes → List (ℕ × Bool)
taken_keys [] = []
taken_keys (key ∷ keys) = (key, true) ∷ taken_keys keys

-- The keys before the first Ctrl+\, code 28, go to the stream unchanged and in order, and that key ends
-- the reading with a request to detach; nothing behind it is read.
pub read_input-append :
    (keys : Bytes) (taken : Bool) (later : List (ℕ × Bool))
    → Lacks 0x1c keys
    → read_input (taken_keys keys ++ ((0x1c, taken) ∷ later)) ≡ (keys, detach_requested)
unfolding read_input taken_keys
read_input-append [] taken later lacks = refl
read_input-append (key ∷ keys) taken later lacks =
    ground (arith, ==_iff key 0x1c, lacks, read_input-append keys taken later)
