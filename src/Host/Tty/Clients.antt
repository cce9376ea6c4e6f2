-- ===== src/Host/Tty/Clients.antt =====
-- The attached clients of internal/host/tty.go: who they are, what they receive.
use swash.Prelude.{
  ℕ, ◌+◌, ◌≤◌, ◌<◌, ◌≡◌, refl, sym, ap, ◌∙◌, ◌⊎◌, inl, inr, Bool, false, Option, none, some, List,
  [], ◌∷◌, ◌++◌, append_assoc, append-nil, arith, Bool-cases, drop, All, Bytes, same, same_iff,
  same_refl, Map, find, find-put, find-remove, format_uint-injective,
}
use swash.Prelude.Int.{ℤ}
use swash.Host.Tty.{
  Terminal, Client, TtyHost, Attached, Answer, attached, refused, or_default, client_key, push_line,
  term_prop, resize, add_client, attach_sized, attach, detach, input_closed, send_all, broadcast,
  feed, close_pty_master, size_pty, store_pty, Event, attaches, detaches, closes_input, broadcasts,
  step, run, resize_host, size_vterm, resize_pty,
}

-- The client ids of two counters differ.
client_key-injective : (m n : ℕ) → client_key m ≡ client_key n → m ≡ n
unfolding client_key
client_key-injective m n e = format_uint-injective m n (ap (drop 1) e)

same-client_key : (m n : ℕ) → m < n → same (client_key n) (client_key m) ≡ false
same-client_key m n h = elim (Bool-cases (same (client_key n) (client_key m))) [
  | inl equal ↦
      let e = client_key-injective n m ((same_iff (client_key n) (client_key m)).0 equal) in
      absurd (omega arith)
  | inr differs ↦ differs
]

-- Whether the client detaches or closes its input.
abbrev pub leaves : Bytes → Event → Bool
leaves id (detaches other) = same other id
leaves id (closes_input other) = same other id
leaves id e = false

abbrev pub Stays : Bytes → List Event → Type 0
Stays id es = All (λ e. leaves id e ≡ false) es

abbrev pub chunk_of : Event → List Bytes
chunk_of (broadcasts chunk) = chunk ∷ []
chunk_of e = []

abbrev pub chunks : List Event → List Bytes
chunks [] = []
chunks (e ∷ es) = chunk_of e ++ chunks es

abbrev pub received_of : Option Client → Option (List Bytes)
received_of none = none
received_of (some c) = some c.received

module _ {V : Type 0} (T : Terminal V) where
  -- What the client with this id has received, if it is attached.
  abbrev pub received : Bytes → TtyHost V → Option (List Bytes)
  received id h = received_of (find id h.attached_clients)

  pub find-send_all :
      (chunk id : Bytes) (cs : Map Client)
      → find id (send_all T chunk cs) ≡ elim (find id cs) [
        | none ↦ none
        | some c ↦ some (record c { received = c.received ++ chunk ∷ [] })
      ]
  unfolding find send_all
  find-send_all chunk id [] = refl
  find-send_all chunk id ((k, c) ∷ cs) = ground (arith, find-send_all chunk id cs)

  find-add_client :
      (r c : ℤ) (h : TtyHost V) (k : ℕ)
      → k ≤ h.next_client_id
      → find (client_key k) (add_client T r c h).0.attached_clients
        ≡ find (client_key k) h.attached_clients
  unfolding add_client
  find-add_client r c h k old =
      rw (find-put, same-client_key k (h.next_client_id + 1) (omega arith))

  resize-attached_clients :
      (r c : ℤ) (h : TtyHost V) → (resize T r c h).attached_clients ≡ h.attached_clients
  unfolding resize
  resize-attached_clients r c h = refl

  resize-next_client_id :
      (r c : ℤ) (h : TtyHost V) → (resize T r c h).next_client_id ≡ h.next_client_id
  unfolding resize
  resize-next_client_id r c h = refl

  find-attach_sized :
      (r c : ℤ) (pipes : Bool) (h : TtyHost V) (k : ℕ)
      → k ≤ h.next_client_id
      → find (client_key k) (attach_sized T r c pipes h).0.attached_clients
        ≡ find (client_key k) h.attached_clients
  unfolding attach_sized
  find-attach_sized r c pipes h k old =
      let resized = find-add_client r c (resize T r c h) k (rw (resize-next_client_id r c h) old) in
      ground (arith, find-add_client r c h k old, resized, resize-attached_clients r c h)

  attach-next_client_id :
      (r c : ℤ) (pipes : Bool) (h : TtyHost V)
      → h.next_client_id ≤ (attach T r c pipes h).0.next_client_id
  unfolding attach attach_sized add_client resize
  attach-next_client_id r c pipes h = ground arith

  step-next_client_id : (h : TtyHost V) (e : Event) → h.next_client_id ≤ (step T h e).next_client_id
  unfolding step detach input_closed broadcast feed push_line term_prop resize resize_host
      size_vterm resize_pty size_pty store_pty close_pty_master
  step-next_client_id h (attaches r c pipes) = attach-next_client_id r c pipes h
  step-next_client_id h e = ground arith

  -- What one event sends to the client.
  step-received :
      (h : TtyHost V) (k : ℕ) (e : Event) (got : List Bytes)
      → k ≤ h.next_client_id
      → leaves (client_key k) e ≡ false
      → received (client_key k) h ≡ some got
      → received (client_key k) (step T h e) ≡ some (got ++ chunk_of e)
  unfolding step detach input_closed broadcast feed push_line term_prop resize resize_host
      size_vterm resize_pty size_pty store_pty close_pty_master attach
  step-received h k (attaches r c pipes) got old stays before =
      let kept = find-attach_sized (or_default r 24) (or_default c 80) pipes h k old in
      rw append-nil (ap received_of kept ∙ before)
  step-received h k (detaches other) got old stays before =
      ground (arith, find-remove h.attached_clients other (client_key k), append-nil got)
  step-received h k (closes_input other) got old stays before =
      ground (arith, find-remove h.attached_clients other (client_key k), append-nil got)
  step-received h k (broadcasts chunk) got old stays before =
      ground (arith, find-send_all chunk (client_key k) h.attached_clients)
  step-received h k e got old stays before = ground (arith, append-nil got)

  run-received :
      (es : List Event) (h : TtyHost V) (k : ℕ) (got : List Bytes)
      → k ≤ h.next_client_id
      → Stays (client_key k) es
      → received (client_key k) h ≡ some got
      → received (client_key k) (run T h es) ≡ some (got ++ chunks es)
  unfolding run
  run-received [] h k got old stays before = rw append-nil before
  run-received (e ∷ es) h k got old (stay, stays) before =
      let later : k ≤ (step T h e).next_client_id = omega (arith, step-next_client_id h e) in
      rw (← append_assoc) (
        run-received es (step T h e) k (got ++ chunk_of e) later stays
          (step-received h k e got old stay before))

  add_client-attached :
      (r c : ℤ) (h : TtyHost V) (a : Attached)
      → (add_client T r c h).1 ≡ attached a
      → (a.client_id ≡ client_key (h.next_client_id + 1))
        × (received a.client_id (add_client T r c h).0 ≡ some [])
        × ((add_client T r c h).0.next_client_id ≡ h.next_client_id + 1)
  unfolding add_client
  add_client-attached r c h a e =
      let id : a.client_id ≡ client_key (h.next_client_id + 1) = sym (ap id_of e) in
      (id, rw (id, find-put, same_refl) refl, refl)
    where
      id_of : Answer → Bytes
      id_of (attached a) = a.client_id
      id_of (refused e) = []

  attach_sized-attached :
      (r c : ℤ) (pipes : Bool) (h : TtyHost V) (a : Attached)
      → (attach_sized T r c pipes h).1 ≡ attached a
      → (attach_sized T r c pipes h ≡ add_client T r c h)
        ⊎ (attach_sized T r c pipes h ≡ add_client T r c (resize T r c h))
  unfolding attach_sized
  attach_sized-attached r c pipes h a e = ground arith

  -- A new client has its own id and has received nothing.
  attach-attached :
      (r c : ℤ) (pipes : Bool) (h : TtyHost V) (a : Attached)
      → (attach T r c pipes h).1 ≡ attached a
      → (a.client_id ≡ client_key (h.next_client_id + 1))
        × (received a.client_id (attach T r c pipes h).0 ≡ some [])
        × ((attach T r c pipes h).0.next_client_id ≡ h.next_client_id + 1)
  unfolding attach resize
  attach-attached r c pipes h a e =
      let rows = or_default r 24 in
      let cols = or_default c 80 in
      elim (attach_sized-attached rows cols pipes h a e) [
        | inl same_size ↦
            let added = sym (ap (λ p. p.1) same_size) ∙ e in
            rw same_size (add_client-attached rows cols h a added)
        | inr first ↦
            let added = sym (ap (λ p. p.1) first) ∙ e in
            rw first (add_client-attached rows cols (resize T rows cols h) a added)
      ]

  -- A client that `attach` has added receives exactly the chunks that are broadcast while it stays,
  -- in their order, whatever the other clients do.
  pub received-attach :
      (r c : ℤ) (pipes : Bool) (h : TtyHost V) (a : Attached) (es : List Event)
      → (attach T r c pipes h).1 ≡ attached a
      → Stays a.client_id es
      → received a.client_id (run T (attach T r c pipes h).0 es) ≡ some (chunks es)
  received-attach r c pipes h a es e stays =
      let (id, got, next) = attach-attached r c pipes h a e in
      rw id (
        run-received es (attach T r c pipes h).0 (h.next_client_id + 1) [] (omega arith)
          (rw (← id) stays) (rw (← id) got))
