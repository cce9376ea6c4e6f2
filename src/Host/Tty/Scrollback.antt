-- ===== src/Host/Tty/Scrollback.antt =====
-- The scrollback of internal/host/tty.go holds the latest lines.
use native.Mathlib.Nat.{zero-add, suc-add}
use swash.Prelude.{
  ℕ, zero, suc, ◌+◌, ◌-◌, ◌≤◌, min, ◌≡◌, refl, sym, ap, inl, inr, Bool, List, [], ◌∷◌, ◌++◌,
  append_assoc, append-nil, arith, ltb, if◌then◌else◌, ltb→lt, Bool-cases, length, drop,
  length-append, length-drop, Bytes, Fields,
}
use swash.Prelude.Int.{pos}
use swash.Host.Tty.{
  ℤ, Terminal, TtyHost, rest_of, new_tty_host, push_line, term_prop, get_scrollback, resize, attach,
  detach, input_closed, broadcast, feed, close_pty_master, size_pty, store_pty, Event, attaches,
  pushes, step, run, resize_host, size_vterm, resize_pty,
}

-- The last n elements.
abbrev pub last_n {ℓ} : {A : Type ℓ} → ℕ → List A → List A
last_n n xs = drop (length xs - n) xs

module _ {ℓ} {A : Type ℓ} where
  drop-drop : (m n : ℕ) (xs : List A) → drop m (drop n xs) ≡ drop (n + m) xs
  drop-drop m zero xs = rw (zero-add m)
  drop-drop zero (suc n) [] = rw (suc-add n zero)
  drop-drop (suc m) (suc n) [] = rw (suc-add n (suc m))
  drop-drop m (suc n) (x ∷ xs) = rw (suc-add n m) (drop-drop m n xs)

  drop-append_of_le : (n : ℕ) (xs ys : List A) → n ≤ length xs → drop n (xs ++ ys) ≡ drop n xs ++ ys
  drop-append_of_le zero xs ys h = refl
  drop-append_of_le (suc n) [] ys h = absurd (omega arith)
  drop-append_of_le (suc n) (x ∷ xs) ys h = drop-append_of_le n xs ys (omega arith)

  last_n-append : (n : ℕ) (xs ys : List A) → last_n n (last_n n xs ++ ys) ≡ last_n n (xs ++ ys)
  last_n-append n xs ys =
      let k = length xs - n in
      let size = length-append (drop k xs) ys in
      rw
        (
          size,
          length-append xs ys,
          length-drop k xs,
          ← drop-append_of_le k xs ys (omega arith),
          drop-drop,
        )
        (ap (λ i. drop i (xs ++ ys)) (omega arith))

  last_n-all : (n : ℕ) (xs : List A) → length xs ≤ n → last_n n xs ≡ xs
  last_n-all n xs h = let e : length xs - n ≡ 0 = omega arith in rw e

module _ {V : Type 0} (T : Terminal V) where
  -- The line that goes into the scrollback, which the alternate screen has none of.
  abbrev pub line_of : TtyHost V → Event → List Bytes
  line_of h (pushes written line) = if h.alternate_screen then [] else line ∷ []
  line_of h _ = []

  abbrev pub lines_of : TtyHost V → List Event → List Bytes
  lines_of h [] = []
  lines_of h (e ∷ es) = line_of h e ++ lines_of (step T h e) es

  kept :
      (h : TtyHost V)
      → length h.scrollback ≤ h.max_scrollback
      → h.scrollback ≡ last_n h.max_scrollback (h.scrollback ++ [])
  kept h small = rw append-nil (sym (last_n-all h.max_scrollback h.scrollback small))

  -- A push drops the oldest line if there is one too many.
  rest_of-last_n :
      (n : ℕ) (xs : List Bytes)
      → length xs ≤ n + 1
      → (if ltb n (length xs) then rest_of xs else xs) ≡ last_n n xs
  unfolding rest_of
  rest_of-last_n n xs h = elim (Bool-cases (ltb n (length xs))) [
    | inl over ↦
        let e : length xs - n ≡ suc zero = omega (arith, ltb→lt n (length xs) over) in
        rw (over, e) (rest_of-drop xs)
    | inr room ↦ rw room (sym (last_n-all n xs (ground arith)))
  ]
    where
      rest_of-drop : (ys : List Bytes) → rest_of ys ≡ drop (suc zero) ys
      rest_of-drop [] = refl
      rest_of-drop (y ∷ ys) = refl

  push_line-scrollback :
      (h : TtyHost V) (written : Bool) (line : Bytes)
      → length h.scrollback ≤ h.max_scrollback
      → (push_line T written line h).scrollback
        ≡ last_n h.max_scrollback (h.scrollback ++ line_of h (pushes written line))
  unfolding push_line
  push_line-scrollback h written line small = elim (Bool-cases h.alternate_screen) [
    | inl alt ↦ rw alt (kept h small)
    | inr normal ↦ rw normal (
        rest_of-last_n h.max_scrollback (h.scrollback ++ line ∷ [])
          (omega (arith, length-append h.scrollback (line ∷ []))))
  ]

  step-max_scrollback : (h : TtyHost V) (e : Event) → (step T h e).max_scrollback ≡ h.max_scrollback
  unfolding step attach detach input_closed broadcast feed push_line term_prop resize resize_host
      size_vterm resize_pty size_pty store_pty close_pty_master
  step-max_scrollback h (attaches r c pipes) = ground arith
  step-max_scrollback h e = ground arith

  step-scrollback :
      (h : TtyHost V) (e : Event)
      → length h.scrollback ≤ h.max_scrollback
      → (step T h e).scrollback ≡ last_n h.max_scrollback (h.scrollback ++ line_of h e)
  unfolding step attach detach input_closed broadcast feed term_prop resize resize_host size_vterm
      resize_pty size_pty store_pty close_pty_master
  step-scrollback h (pushes written line) small = push_line-scrollback h written line small
  step-scrollback h e small = ground (arith, kept h small)

  length-last_n : (n : ℕ) (xs : List Bytes) → length (last_n n xs) ≤ n
  length-last_n n xs = omega (arith, length-drop (length xs - n) xs)

  run-scrollback :
      (es : List Event) (h : TtyHost V)
      → length h.scrollback ≤ h.max_scrollback
      → (run T h es).scrollback ≡ last_n h.max_scrollback (h.scrollback ++ lines_of h es)
  unfolding run
  run-scrollback [] h small = kept h small
  run-scrollback (e ∷ es) h small =
      let s = step-scrollback h e small in
      let m = step-max_scrollback h e in
      let fits = length-last_n h.max_scrollback (h.scrollback ++ line_of h e) in
      rw (
        run-scrollback es (step T h e) (rw (s, m) fits),
        s,
        m,
        last_n-append h.max_scrollback (h.scrollback ++ line_of h e) (lines_of (step T h e) es),
        append_assoc,
      )

  -- `GetScrollback n` on a host that `NewTTYHost` made returns, after any events, the last n of the
  -- lines that the terminal pushed outside of the alternate screen, and of at most the last 10000.
  pub get_scrollback-run :
      (rows cols : ℤ) (tags : Fields) (session_id : Bytes) (vt : V) (es : List Event) (n : ℕ)
      → let h = new_tty_host T rows cols tags session_id vt in
        get_scrollback T (pos n) (run T h es) ≡ last_n (min n 10000) (lines_of h es)
  unfolding get_scrollback new_tty_host
  get_scrollback-run rows cols tags session_id vt es n =
      let h = new_tty_host T rows cols tags session_id vt in
      let s = run-scrollback es h (omega arith) in
      let k = length (lines_of h es) - 10000 in
      let size = length-drop k (lines_of h es) in
      rw (s, size, drop-drop) (ap (λ i. drop i (lines_of h es)) (omega arith))
