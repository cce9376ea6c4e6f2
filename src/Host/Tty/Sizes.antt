-- ===== src/Host/Tty/Sizes.antt =====
-- The sizes in internal/host/tty.go: of the host, its terminal, its PTY pair and its clients.
use swash.Prelude.{
  ◌≡◌, refl, ◌≢◌, inl, inr, Bool, true, false, ◌||◌, none, some, [], ◌∷◌, arith, ◌==◌, Bool-cases,
  length,
}
use swash.Prelude.Int.{ℤ, less, to_uint16}
use swash.Host.Tty.{
  Terminal, TtyHost, resize, add_client, attach_sized, size_pty, store_pty, resizes, sizes_pty,
  stores_pty, step, run, set_pty, resize_host, size_vterm, resize_pty, sizes_vterm, resizes_pty,
}

module _ {V : Type 0} (T : Terminal V) where
  -- What `attach` can leave behind.
  pub attach_sized-cases :
      (P : TtyHost V → Type 0) (r c : ℤ) (pipes : Bool) (h : TtyHost V)
      → P h
      → ((length h.attached_clients == 0) ≡ true
          → P (resize T r c h) × P (add_client T r c (resize T r c h)).0)
      → ((less r h.rows || less c h.cols) ≡ false → P (add_client T r c h).0)
      → P (attach_sized T r c pipes h).0
  unfolding attach_sized
  attach_sized-cases P r c pipes h same_host first later =
      elim (Bool-cases (length h.attached_clients == 0)) [
        | inl alone ↦ elim (Bool-cases pipes) [
          | inl made ↦ rw (alone, made) (first alone).1
          | inr broken ↦ rw (alone, broken) (first alone).0
        ]
        | inr joined ↦ elim (Bool-cases (less r h.rows || less c h.cols)) [
          | inl small ↦ rw (joined, small) same_host
          | inr fits ↦ elim (Bool-cases pipes) [
            | inl made ↦ rw (joined, fits, made) (later fits)
            | inr broken ↦ rw (joined, fits, broken) same_host
          ]
        ]
      ]

  -- A call of `Resize` between the moment when the task's pair gets its size and the moment when it is
  -- stored, which finds no pair to size, is lost on the pair: it keeps the size from before, while the
  -- host and its terminal have the new one.
  pub lost_resize :
      (r c : ℤ) (h : TtyHost V)
      → let after = run T h (sizes_pty ∷ resizes r c ∷ sizes_vterm r c ∷ stores_pty ∷ []) in
        (after.pty_pair ≡ some (to_uint16 h.rows, to_uint16 h.cols))
        × (after.rows ≡ r)
        × (after.cols ≡ c)
        × (T.get_size after.vt ≡ (r, c))
  unfolding run step resize_host size_vterm size_pty store_pty
  lost_resize r c h = (refl, refl, refl, T.get_size-set_size r c h.vt)

  -- Two calls of `Resize` at once can leave an open pair that takes its sizes, and the terminal, with the
  -- size of the one, and the host with that of the other, whatever the sizes are.
  pub resizes_race :
      (r c r' c' : ℤ) (h : TtyHost V)
      → h.pty_pair ≢ none
      → h.pty_works ≡ true
      → let after = run T h (
          resizes r c
          ∷ resizes r' c'
          ∷ sizes_vterm r' c'
          ∷ resizes_pty r' c'
          ∷ sizes_vterm r c
          ∷ resizes_pty r c
          ∷ []) in
        (after.rows ≡ r')
        × (after.cols ≡ c')
        × (T.get_size after.vt ≡ (r, c))
        × (after.pty_pair ≡ some (to_uint16 r, to_uint16 c))
  unfolding run step resize_host size_vterm resize_pty set_pty
  resizes_race r c r' c' h pair works =
      (refl, refl, T.get_size-set_size r c _, ground (arith, pair, works))
