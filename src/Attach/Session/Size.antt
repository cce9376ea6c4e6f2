-- ===== src/Attach/Session/Size.antt =====
-- internal/attach/attach.go, internal/host/tty.go: the size that the client draws and the host's.
use swash.Prelude.{
  ℕ, ◌-◌, max, ◌≡◌, refl, ◌≢◌, inl, inr, true, false, Option, none, some, List, [], ◌∷◌, arith,
  ◌==◌, Bool-cases, Option-cases, length,
}
use swash.Prelude.Int.{pos}
use swash.Host.Tty.{Terminal, TtyHost, resize, get_attached_clients, resize_ok}
use swash.Attach.{Renderer, calculate_offsets, update_size}
use swash.Attach.Owner.{VtermMsg}
use swash.Attach.Session.{
  host_client, handle_resize, Wake, exit_code_read, detach_closed, window_changed, terminated,
  event_loop,
}

-- The renderer's remote size is the host's.
unfoldable pub Agrees : {V : Type 0} → TtyHost V → Renderer → Type 0
Agrees h r = (h.rows ≡ pos r.remote_rows) × (h.cols ≡ pos r.remote_cols)

module _ {V : Type 0} (T : Terminal V) where
  handle_resize-Agrees :
      (size : Option (ℕ × ℕ)) (h : TtyHost V) (r : Renderer)
      → h.pty_works ≡ true
      → Agrees h r
      → let done = handle_resize (host_client T) size h r in
        (done.server.pty_works ≡ true) × Agrees done.server done.rend
  unfolding Agrees handle_resize host_client get_attached_clients resize resize_ok update_size
      calculate_offsets
  handle_resize-Agrees none h r works agrees = (works, agrees)
  handle_resize-Agrees (some (new_rows, new_cols)) h r works agrees =
      elim (Bool-cases (length h.attached_clients == 1)) [
        | inl alone ↦ elim (Option-cases h.pty_pair) [
          | inl closed ↦ rw (alone, closed) (works, (refl, refl))
          | inr (size, opened) ↦ rw (alone, opened, works) (refl, (refl, refl))
        ]
        | inr shared ↦ rw shared (works, agrees)
      ]

  -- While the host's PTY pair takes the sizes that it is given: from when a client's drawing has the size
  -- of the host on, it has it after any run of the client's events, window changes of a sole client, of
  -- one among others and of no terminal included.
  pub event_loop-Agrees :
      (ws : List Wake) (h : TtyHost V) (r : Renderer) (sent : List VtermMsg)
      → h.pty_works ≡ true
      → Agrees h r
      → let (result, h', r', sent') = event_loop (host_client T) ws h r sent in Agrees h' r'
  unfolding event_loop
  event_loop-Agrees [] h r sent works agrees = agrees
  event_loop-Agrees (exit_code_read code ∷ ws) h r sent works agrees = agrees
  event_loop-Agrees (detach_closed ∷ ws) h r sent works agrees = agrees
  event_loop-Agrees (terminated ∷ ws) h r sent works agrees = agrees
  event_loop-Agrees (window_changed size ∷ ws) h r sent works agrees =
      let (works', agrees') = handle_resize-Agrees size h r works agrees in
      event_loop-Agrees ws _ _ _ works' agrees'

  -- When the open pair does not take the size of a sole client's window, the client draws on as before
  -- and tells its emulator nothing, while the host and its terminal have the new size, whatever sizes
  -- there were: they no longer agree unless the new size is the old one.
  pub resize_error-disagrees :
      (rows cols : ℕ) (h : TtyHost V) (r : Renderer)
      → length h.attached_clients ≡ 1
      → h.pty_pair ≢ none
      → h.pty_works ≡ false
      → let done = handle_resize (host_client T) (some (rows, cols)) h r in
        (done.rend ≡ r)
        × (done.sent ≡ none)
        × (T.get_size done.server.vt ≡ (pos (max (rows - 2) 1), pos (max (cols - 2) 1)))
        × (Agrees done.server done.rend
            → (max (rows - 2) 1 ≡ r.remote_rows) × (max (cols - 2) 1 ≡ r.remote_cols))
  unfolding Agrees handle_resize host_client get_attached_clients resize resize_ok
  resize_error-disagrees rows cols h r alone pair broken = elim (Option-cases h.pty_pair) [
    | inl closed ↦ absurd (pair closed)
    | inr (size, opened) ↦
        rw (alone, opened, broken)
          (refl, refl, T.get_size-set_size _ _ h.vt, (λ agrees. ground (arith, agrees)))
  ]
