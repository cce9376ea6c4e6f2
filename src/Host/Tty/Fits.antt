-- ===== src/Host/Tty/Fits.antt =====
-- The sizes of the clients of internal/host/tty.go.
use swash.Prelude.{
  ◌+◌, ◌≡◌, refl, sym, ◌∙◌, Bool, true, false, Option, none, some, List, [], ◌∷◌, ◌++◌, arith, ◌==◌,
  length, All, Bytes, Map, Fields, find, find-put, find-remove,
}
use swash.Prelude.Int.{ℤ, less, less_irrefl}
use swash.Host.Tty.{
  Terminal, Client, TtyHost, or_default, client_key, new_tty_host, push_line, term_prop, resize,
  add_client, attach, detach, input_closed, broadcast, feed, close_pty_master, size_pty, store_pty,
  Event, attaches, detaches, closes_input, broadcasts, resizes, step, run, size_vterm, resize_pty,
}
use swash.Host.Tty.Clients.{find-send_all}
use swash.Host.Tty.Sizes.{attach_sized-cases}

abbrev pub is_resize : Event → Bool
is_resize (resizes r c) = true
is_resize e = false

module _ {V : Type 0} (T : Terminal V) where
  -- Every client's terminal is as large as the host's.
  ClientsFit : TtyHost V → Type 0
  ClientsFit h =
      (id : Bytes) (c : Client)
      → find id h.attached_clients ≡ some c
      → (less c.rows h.rows ≡ false) × (less c.cols h.cols ≡ false)

  find-nobody : (cs : Map Client) (id : Bytes) → (length cs == 0) ≡ true → find id cs ≡ none
  unfolding find
  find-nobody [] id e = refl
  find-nobody (c ∷ cs) id e = ground arith

  add_client-ClientsFit :
      (r c : ℤ) (h : TtyHost V)
      → less r h.rows ≡ false
      → less c h.cols ≡ false
      → ClientsFit h
      → ClientsFit (add_client T r c h).0
  unfolding add_client ClientsFit
  add_client-ClientsFit r c h tall wide fit id a hit = ground (
    arith,
    find-put h.attached_clients (client_key (h.next_client_id + 1)) id
        (record { received = []; rows = r; cols = c }),
    fit id a,
  )

  resize-ClientsFit :
      (r c : ℤ) (h : TtyHost V)
      → (length h.attached_clients == 0) ≡ true
      → ClientsFit (resize T r c h)
  unfolding resize ClientsFit
  resize-ClientsFit r c h alone id a hit = ground (arith, find-nobody h.attached_clients id alone)

  first_client-ClientsFit :
      (r c : ℤ) (h : TtyHost V)
      → ClientsFit (resize T r c h)
      → ClientsFit (add_client T r c (resize T r c h)).0
  unfolding resize
  first_client-ClientsFit r c h fit =
      add_client-ClientsFit r c (resize T r c h) (less_irrefl r) (less_irrefl c) fit

  sent-fits :
      (h : TtyHost V) (chunk : Bytes) (a : Client) (o : Option Client)
      → ((c : Client) → o ≡ some c → (less c.rows h.rows ≡ false) × (less c.cols h.cols ≡ false))
      → elim o [ none ↦ none | some c ↦ some (record c { received = c.received ++ chunk ∷ [] }) ]
        ≡ some a
      → (less a.rows h.rows ≡ false) × (less a.cols h.cols ≡ false)
  sent-fits h chunk a none fit hit = ground arith
  sent-fits h chunk a (some c) fit hit = ground (arith, fit c refl)

  step-ClientsFit :
      (h : TtyHost V) (e : Event) → is_resize e ≡ false → ClientsFit h → ClientsFit (step T h e)
  unfolding step attach detach input_closed broadcast feed push_line term_prop size_pty store_pty
      close_pty_master size_vterm resize_pty ClientsFit
  step-ClientsFit h (attaches r c pipes) calm fit =
      let rows = or_default r 24 in
      let cols = or_default c 80 in
      attach_sized-cases T ClientsFit rows cols pipes h fit
        (λ alone. (
          resize-ClientsFit rows cols h alone,
          first_client-ClientsFit rows cols h (resize-ClientsFit rows cols h alone),
        ))
        (λ fits. add_client-ClientsFit rows cols h (ground arith) (ground arith) fit)
  step-ClientsFit h (detaches id) calm fit =
      λ k a hit. ground (arith, find-remove h.attached_clients id k, fit k a)
  step-ClientsFit h (closes_input id) calm fit =
      λ k a hit. ground (arith, find-remove h.attached_clients id k, fit k a)
  step-ClientsFit h (broadcasts chunk) calm fit = λ k a hit.
      sent-fits h chunk a (find k h.attached_clients) (fit k)
        (sym (find-send_all T chunk k h.attached_clients) ∙ hit)
  step-ClientsFit h e calm fit = λ k a hit. ground (arith, fit k a)

  run-ClientsFit :
      (es : List Event) (h : TtyHost V)
      → All (λ e. is_resize e ≡ false) es
      → ClientsFit h
      → ClientsFit (run T h es)
  unfolding run
  run-ClientsFit [] h calm fit = fit
  run-ClientsFit (e ∷ es) h (quiet, calm) fit =
      run-ClientsFit es (step T h e) calm (step-ClientsFit h e quiet fit)

  -- As long as nobody calls `Resize`, the terminal of every attached client is at least as large as
  -- the host's, whoever attaches and detaches in whatever order.
  pub client_fits :
      (rows cols : ℤ) (tags : Fields) (session_id : Bytes) (vt : V) (es : List Event) (id : Bytes)
      (c : Client)
      → All (λ e. is_resize e ≡ false) es
      → find id (run T (new_tty_host T rows cols tags session_id vt) es).attached_clients ≡ some c
      → let h = run T (new_tty_host T rows cols tags session_id vt) es in
        (less c.rows h.rows ≡ false) × (less c.cols h.cols ≡ false)
  unfolding ClientsFit new_tty_host find
  client_fits rows cols tags session_id vt es id c calm hit =
      run-ClientsFit es (new_tty_host T rows cols tags session_id vt) calm
        (λ k a nobody. ground arith) id c hit
