-- ===== src/Attach/Owner/Current.antt =====
-- internal/attach/attach.go: the last frame that the owner prints, and the emulator's screen.
use swash.Prelude.{
  ℕ, zero, suc, ◌+◌, ◌≡◌, refl, sym, ap, ◌∙◌, subst, ◌⊎◌, inl, inr, Bool, true, false, ◌||◌, Option,
  none, some, List, [], ◌∷◌, arith, Bool-cases, Bytes,
}
use swash.Attach.{Renderer}
use swash.Attach.Owner.{
  Callback, damage, cursor_visibility, other_callback, VTerm, VtermMsg, vterm_write, vterm_resize,
  vterm_render, Owner, render_rows, content, render, run_callbacks, print_frame, write_bytes,
  handle, settle, run_loops, run_vterm_owner,
}

unfoldable pub damaged : List Callback → Bool
damaged [] = false
damaged (damage ∷ cs) = true
damaged (cursor_visibility visible ∷ cs) = damaged cs
damaged (other_callback ∷ cs) = damaged cs

visibility : List Callback → Bool → Bool
visibility [] shown = shown
visibility (damage ∷ cs) shown = visibility cs shown
visibility (cursor_visibility visible ∷ cs) shown = visibility cs visible
visibility (other_callback ∷ cs) shown = visibility cs shown

or_true : (b : Bool) → (b || true) ≡ true
or_true true = refl
or_true false = refl

module _ {V : Type 0} (T : VTerm V) where
  -- A write without a damage leaves the rows of the screen as they are.
  unfoldable pub Quiet : Type 0
  unfolding damaged
  Quiet =
      (chunk : Bytes) (v : V)
      → damaged (T.write chunk v).1 ≡ false
      → (T.get_rows (T.write chunk v).0 ≡ T.get_rows v)
        × ((row : ℕ) → T.render_row_ansi row (T.write chunk v).0 ≡ T.render_row_ansi row v)

  -- The last frame shows the border and the rows of the screen as they are.
  unfoldable pub Current : Owner V → Type 0
  unfolding render content
  Current o =
      (frames : List Bytes) × (v : V) × (clear visible : Bool) × (o.printed
        ≡ render T o.rend v clear visible ∷ frames)
      × (content T o.rend v ≡ content T o.rend o.vt)

  -- It does, or the next end of a batch of writes prints one.
  abbrev Fresh : Owner V → Type 0
  Fresh o = (o.dirty ≡ true) ⊎ Current o

  run_callbacks_lem :
      (cs : List Callback) (o : Owner V)
      → run_callbacks T cs o ≡ record o {
        dirty = damaged cs || o.dirty;
        cursor_visible = visibility cs o.cursor_visible;
      }
  unfolding run_callbacks damaged visibility
  run_callbacks_lem [] o = refl
  run_callbacks_lem (damage ∷ cs) o =
      run_callbacks_lem cs (record o { dirty = true })
      ∙ ap (λ b. record o { dirty = b; cursor_visible = visibility cs o.cursor_visible })
          (or_true (damaged cs))
  run_callbacks_lem (cursor_visibility visible ∷ cs) o =
      run_callbacks_lem cs (record o { cursor_visible = visible })
  run_callbacks_lem (other_callback ∷ cs) o = run_callbacks_lem cs o

  print_frame-Current : (clear : Bool) (o : Owner V) → Current (print_frame T clear o)
  unfolding print_frame Current
  print_frame-Current clear o = (o.printed, o.vt, clear, o.cursor_visible, refl, refl)

  settle-Current : (o : Owner V) → Fresh o → Current (settle T o)
  unfolding settle Current print_frame
  settle-Current o fresh = elim (Bool-cases o.dirty) [
    | inl dirty ↦ rw (settle, dirty) (o.printed, o.vt, false, o.cursor_visible, refl, refl)
    | inr clean ↦ elim fresh [
      | inl dirty ↦ absurd (ground arith)
      | inr current ↦ rw (settle, clean) current
    ]
  ]

  render_rows-same :
      (rows row : ℕ) (r : Renderer) (v w : V)
      → ((n : ℕ) → T.render_row_ansi n v ≡ T.render_row_ansi n w)
      → render_rows T rows row r v ≡ render_rows T rows row r w
  unfolding render_rows
  render_rows-same zero row r v w same_rows = refl
  render_rows-same (suc rows) row r v w same_rows =
      rw (same_rows row, render_rows-same rows (row + 1) r v w same_rows) refl

  module _ (quiet : Quiet) where
    write_bytes-Fresh : (chunk : Bytes) (o : Owner V) → Fresh o → Fresh (write_bytes T chunk o)
    unfolding write_bytes Quiet Current content
    write_bytes-Fresh chunk o fresh =
        let made = (T.write chunk o.vt).1 in
        let p : Owner V = record o { vt = (T.write chunk o.vt).0 } in
        let q : Owner V = record p {
          dirty = damaged made || o.dirty;
          cursor_visible = visibility made o.cursor_visible;
        } in
        let q_fresh : Fresh q = elim (Bool-cases (damaged made)) [
          | inl hit ↦ inl (rw hit refl)
          | inr unhurt ↦ elim fresh [
            | inl dirty ↦ inl (rw (unhurt, dirty) refl)
            | inr (frames, v, clear, visible, last, shown) ↦
                let (rows, same_rows) = quiet chunk o.vt unhurt in
                let same_content : content T o.rend p.vt ≡ content T o.rend o.vt =
                  rw (rows, render_rows-same (T.get_rows o.vt) 0 o.rend p.vt o.vt same_rows) refl in
                inr (frames, v, clear, visible, last, shown ∙ sym same_content)
          ]
        ] in
        subst Fresh (sym (run_callbacks_lem made p)) q_fresh

    handle-Current : (m : VtermMsg) (o : Owner V) → Current o → Current (handle T m o)
    unfolding handle
    handle-Current (vterm_write chunk) o current = current
    handle-Current (vterm_resize rows cols) o current = print_frame-Current true _
    handle-Current (vterm_render clear) o current = print_frame-Current clear o

    mutual
      unfolding run_loops

      idle-Current :
          (ms : List (Option VtermMsg)) (o : Owner V) → Current o → Current (run_loops T false ms o)
      idle-Current [] o current = current
      idle-Current (none ∷ ms) o current = idle-Current ms o current
      idle-Current (some (vterm_write chunk) ∷ ms) o current =
          drain-Current ms (write_bytes T chunk o) (write_bytes-Fresh chunk o (inr current))
      idle-Current (some (vterm_resize rows cols) ∷ ms) o current =
          idle-Current ms _ (handle-Current (vterm_resize rows cols) o current)
      idle-Current (some (vterm_render clear) ∷ ms) o current =
          idle-Current ms _ (handle-Current (vterm_render clear) o current)

      drain-Current :
          (ms : List (Option VtermMsg)) (o : Owner V) → Fresh o → Current (run_loops T true ms o)
      drain-Current [] o fresh = settle-Current o fresh
      drain-Current (none ∷ ms) o fresh = idle-Current ms _ (settle-Current o fresh)
      drain-Current (some (vterm_write chunk) ∷ ms) o fresh =
          drain-Current ms (write_bytes T chunk o) (write_bytes-Fresh chunk o fresh)
      drain-Current (some (vterm_resize rows cols) ∷ ms) o fresh = idle-Current ms _ (
          settle-Current _
            (inr (handle-Current (vterm_resize rows cols) _ (settle-Current o fresh))))
      drain-Current (some (vterm_render clear) ∷ ms) o fresh =
          idle-Current ms _ (
            settle-Current _ (inr (handle-Current (vterm_render clear) _ (settle-Current o fresh))))

    -- Whatever messages the owner gets and wherever its channel is empty in between, when it has read
    -- them the last frame that it printed shows the border at its place and the rows that the screen of
    -- the emulator has then, if the emulator reports each change of a row as damage.
    pub run_vterm_owner-Current :
        (rend : Renderer) (initial_screen : Bytes) (vt : V) (ms : List (Option VtermMsg))
        → Current (run_vterm_owner T rend initial_screen vt ms)
    unfolding run_vterm_owner
    run_vterm_owner-Current rend initial_screen vt ms =
        idle-Current ms _ (print_frame-Current true _)
