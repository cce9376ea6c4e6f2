-- ===== src/Attach/Owner.antt =====
-- internal/attach/attach.go: the goroutine that owns the terminal emulator of the client, and what it
-- prints.
pub mod Current
use swash.Prelude.{
  ℕ, zero, suc, ◌+◌, ◌-◌, ◌*◌, ◌/◌, ◌%◌, ◌^◌, ◌≤◌, ◌<◌, min, max, ◌≡◌, refl, sym, ap, ◌∙◌, fun_ext,
  subst, ◌≢◌, ◌↔◌, ◌⊎◌, inl, inr, Bool, true, false, not, ◌&&◌, ◌||◌, Option, none, some, List, [],
  ◌∷◌, ◌++◌, map, append_assoc, append-nil, arith, ltb, leb, ◌==◌, if◌then◌else◌, ltb→lt, lt→ltb,
  ==_iff, Bool-cases, Option-cases, length, get_elem?, take, drop, replicate, select, length-append,
  length-replicate, length-drop, drop-append, take-append, select-append, All, All-append, Bytes,
  codes, Lacks, same, same_iff, same_refl, has_prefix, cut_prefix, cut_prefix-append, trim_prefix,
  cut, cut-append, split, cons_head, join, join_rest, split_view, split-append, split-Lacks,
  split-ne-nil, join-split, split-join, split-All-Lacks, Map, Fields, or_else, find, put, remove,
  copy, find-put, find-remove, find-copy, find-copy_nil, map_laws, ◌>>=◌, max_uint64, format_uint,
  parse_uint, parse_uint-format_uint, format_uint-Lacks, format_uint-injective, format_uint-ne-nil,
  format_uint-All, is_blank, split_spaces, not_empty, words, IsWord, words-word, words-last,
  words-join, parse_uint_value, parse_uint_value-format_uint,
}
use swash.Host.Tty.{
  Terminal, Client, TermProp, prop_title, prop_alt_screen, prop_other, TtyHost, AttachError,
  too_small, pipe_failed, Attached, Answer, attached, refused, or_default, client_key, cursor_move,
  rest_of, new_tty_host, push_line, term_prop, get_scrollback, resize, add_client, attach_sized,
  attach, detach, input_closed, send_all, broadcast, feed, close_pty_master, size_pty, store_pty,
  get_attached_clients, Event, attaches, detaches, closes_input, broadcasts, feeds, pushes, props,
  resizes, sizes_pty, stores_pty, closes_pty, step, run, set_pty, resize_host, size_vterm,
  resize_pty, resize_ok, sizes_vterm, resizes_pty, pty_turns,
}
use swash.Attach.{
  get_content_size, Renderer, calculate_offsets, new_renderer, update_size, border_info, horizontal,
  vertical, border_cells, border_line, top_border, bottom_border, side_borders, draw_border,
}

-- The callbacks that a call of the emulator makes.
pub data Callback : Type 0 where
  damage : Callback
  cursor_visibility : Bool → Callback
  other_callback : Callback

-- What the client uses of `vterm.VTerm`. What is on the screen changes with a damage only.
pub record VTerm (V : Type 0) : Type 0 where
  pub set_size : ℕ → ℕ → V → V × List Callback
  pub write : Bytes → V → V × List Callback
  pub get_rows : V → ℕ
  pub get_cursor : V → ℕ × ℕ
  pub render_row_ansi : ℕ → V → Bytes

-- `vtermMsg`.
pub data VtermMsg : Type 0 where
  vterm_write : Bytes → VtermMsg
  vterm_resize : ℕ → ℕ → VtermMsg
  vterm_render : Bool → VtermMsg

-- The variables of `runVtermOwner`, and what it printed, frame by frame.
pub record Owner (V : Type 0) : Type 0 where
  pub vt : V
  pub dirty : Bool
  pub cursor_visible : Bool
  pub rend : Renderer
  pub printed : List Bytes

module _ {V : Type 0} (T : VTerm V) where
  -- The rows of the screen, from a row on.
  unfoldable pub render_rows : ℕ → ℕ → Renderer → V → Bytes
  unfolding cursor_move
  render_rows zero row r vt = []
  render_rows (suc rows) row r vt =
      cursor_move (r.border_top + 1 + row, r.border_left + 1)
      ++ (T.render_row_ansi row vt ++ render_rows rows (row + 1) r vt)

  -- `render` between the synchronized update's begin and the cursor: the border and the rows.
  unfoldable pub content : Renderer → V → Bytes
  unfolding draw_border render_rows
  content r vt = draw_border r ++ render_rows (T.get_rows vt) 0 r vt

  -- `render`.
  unfoldable pub render : Renderer → V → Bool → Bool → Bytes
  unfolding content cursor_move
  render r vt clear cursor_visible =
      let (row, col) = T.get_cursor vt in
      codes "\u{1b}[?2026h\u{1b}[?25l"
      ++ ((if clear then codes "\u{1b}[2J" else [])
          ++ (content r vt
              ++ (cursor_move (r.border_top + 1 + row, r.border_left + 1 + col)
                  ++ ((if cursor_visible then codes "\u{1b}[?25h" else [])
                      ++ codes "\u{1b}[?2026l"))))

  -- The callbacks `OnDamage` and `OnTermProp`.
  unfoldable pub run_callbacks : List Callback → Owner V → Owner V
  run_callbacks [] o = o
  run_callbacks (damage ∷ cs) o = run_callbacks cs (record o { dirty = true })
  run_callbacks (cursor_visibility visible ∷ cs) o =
      run_callbacks cs (record o { cursor_visible = visible })
  run_callbacks (other_callback ∷ cs) o = run_callbacks cs o

  unfoldable pub print_frame : Bool → Owner V → Owner V
  unfolding render
  print_frame clear o = record o { printed = render o.rend o.vt clear o.cursor_visible ∷ o.printed }

  -- `vt.Write`.
  unfoldable pub write_bytes : Bytes → Owner V → Owner V
  unfolding run_callbacks
  write_bytes chunk o =
      let (vt, made) = T.write chunk o.vt in run_callbacks made (record o { vt = vt })

  -- A resize or a render, in either loop.
  unfoldable pub handle : VtermMsg → Owner V → Owner V
  unfolding run_callbacks print_frame update_size
  handle (vterm_write chunk) o = o
  handle (vterm_resize rows cols) o =
      let (vt, made) = T.set_size rows cols o.vt in
      let sized = run_callbacks made (record o { vt = vt }) in
      print_frame true (record sized {
        rend = update_size sized.rend.local_rows sized.rend.local_cols rows cols sized.rend;
      })
  handle (vterm_render clear) o = print_frame clear o

  -- A frame for the writes since the last one, if they did any damage.
  unfoldable pub settle : Owner V → Owner V
  unfolding print_frame
  settle o = if o.dirty then record (print_frame false o) { dirty = false } else o

  -- The loops of `runVtermOwner` over what they find in the channel one time after another, `none` when
  -- it is empty; the flag is whether the inner loop runs, which drains the writes.
  unfoldable pub run_loops : Bool → List (Option VtermMsg) → Owner V → Owner V
  unfolding write_bytes handle settle
  run_loops false [] o = o
  run_loops false (none ∷ ms) o = run_loops false ms o
  run_loops false (some (vterm_write chunk) ∷ ms) o = run_loops true ms (write_bytes chunk o)
  run_loops false (some m ∷ ms) o = run_loops false ms (handle m o)
  run_loops true [] o = settle o
  run_loops true (none ∷ ms) o = run_loops false ms (settle o)
  run_loops true (some (vterm_write chunk) ∷ ms) o = run_loops true ms (write_bytes chunk o)
  run_loops true (some m ∷ ms) o = run_loops false ms (settle (handle m (settle o)))

  -- `runVtermOwner` with the emulator that `vterm.New` returned.
  unfoldable pub run_vterm_owner : Renderer → Bytes → V → List (Option VtermMsg) → Owner V
  unfolding write_bytes print_frame run_loops
  run_vterm_owner rend initial_screen vt ms =
      let new : Owner V = record {
        vt = vt;
        dirty = false;
        cursor_visible = true;
        rend = rend;
        printed = [];
      } in
      let shown = if length initial_screen == 0 then new else write_bytes initial_screen new in
      run_loops false ms (print_frame true shown)
