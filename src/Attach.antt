-- ===== src/Attach.antt =====
-- internal/attach/attach.go: the client of a terminal session. The sizes of terminals are natural
-- numbers; a difference that Go lets go below zero and then sets to zero stops there by itself.
pub mod Border
pub mod Owner
pub mod Session
use swash.Prelude.{
  ℕ, zero, suc, ◌+◌, ◌-◌, ◌*◌, ◌/◌, ◌%◌, ◌^◌, ◌≤◌, ◌<◌, min, max, ◌≡◌, refl, sym, ap, ◌∙◌, fun_ext,
  subst, ◌≢◌, ◌↔◌, ◌⊎◌, inl, inr, Bool, true, false, not, ◌&&◌, ◌||◌, Option, none, some, List, [],
  ◌∷◌, ◌++◌, map, append_assoc, append-nil, arith, ltb, leb, ◌==◌, if◌then◌else◌, ltb→lt, lt→ltb,
  ==_iff, Bool-cases, Option-cases, length, get_elem?, take, drop, replicate, select, length-append,
  length-replicate, length-drop, drop-append, take-append, select-append, All, All-append, Bytes,
  codes, Lacks, same, same_iff, same_refl, has_prefix, cut_prefix, cut_prefix-append, trim_prefix,
  cut, cut-append, split, cons_head, join, join_rest, split_view, split-append, split-Lacks,
  split-ne-nil, join-split, split-join, split-All-Lacks, Map, Fields, or_else, find, put, remove,
  copy, find-put, find-remove, find-copy, find-copy_nil, map_laws, ◌>>=◌, max_uint64, format_uint,
  parse_uint, parse_uint-format_uint, format_uint-Lacks, format_uint-injective, format_uint-ne-nil,
  format_uint-All, is_blank, split_spaces, not_empty, words, IsWord, words-word, words-last,
  words-join, parse_uint_value, parse_uint_value-format_uint,
}
use swash.Host.Tty.{
  Terminal, Client, TermProp, prop_title, prop_alt_screen, prop_other, TtyHost, AttachError,
  too_small, pipe_failed, Attached, Answer, attached, refused, or_default, client_key, cursor_move,
  rest_of, new_tty_host, push_line, term_prop, get_scrollback, resize, add_client, attach_sized,
  attach, detach, input_closed, send_all, broadcast, feed, close_pty_master, size_pty, store_pty,
  get_attached_clients, Event, attaches, detaches, closes_input, broadcasts, feeds, pushes, props,
  resizes, sizes_pty, stores_pty, closes_pty, step, run, set_pty, resize_host, size_vterm,
  resize_pty, resize_ok, sizes_vterm, resizes_pty, pty_turns,
}

-- `GetContentSize`, with the size of the terminal on standard input, if that is one.
unfoldable pub get_content_size : Option (ℕ × ℕ) → ℕ × ℕ
get_content_size none = (22, 78)
get_content_size (some (rows, cols)) = (max (rows - 2) 1, max (cols - 2) 1)

-- `renderer`.
pub record Renderer : Type 0 where
  pub session_id : Bytes
  pub remote_rows : ℕ
  pub remote_cols : ℕ
  pub local_rows : ℕ
  pub local_cols : ℕ
  pub border_top : ℕ
  pub border_left : ℕ

-- `calculateOffsets`.
unfoldable pub calculate_offsets : Renderer → Renderer
calculate_offsets r = record r {
  border_top = (r.local_rows - r.remote_rows - 2) / 2;
  border_left = (r.local_cols - r.remote_cols - 2) / 2;
}

-- `newRenderer`.
unfoldable pub new_renderer : Bytes → ℕ → ℕ → ℕ → ℕ → Renderer
unfolding calculate_offsets
new_renderer session_id remote_rows remote_cols local_rows local_cols = calculate_offsets (record {
  session_id = session_id;
  remote_rows = remote_rows;
  remote_cols = remote_cols;
  local_rows = local_rows;
  local_cols = local_cols;
  border_top = 0;
  border_left = 0;
})

-- `updateSize`.
unfoldable pub update_size : ℕ → ℕ → ℕ → ℕ → Renderer → Renderer
unfolding calculate_offsets
update_size local_rows local_cols remote_rows remote_cols r = calculate_offsets (record r {
  local_rows = local_rows;
  local_cols = local_cols;
  remote_rows = remote_rows;
  remote_cols = remote_cols;
})

-- The label of the top border.
unfoldable pub border_info : Renderer → Bytes
unfolding format_uint
border_info r =
    codes " "
    ++ (r.session_id
        ++ (codes " ["
            ++ (format_uint r.remote_cols
                ++ (codes "x" ++ (format_uint r.remote_rows ++ codes "] ")))))

abbrev pub horizontal : Bytes
horizontal = 0xe2 ∷ 0x94 ∷ 0x80 ∷ []

abbrev pub vertical : Bytes
vertical = 0xe2 ∷ 0x94 ∷ 0x82 ∷ []

-- The loop of a border from cell i on, with a label at a cell. It goes on by a cell at least, so as many
-- rounds as there are cells are enough.
unfoldable pub border_cells : ℕ → ℕ → ℕ → ℕ → Bytes → Bytes
border_cells zero i start cols label = []
border_cells (suc fuel) i start cols label =
    let labelled = border_cells fuel (i + length label) start cols label in
    let next = border_cells fuel (i + 1) start cols label in
    if not (ltb i cols) then [] else if i == start then label ++ labelled else horizontal ++ next

-- A border between two corners.
unfoldable pub border_line : Bytes → Bytes → Bytes → ℕ → Bytes
unfolding border_cells
border_line left right label cols =
    left ++ (border_cells cols 0 ((cols - length label) / 2) cols label ++ right)

unfoldable pub top_border : Renderer → Bytes
unfolding border_line border_info
top_border r =
    border_line (0xe2 ∷ 0x94 ∷ 0x8c ∷ []) (0xe2 ∷ 0x94 ∷ 0x90 ∷ []) (border_info r) r.remote_cols

unfoldable pub bottom_border : Renderer → Bytes
unfolding border_line
bottom_border r =
    border_line (0xe2 ∷ 0x94 ∷ 0x94 ∷ []) (0xe2 ∷ 0x94 ∷ 0x98 ∷ []) (codes " Ctrl+\\ to detach ")
      r.remote_cols

-- The side borders of as many rows, from a row on.
unfoldable pub side_borders : ℕ → ℕ → Renderer → Bytes
unfolding cursor_move
side_borders zero row r = []
side_borders (suc rows) row r =
    cursor_move (r.border_top + row + 1, r.border_left)
    ++ (vertical
        ++ (cursor_move (r.border_top + row + 1, r.border_left + r.remote_cols + 1)
            ++ (vertical ++ side_borders rows (row + 1) r)))

-- `drawBorder`.
unfoldable pub draw_border : Renderer → Bytes
unfolding cursor_move top_border side_borders bottom_border
draw_border r =
    cursor_move (r.border_top, r.border_left)
    ++ (top_border r
        ++ (side_borders r.remote_rows 0 r
            ++ (cursor_move (r.border_top + r.remote_rows + 1, r.border_left) ++ bottom_border r)))
